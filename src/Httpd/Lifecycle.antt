-- ===== src/Httpd/Lifecycle.antt =====
-- httpd/server.go: `NewServer`, `Start`, `Stop` and `IsRunning`. Each runs under the server's mutex. The calls on
-- net and net/http are answered from outside.
use ztna_lab_appliance.Common.{
  ℕ, zero, suc, Bool, true, false, not, List, [], ◌∷◌, ◌++◌, Option, none, some, Text, text, ◌≡◌,
  arith, LogCall, if◌then◌else◌, is_empty,
}
use ztna_lab_appliance.Service.{Error, Outcome, Call, Meets, spec_step}

-- `Server`; `srv` says whether the pointer `srv` is set, and `pending` counts the goroutines of
-- `Start` that have not read it yet.
pub record Server : Type 0 where
  pub addr : Text
  pub srv : Bool
  pub running : Bool
  pub pending : ℕ

-- `NewServer`
unfoldable pub new_server : Text → Server
new_server addr = record {
  addr = if is_empty addr then text ":80" else addr;
  srv = false;
  running = false;
  pending = 0;
}

abbrev pub http_line : Text → List LogCall
http_line message = record { module_name = text "HTTP"; message = message } ∷ []

abbrev pub bind_failed : Text → Text → Error
bind_failed addr e = Error.could_not_start (text "could not bind " ++ addr ++ text ": " ++ e)

-- `Start`: `failure` is the error of `net.Listen`.
unfoldable pub start : Option Text → Server → Outcome Server
start failure s =
    if s.running then Outcome.returns (some Error.already_running) s [] else elim failure [
      | some e ↦ Outcome.returns (some (bind_failed s.addr e)) (record s { srv = false }) []
      | none ↦
          Outcome.returns none (record s { srv = true; running = true; pending = suc s.pending })
            (http_line (text "server started TCP" ++ s.addr))
    ]

-- The goroutine of `Start`, when it comes to run: it reads the pointer without the mutex, and calls
-- `Serve` on it, which panics on a nil pointer.
unfoldable pub serve_next : Server → Outcome Server
serve_next s = elim s.pending [
  | zero ↦ Outcome.returns none s []
  | suc n ↦ if s.srv then Outcome.returns none (record s { pending = n }) [] else Outcome.panics
]

and_serve : Outcome Server → Outcome Server
and_serve Outcome.panics = Outcome.panics
and_serve (Outcome.returns e s lines) = elim (serve_next s) [
  | Outcome.panics ↦ Outcome.panics
  | Outcome.returns none t more ↦ Outcome.returns e t lines
  | Outcome.returns (some other) t more ↦ Outcome.returns e t lines
]

-- `Start`, where its goroutine runs before the next call.
unfoldable pub start_and_serve : Option Text → Server → Outcome Server
unfolding start serve_next and_serve
start_and_serve failure s = and_serve (start failure s)

-- `Stop`: `failure` is the error of `Shutdown`.
unfoldable pub stop : Option Text → Server → Outcome Server
stop failure s =
    if not s.running
    then Outcome.returns (some Error.not_running) s []
    else if not s.srv
    then Outcome.panics
    else elim failure [
      | some e ↦ Outcome.returns (some (Error.shutdown_failed e)) s []
      | none ↦
          Outcome.returns none (record s { srv = false; running = false })
            (http_line (text "server stopped"))
    ]

-- `IsRunning`
unfoldable pub is_running : Server → Bool
is_running s = s.running

-- A call of a client, where the goroutine of a start runs before the next one.
unfoldable pub perform : Call (Option Text) → Server → Outcome Server
unfolding start_and_serve stop
perform (Call.start_call failure) s = start_and_serve failure s
perform (Call.stop_call failure) s = stop failure s

-- The pointer is set exactly while the server runs, and no goroutine has yet to read it.
abbrev pub IsSettled : Server → Type 0
IsSettled s = (s.srv ≡ s.running) × (s.pending ≡ 0)

module _ (addr : Text) where
  -- A settled server with the address `addr`.
  abbrev pub IsConsistent : Server → Type 0
  IsConsistent s = IsSettled s × (s.addr ≡ addr)

  abbrev pub listen_error : Option Text → Option Error
  listen_error none = none
  listen_error (some e) = some (bind_failed addr e)

  pub perform-Meets :
      (c : Call (Option Text)) (s : Server)
      → IsConsistent s
      → Meets is_running IsConsistent (spec_step listen_error c (is_running s)) (perform c s)
  unfolding perform is_running
  perform-Meets (Call.start_call none) s h = ground arith
  perform-Meets (Call.start_call (some e)) s h = ground arith
  perform-Meets (Call.stop_call none) s h = ground arith
  perform-Meets (Call.stop_call (some e)) s h = ground arith
