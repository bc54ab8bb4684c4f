-- ===== src/Dns/Server/Lifecycle.antt =====
-- dns/server.go: `NewServer`, `Start`, `Stop` and `IsRunning`. Each runs under the server's mutex, so the calls
-- of several clients are a sequence. The calls on the miekg/dns server are answered from outside.
use mathlib.Core.Option
use ztna_lab_appliance.Common.{
  Bool, true, false, not, List, [], ◌∷◌, ◌++◌, Option, none, some, Text, text, ◌≡◌, refl, arith,
  LogCall, if◌then◌else◌, is_empty,
}
use ztna_lab_appliance.Dns.Records
use ztna_lab_appliance.Service.{
  Service, Error, Outcome, Call, Meets, spec_step, spec_run, run_calls, run_calls_refines,
}

-- `Server`; `srv` says whether the pointer `srv` is set.
pub record Server : Type 0 where
  pub addr : Text
  pub upstream : Text
  pub srv : Bool
  pub running : Bool

-- `NewServer`: the error of loading the records, which is only logged, the server, and the records.
unfoldable pub new_server :
    Records.Os → Text → Text → Records.World → Option Records.Error × Server × Records.World
new_server os records_path upstream w =
    let (failure, w') = Records.load_records os records_path w in
    (
      failure,
      record {
        addr = text ":53";
        upstream = if is_empty upstream then text "1.1.1.1:53" else upstream;
        srv = false;
        running = false;
      },
      w',
    )

abbrev dns_line : Text → List LogCall
dns_line message = record { module_name = text "DNS "; message = message } ∷ []

-- The error of `Start`, wrapped by the program.
abbrev pub listen_error : Option Text → Option Error
listen_error early = Option.map Error.could_not_start early

-- `Start`: `early` is an error that `ListenAndServe` returns within 200 ms.
unfoldable pub start : Option Text → Server → Outcome Server
start early s =
    if s.running then Outcome.returns (some Error.already_running) s [] else elim early [
      | some e ↦ Outcome.returns (some (Error.could_not_start e)) (record s { srv = false }) []
      | none ↦
          Outcome.returns none (record s { srv = true; running = true })
            (dns_line (text "server started UDP" ++ s.addr ++ text "  upstream=" ++ s.upstream))
    ]

-- `Stop`: `failure` is the error of `Shutdown`.
unfoldable pub stop : Option Text → Server → Outcome Server
stop failure s =
    if not s.running
    then Outcome.returns (some Error.not_running) s []
    else if not s.srv
    then Outcome.panics
    else elim failure [
      | some e ↦ Outcome.returns (some (Error.shutdown_failed e)) s []
      | none ↦
          Outcome.returns none (record s { srv = false; running = false })
            (dns_line (text "server stopped"))
    ]

-- `IsRunning`
unfoldable pub is_running : Server → Bool
is_running s = s.running

-- A call of a client.
unfoldable pub perform : Call (Option Text) → Server → Outcome Server
unfolding start stop
perform (Call.start_call early) s = start early s
perform (Call.stop_call failure) s = stop failure s

-- The pointer is set exactly while the server runs.
abbrev pub IsConsistent : Server → Type 0
IsConsistent s = s.srv ≡ s.running

pub perform-Meets :
    (c : Call (Option Text)) (s : Server)
    → IsConsistent s
    → Meets is_running IsConsistent (spec_step listen_error c (is_running s)) (perform c s)
unfolding perform is_running
perform-Meets (Call.start_call none) s h = ground arith
perform-Meets (Call.start_call (some e)) s h = ground arith
perform-Meets (Call.stop_call none) s h = ground arith
perform-Meets (Call.stop_call (some e)) s h = ground arith

abbrev pub dns_service : Service Server (Option Text)
dns_service = record {
  fails = listen_error;
  perform = perform;
  running = is_running;
  IsConsistent = IsConsistent;
  meets = perform-Meets;
}

-- From a state in which the pointer is set exactly if the server runs, no sequence of starts and
-- stops dereferences a nil pointer; every error and the final state are those of the one-bit
-- machine, and the pointer is again set exactly if the server runs.
pub dns_calls_refine :
    (calls : List (Call (Option Text))) (s : Server)
    → IsConsistent s
    → (t : Server) × (run_calls dns_service calls s
        ≡ some (t, (spec_run listen_error calls (is_running s)).1))
      × (is_running t ≡ (spec_run listen_error calls (is_running s)).0)
      × IsConsistent t
dns_calls_refine calls s h = run_calls_refines dns_service calls s (is_running s) h refl
