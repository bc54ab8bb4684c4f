-- ===== src/Sshd/Lifecycle.antt =====
-- sshd/server.go: `NewServer`, `SetDebug`, `IsDebug`, `Start`, `Stop` and `IsRunning`; sshd/config.go. Loading or
-- generating a host key and the listener are answered from outside; the field `config`, which only the
-- SSH library reads, and the log lines of generating a key are left out.
use ztna_lab_appliance.Common.{
  Bool, true, false, not, ◌&&◌, ◌||◌, ◌≢◌, List, [], ◌∷◌, ◌++◌, Option, none, some, Text, text,
  text_eq, to_lower, is_empty, ◌≡◌, refl, arith, LogCall, if◌then◌else◌, Bool-cases, Option-cases,
  ◌⊎◌, inl, inr, sym, ◌∙◌,
}
use ztna_lab_appliance.Service.{
  Service, Error, Outcome, Call, Meets, spec_step, spec_run, run_calls, run_calls_refines,
}

-- `Config`
pub record Config : Type 0 where
  pub rsa_key_path : Text
  pub ed25519_key_path : Text
  pub debug : Bool

-- `ConfigFromEnv`: the values of the three variables, empty where one is not set.
unfoldable pub config_from_env : Text → Text → Text → Config
config_from_env rsa ed25519 debug =
    let v = to_lower debug in
    record {
      rsa_key_path = rsa;
      ed25519_key_path = ed25519;
      debug = text_eq v (text "true") || text_eq v (text "1");
    }

-- `Server`, its sessions left to Sshd.Sessions; `listener` says whether the field is set.
pub record Server : Type 0 where
  pub addr : Text
  pub cfg : Config
  pub listener : Bool
  pub running : Bool
  pub debug_flag : Bool

-- `NewServer`
unfoldable pub new_server : Text → Config → Server
new_server addr cfg = record {
  addr = if is_empty addr then text ":2222" else addr;
  cfg = cfg;
  listener = false;
  running = false;
  debug_flag = cfg.debug;
}

abbrev pub ssh_line : Text → LogCall
ssh_line message = record { module_name = text "SSH "; message = message }

abbrev on_off : Bool → Text
on_off on = if on then text "ON" else text "OFF"

abbrev ciphers : Text
ciphers =
    text "[debug] ciphers: aes128-gcm@openssh.com, aes256-gcm@openssh.com, "
    ++ text "chacha20-poly1305@openssh.com, aes128-ctr, aes192-ctr, aes256-ctr"

abbrev key_exchanges : Text
key_exchanges =
    text "[debug] kex: curve25519-sha256, curve25519-sha256@libssh.org, ecdh-sha2-nistp256, "
    ++ text "ecdh-sha2-nistp384, ecdh-sha2-nistp521, diffie-hellman-group14-sha256, "
    ++ text "diffie-hellman-group14-sha1"

abbrev macs : Text
macs =
    text "[debug] macs: hmac-sha2-256-etm@openssh.com, hmac-sha2-512-etm@openssh.com, "
    ++ text "hmac-sha2-256, hmac-sha2-512, hmac-sha1"

-- The log lines of `SetDebug`.
unfoldable pub debug_lines : Bool → List LogCall
debug_lines on =
    ssh_line (text "debug mode " ++ on_off on)
    ∷ (if on then ssh_line ciphers ∷ ssh_line key_exchanges ∷ ssh_line macs ∷ [] else [])

-- `SetDebug`
unfoldable pub set_debug : Bool → Server → Server × List LogCall
set_debug on s = (record s { debug_flag = on }, debug_lines on)

-- `IsDebug`
unfoldable pub is_debug : Server → Bool
is_debug s = s.debug_flag

-- What `Start` is answered: the errors of loading each key and of `net.Listen`.
pub record Answers : Type 0 where
  pub rsa : Option Text
  pub ed25519 : Option Text
  pub listen : Option Text

abbrev key_lines : Text → Text → List LogCall
key_lines label path =
    if is_empty path
    then []
    else ssh_line (text "host key " ++ label ++ text " loaded: " ++ path) ∷ []

-- The first error of loading the keys that are configured.
unfoldable pub key_error : Config → Answers → Option Error × List LogCall
key_error cfg answers =
    let rsa_lines = key_lines (text "RSA") cfg.rsa_key_path in
    let ed25519_lines = key_lines (text "Ed25519") cfg.ed25519_key_path in
    let rest =
      if is_empty cfg.ed25519_key_path
      then (if is_empty cfg.rsa_key_path then (some Error.no_host_key, []) else (none, rsa_lines))
      else elim answers.ed25519 [
        | some e ↦ (some (Error.could_not_start (text "ed25519 host key: " ++ e)), rsa_lines)
        | none ↦ (none, rsa_lines ++ ed25519_lines)
      ] in
    if is_empty cfg.rsa_key_path then rest else elim answers.rsa [
      | some e ↦ (some (Error.could_not_start (text "rsa host key: " ++ e)), [])
      | none ↦ rest
    ]

abbrev bind_failed : Text → Text → Error
bind_failed addr e = Error.could_not_start (text "could not bind " ++ addr ++ text ": " ++ e)

abbrev true_false : Bool → Text
true_false b = if b then text "true" else text "false"

-- The end of `Start`, once the keys are loaded.
listen : Answers → List LogCall → Server → Outcome Server
unfolding debug_lines
listen answers logged s = elim answers.listen [
  | some e ↦ Outcome.returns (some (bind_failed s.addr e)) s logged
  | none ↦
      Outcome.returns none (record s { listener = true; running = true })
        (logged
          ++ ssh_line (
              text "server started TCP"
              ++ s.addr
              ++ text " (debug="
              ++ true_false s.debug_flag
              ++ text ")")
            ∷ (if s.debug_flag then debug_lines true else []))
]

-- `Start`
unfoldable pub start : Answers → Server → Outcome Server
unfolding key_error listen
start answers s =
    let (failure, logged) = key_error s.cfg answers in
    if s.running then Outcome.returns (some Error.already_running) s [] else elim failure [
      | some e ↦ Outcome.returns (some e) s logged
      | none ↦ listen answers logged s
    ]

-- `Stop`: `failure` is the error of `Close`.
unfoldable pub stop : Option Text → Server → Outcome Server
stop failure s =
    if not s.running
    then Outcome.returns (some Error.not_running) s []
    else if not s.listener
    then Outcome.panics
    else elim failure [
      | some e ↦ Outcome.returns (some (Error.shutdown_failed e)) s []
      | none ↦
          Outcome.returns none (record s { listener = false; running = false })
            (ssh_line (text "server stopped") ∷ [])
    ]

-- `IsRunning`
unfoldable pub is_running : Server → Bool
is_running s = s.running

-- A call of a client.
unfoldable pub perform : Call Answers → Server → Outcome Server
unfolding start stop
perform (Call.start_call answers) s = start answers s
perform (Call.stop_call failure) s = stop failure s

module _ (addr : Text) (cfg : Config) where
  -- The listener is set exactly while the server runs; the address and the keys never change.
  abbrev pub IsConsistent : Server → Type 0
  IsConsistent s = (s.listener ≡ s.running) × (s.addr ≡ addr) × (s.cfg ≡ cfg)

  abbrev bind_error : Option Text → Option Error
  bind_error none = none
  bind_error (some e) = some (bind_failed addr e)

  abbrev first_error : List (Option Error) → Option Error
  first_error [] = none
  first_error (none ∷ errors) = first_error errors
  first_error (some e ∷ errors) = some e

  -- Loading the key of a path, if there is one.
  abbrev load_error : Text → Text → Option Text → Option Error
  load_error label path none = none
  load_error label path (some e) =
      if is_empty path then none else some (Error.could_not_start (label ++ e))

  abbrev no_key_error : Option Error
  no_key_error =
      if is_empty cfg.rsa_key_path && is_empty cfg.ed25519_key_path
      then some Error.no_host_key
      else none

  -- The error of a start: that of the first step that fails, of loading the RSA key, loading the
  -- Ed25519 key, having one of them, and listening.
  abbrev pub start_error : Answers → Option Error
  start_error answers = first_error (
      load_error (text "rsa host key: ") cfg.rsa_key_path answers.rsa
      ∷ load_error (text "ed25519 host key: ") cfg.ed25519_key_path answers.ed25519
      ∷ no_key_error
      ∷ bind_error answers.listen
      ∷ [])

  start_error_lem :
      (answers : Answers)
      → start_error answers
        ≡ elim (key_error cfg answers).0 [ some e ↦ some e | none ↦ bind_error answers.listen ]
  unfolding key_error
  start_error_lem answers =
      go (Option-cases answers.rsa) (Option-cases answers.ed25519) (Option-cases answers.listen)
        (Bool-cases (is_empty cfg.rsa_key_path)) (Bool-cases (is_empty cfg.ed25519_key_path))
    where
      go :
          (answers.rsa ≡ none) ⊎ ((e : Text) × (answers.rsa ≡ some e))
          → (answers.ed25519 ≡ none) ⊎ ((e : Text) × (answers.ed25519 ≡ some e))
          → (answers.listen ≡ none) ⊎ ((e : Text) × (answers.listen ≡ some e))
          → (is_empty cfg.rsa_key_path ≡ true) ⊎ (is_empty cfg.rsa_key_path ≡ false)
          → (is_empty cfg.ed25519_key_path ≡ true) ⊎ (is_empty cfg.ed25519_key_path ≡ false)
          → start_error answers
            ≡ elim (key_error cfg answers).0 [ some e ↦ some e | none ↦ bind_error answers.listen ]
      go (inl rsa) (inl ed) (inl l) a b = ground (arith, rsa, ed, l, a, b)
      go (inl rsa) (inl ed) (inr (x, l)) a b = ground (arith, rsa, ed, l, a, b)
      go (inl rsa) (inr (y, ed)) (inl l) a b = ground (arith, rsa, ed, l, a, b)
      go (inl rsa) (inr (y, ed)) (inr (x, l)) a b = ground (arith, rsa, ed, l, a, b)
      go (inr (z, rsa)) (inl ed) (inl l) a b = ground (arith, rsa, ed, l, a, b)
      go (inr (z, rsa)) (inl ed) (inr (x, l)) a b = ground (arith, rsa, ed, l, a, b)
      go (inr (z, rsa)) (inr (y, ed)) (inl l) a b = ground (arith, rsa, ed, l, a, b)
      go (inr (z, rsa)) (inr (y, ed)) (inr (x, l)) a b = ground (arith, rsa, ed, l, a, b)

  -- With a key in the configuration, a start does not fail for want of one.
  pub start_error-HasKey :
      (answers : Answers)
      → (is_empty cfg.rsa_key_path && is_empty cfg.ed25519_key_path) ≡ false
      → start_error answers ≢ some Error.no_host_key
  unfolding key_error
  start_error-HasKey answers keyed failed0 =
      go (Option-cases answers.ed25519) (Option-cases answers.listen)
    where
      failed :
          (elim (key_error cfg answers).0 [ some e ↦ some e | none ↦ bind_error answers.listen ])
          ≡ some Error.no_host_key
      failed = sym (start_error_lem answers) ∙ failed0

      go :
          (answers.ed25519 ≡ none) ⊎ ((e : Text) × (answers.ed25519 ≡ some e))
          → (answers.listen ≡ none) ⊎ ((e : Text) × (answers.listen ≡ some e))
          → ⊥
      go (inl ed25519) (inl bound) = ground arith
      go (inl ed25519) (inr (e, bad)) = ground arith
      go (inr (x, ed25519)) bound = ground arith

  start-Meets :
      (answers : Answers) (s : Server)
      → IsConsistent s
      → (s.running ≡ true) ⊎ (s.running ≡ false)
      → ((key_error cfg answers).0 ≡ none) ⊎ ((e : Error) × ((key_error cfg answers).0 ≡ some e))
      → (answers.listen ≡ none) ⊎ ((e : Text) × (answers.listen ≡ some e))
      → Meets is_running IsConsistent
          (spec_step start_error (Call.start_call answers) (is_running s))
          (start answers s)
  unfolding start is_running listen
  start-Meets answers s h (inl up) keys bound = ground arith
  start-Meets answers s h (inr down) (inr (e, bad)) bound = ground (arith, start_error_lem answers)
  start-Meets answers s h (inr down) (inl good) (inl ready) =
      ground (arith, start_error_lem answers)
  start-Meets answers s h (inr down) (inl good) (inr (e, bad)) =
      ground (arith, start_error_lem answers)

  pub perform-Meets :
      (c : Call Answers) (s : Server)
      → IsConsistent s
      → Meets is_running IsConsistent (spec_step start_error c (is_running s)) (perform c s)
  unfolding perform is_running
  perform-Meets (Call.start_call answers) s h =
      start-Meets answers s h (Bool-cases s.running) (Option-cases (key_error cfg answers).0)
        (Option-cases answers.listen)
  perform-Meets (Call.stop_call none) s h = ground arith
  perform-Meets (Call.stop_call (some e)) s h = ground arith

  abbrev pub ssh_service : Service Server Answers
  ssh_service = record {
    fails = start_error;
    perform = perform;
    running = is_running;
    IsConsistent = IsConsistent;
    meets = perform-Meets;
  }

-- From a state in which the listener is set exactly if the server runs, no sequence of starts and
-- stops calls a nil listener. Every error and the final state are those of the one-bit machine, in
-- which a start fails with the first error of loading the RSA key and the Ed25519 key, where their
-- paths are set, of having neither path, and of listening; the listener is again set exactly if the server runs.
pub ssh_calls_refine :
    (calls : List (Call Answers)) (s : Server)
    → s.listener ≡ s.running
    → (t : Server) × (run_calls (ssh_service s.addr s.cfg) calls s
        ≡ some (t, (spec_run (start_error s.addr s.cfg) calls (is_running s)).1))
      × (is_running t ≡ (spec_run (start_error s.addr s.cfg) calls (is_running s)).0)
      × IsConsistent s.addr s.cfg t
ssh_calls_refine calls s h =
    run_calls_refines (ssh_service s.addr s.cfg) calls s (is_running s) (h, refl, refl) refl
