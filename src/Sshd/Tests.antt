-- ===== src/Sshd/Tests.antt =====
-- sshd: the theorems at concrete calls, connections and keys.
use ztna_lab_appliance.Common.{
  ℕ, true, false, not, List, [], ◌∷◌, ◌++◌, Option, none, some, Text, Map, text, ◌≡◌, refl, arith,
  inl, if◌then◌else◌,
}
use ztna_lab_appliance.Service.{Call, run_calls, spec_run}
use ztna_lab_appliance.Sshd.HostKeys.{
  Disk, Write, load_or_generate_rsa_key, load_or_generate_ed25519_key, Reloads, host_key_persists,
}
use ztna_lab_appliance.Sshd.Lifecycle.{
  Server, Answers, IsConsistent, is_running, start_error, ssh_service, ssh_calls_refine,
}
use ztna_lab_appliance.Sshd.Sessions.{
  Session, Event, run_events, spec_events, empty_registry, IsDistinct, run_events-sessions,
}
use ztna_lab_appliance.Sshd.Shell.{Key, handle_shell, reply, prompt, is_exit, crlf}
use ztna_lab_appliance.Sshd.Shell.Line.{typing, typed, echoes, line_of, handle_shell_line}

abbrev stopped : Server
stopped = record {
  addr = text ":2222";
  cfg = record { rsa_key_path = text "/data/k"; ed25519_key_path = []; debug = false };
  listener = false;
  running = false;
  debug_flag = true;
}

abbrev good : Answers
good = record { rsa = none; ed25519 = none; listen = none }

abbrev calls : List (Call Answers)
calls =
    Call.start_call (record good { listen = some (text "in use") })
    ∷ Call.start_call good
    ∷ Call.stop_call (some (text "closed"))
    ∷ Call.stop_call none
    ∷ []

ssh_calls_refine_example :
    (t : Server) × (run_calls (ssh_service stopped.addr stopped.cfg) calls stopped
      ≡ some (t, (spec_run (start_error stopped.addr stopped.cfg) calls (is_running stopped)).1))
    × (is_running t
        ≡ (spec_run (start_error stopped.addr stopped.cfg) calls (is_running stopped)).0)
    × IsConsistent stopped.addr stopped.cfg t
ssh_calls_refine_example = ssh_calls_refine calls stopped refl

abbrev events : List Event
events =
    Event.opened (text "ana") (text "10.0.0.1") (text "t1")
    ∷ Event.opened (text "bob") (text "10.0.0.2") (text "t2")
    ∷ Event.closed 1
    ∷ Event.opened (text "eve") (text "10.0.0.3") (text "t3")
    ∷ []

run_events-sessions_example :
    ((run_events events empty_registry).sessions ≡ spec_events events 0 [])
    × IsDistinct (run_events events empty_registry).sessions
run_events-sessions_example = run_events-sessions events (omega arith)

abbrev ana : Session
ana = record { id = 1; user = text "ana"; ip = text "10.0.0.1"; connected_at = text "t1" }

abbrev key : ℕ → Key
key c = record { byte = c; sessions = ana ∷ [] }

-- "hx", a backspace, "i".
abbrev keys : List Key
keys = key b'h' ∷ key b'x' ∷ key 127 ∷ key b'i' ∷ []

handle_shell_line_example :
    let line = line_of (typed keys []) in
    handle_shell ana (keys ++ key 13 ∷ []) (typing [] []) ≡ record {
      buf = [];
      sent =
          []
          ++ echoes keys []
          ++ (crlf ++ reply ana (ana ∷ []) line)
          ++ (if is_exit line then [] else prompt ana);
      is_open = not (is_exit line);
    }
handle_shell_line_example =
    handle_shell_line ana keys (key 13) []
      (
        (omega arith, omega arith, omega arith, omega arith),
        (
          (omega arith, omega arith, omega arith, omega arith),
          (
            (omega arith, omega arith, omega arith, omega arith),
            ((omega arith, omega arith, omega arith, omega arith), tt),
          ),
        ),
      )
      (inl refl)

-- A parser that takes any text that is not empty for a key.
abbrev parse : Text → Option Text
parse [] = none
parse (c ∷ s) = some (c ∷ s)

abbrev disk : Disk
disk = record { readable = true; write = Write.written }

abbrev damaged : Map Text
damaged = (text "/data/k", []) ∷ []

host_key_persists_example :
    let rsa = load_or_generate_rsa_key parse disk (text "/data/k") (some (text "pem")) damaged in
    let ed25519 =
      load_or_generate_ed25519_key parse disk (text "/data/k") (some (text "pem")) damaged in
    ((signer : Text) × (rsa.0 ≡ some signer)
      × Reloads parse
          (λ later g fs. load_or_generate_rsa_key parse later (text "/data/k") g fs)
          rsa)
    × ((signer : Text) × (ed25519.0 ≡ some signer)
        × Reloads parse
            (λ later g fs. load_or_generate_ed25519_key parse later (text "/data/k") g fs)
            ed25519)
unfolding text
host_key_persists_example =
    host_key_persists parse disk (text "/data/k") (text "pem") (text "pem") damaged refl refl refl
