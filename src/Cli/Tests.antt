-- ===== src/Cli/Tests.antt =====
-- The two command lines: the theorems at concrete lines.
use ztna_lab_appliance.Common.{
  true, List, [], ◌∷◌, some, Text, text, text_eq, trim_space, parse_int64, has_prefix, ◌≡◌, refl,
  lookup,
}
use ztna_lab_appliance.Dns.Server.Lifecycle as Dns
use ztna_lab_appliance.Dns.Records.{load_records}
use ztna_lab_appliance.Admin.{Plane, Outside}
use ztna_lab_appliance.Latency.{valid_url}
use ztna_lab_appliance.Startup.{env_default}
use ztna_lab_appliance.Shutdown.{IsStopped}
use ztna_lab_appliance.Fixtures.{outside, plane, empty_records, empty_records-IsValid, no_log}
use ztna_lab_appliance.Cli.{Out, fields}
use ztna_lab_appliance.Cli.Local.{dispatch_local}
use ztna_lab_appliance.Cli.Call.{Answer, Daemon, is_plain_segment}
use ztna_lab_appliance.Cli.Remote.{dispatch_remote}
use ztna_lab_appliance.Cli.Commands.{Command, words, state, effect, recovered}
use ztna_lab_appliance.Cli.Commands.Agree.{dispatch_agree}
use ztna_lab_appliance.Cli.Repl.{run_repl, run_repl_stops}

-- No variable is set.
abbrev no_vars : Text → Text
no_vars name = []

abbrev inputs : List (Outside × Text)
inputs =
    (outside, text " dns start ")
    ∷ (outside, text "latency run http://h 5")
    ∷ (outside, [])
    ∷ (outside, text "quit")
    ∷ []

run_repl_stops_example :
    (outs : List Out) × (q : Plane) × (run_repl no_vars outside.records_os empty_records no_log
        inputs outside
      ≡ some (outs, q))
    × IsStopped outside q
unfolding Dns.new_server load_records env_default text lookup fields trim_space text_eq parse_int64
    valid_url has_prefix
run_repl_stops_example =
    run_repl_stops no_vars outside.records_os empty_records no_log inputs outside
      (empty_records-IsValid (text "dns_records.json") true) (tt, (refl, (tt, (tt, tt))))

-- An open daemon that can be reached, and a URL that is not plain gets no answer.
abbrev daemon : Daemon
daemon = record {
  token = text "secret";
  reachable = true;
  outside = outside;
  elsewhere = λ r p. some (Answer.no_answer, p);
}

abbrev remove_line : Text
remove_line = text " dns  remove b"

dispatch_agree_example :
    (state (dispatch_local outside remove_line plane)
      ≡ effect outside (Command.dns_remove (text "b")) plane)
    × (state (dispatch_remote daemon (text "secret") remove_line plane)
        ≡ recovered plane (effect outside (Command.dns_remove (text "b")) plane))
unfolding fields words text is_plain_segment text_eq
dispatch_agree_example =
    dispatch_agree daemon remove_line (Command.dns_remove (text "b")) plane refl refl refl
