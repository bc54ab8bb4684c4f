-- ===== src/Cli/Commands/Locally.antt =====
-- main.go: what a command of the local REPL does.
use ztna_lab_appliance.Common.{
  true, false, List, Option, none, some, text, text_eq, LogCall, ◌≡◌, refl, inl, inr, ◌⊎◌, Bool,
  ◌&&◌, pos, Bool-cases,
}
use ztna_lab_appliance.Service.{Outcome}
use ztna_lab_appliance.Dns.Records as DnsRecords
use ztna_lab_appliance.Dns.Records.{World}
use ztna_lab_appliance.Dns.Server.Lifecycle as Dns
use ztna_lab_appliance.Latency as Latency
use ztna_lab_appliance.Latency.Results.{run_latency-Returns, run_latency_panics}
use ztna_lab_appliance.Admin.{Plane, Outside, put_dns}
use ztna_lab_appliance.Cli.Local.{
  report_call, report_records, local_command, local_dns, local_http, local_ssh, local_log,
  local_latency, latency_out, number_or,
}
use ztna_lab_appliance.Cli.Commands.{Command, words, state, after_call, effect}

state-report_call :
    {S : Type 0} (put : S → List LogCall → Plane) (o : Outcome S)
    → state (report_call put o) ≡ after_call put o
unfolding report_call
state-report_call put Outcome.panics = refl
state-report_call put (Outcome.returns none s lines) = refl
state-report_call put (Outcome.returns (some e) s lines) = refl

state-report_records :
    (p : Plane) (r : Option DnsRecords.Error × World)
    → state (report_records p r) ≡ some (record p { records = r.1 })
unfolding report_records
state-report_records p (none, w) = refl
state-report_records p (some e, w) = refl

state-latency_out :
    (p : Plane) {outcome : Latency.Outcome}
    → (outcome ≡ Latency.Outcome.bad_url)
      ⊎ ((result : Latency.LatencyResult) × (outcome ≡ Latency.Outcome.result result))
    → state (latency_out p outcome) ≡ some p
state-latency_out p (inl bad) = rw bad refl
state-latency_out p (inr (result, e)) = rw e refl

and_false : (b : Bool) → (b && false) ≡ false
and_false true = refl
and_false false = refl

-- The local command line.
pub local_command_lem :
    (o : Outside) (c : Command) (p : Plane) → state (local_command o (words c) p) ≡ effect o c p
unfolding local_command words effect local_dns local_http local_ssh local_log local_latency text
    text_eq
local_command_lem o Command.status p = refl
local_command_lem o Command.clear p = refl
local_command_lem o Command.help p = refl
local_command_lem o Command.dns_start p =
    state-report_call (put_dns p) (Dns.start o.dns_listen p.dns)
local_command_lem o Command.dns_stop p = state-report_call _ _
local_command_lem o Command.dns_list p = refl
local_command_lem o (Command.dns_add name ip) p = state-report_records p _
local_command_lem o (Command.dns_cname alias target) p = state-report_records p _
local_command_lem o (Command.dns_remove name) p = state-report_records p _
local_command_lem o Command.http_start p = state-report_call _ _
local_command_lem o Command.http_stop p = state-report_call _ _
local_command_lem o Command.ssh_start p = state-report_call _ _
local_command_lem o Command.ssh_stop p = state-report_call _ _
local_command_lem o Command.ssh_who p = refl
local_command_lem o Command.log_tail p = refl
local_command_lem o Command.log_modules p = refl
local_command_lem o (Command.log_tail_of n) p = refl
local_command_lem o (Command.log_module name true) p = refl
local_command_lem o (Command.log_module name false) p = refl
local_command_lem o (Command.latency_run url args) p =
    elim (Bool-cases (o.allocates (Latency.or_default (number_or (pos 50) args) 50))) [
      | inl fits ↦
          rw (fits, and_false (Latency.valid_url url))
            (state-latency_out p
              (run_latency-Returns o.allocates o.std_dev url _ _ o.attempts fits))
      | inr large ↦ elim (Bool-cases (Latency.valid_url url)) [
        | inl valid ↦
            rw (run_latency_panics o.allocates o.std_dev url _ _ o.attempts large, valid, large)
              refl
        | inr invalid ↦
            rw (run_latency_panics o.allocates o.std_dev url _ _ o.attempts large, invalid) refl
      ]
    ]
