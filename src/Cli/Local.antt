-- ===== src/Cli/Local.antt =====
-- main.go: `dispatchLocal`, which calls the packages directly.
pub mod Sound
use ztna_lab_appliance.Common.{
  ℕ, Bool, true, false, not, ◌&&◌, ◌||◌, List, [], ◌∷◌, ◌++◌, Option, none, some, Text, text,
  text_eq, parse_int64, ℤ, pos, negsuc, LogCall, if◌then◌else◌,
}
use ztna_lab_appliance.Service.{Outcome}
use ztna_lab_appliance.Dns.Records as DnsRecords
use ztna_lab_appliance.Dns.Records.{World, add_a, add_cname, remove, list_records}
use ztna_lab_appliance.Dns.Server.Lifecycle as Dns
use ztna_lab_appliance.Httpd.Lifecycle as Http
use ztna_lab_appliance.Sshd.Lifecycle as Ssh
use ztna_lab_appliance.Sshd.Sessions.{sessions}
use ztna_lab_appliance.Logger.Write.{set_enabled}
use ztna_lab_appliance.Logger.Switches.{modules}
use ztna_lab_appliance.Logger.Tail.{TailResult, tail}
use ztna_lab_appliance.Latency as Latency
use ztna_lab_appliance.Latency.{run_latency}
use ztna_lab_appliance.Admin.{Plane, Outside, Error, put_dns, put_http, put_ssh}
use ztna_lab_appliance.Cli.{Out, Done, fields}

-- `report` of a start or a stop.
unfoldable pub report_call : {S : Type 0} → (S → List LogCall → Plane) → Outcome S → Done
report_call put Outcome.panics = none
report_call put (Outcome.returns none s lines) = some (Out.reported none, put s lines)
report_call put (Outcome.returns (some e) s lines) =
    some (Out.reported (some (Error.of_service e)), put s lines)

-- `report` of a change of the records.
unfoldable pub report_records : Plane → Option DnsRecords.Error × World → Done
report_records p (none, w) = some (Out.reported none, record p { records = w })
report_records p (some e, w) =
    some (Out.reported (some (Error.of_records e)), record p { records = w })

abbrev pub dns_usage : Text
dns_usage = text "usage: dns [start|stop|list|add|remove|cname]"

local_add : Outside → List Text → Plane → Done
local_add o (name ∷ ip ∷ []) p = report_records p (add_a o.records_os name ip p.records)
local_add o _ p = some (Out.usage (text "usage: dns add <name> <ip>"), p)

local_remove : Outside → List Text → Plane → Done
local_remove o (name ∷ []) p = report_records p (remove o.records_os name p.records)
local_remove o _ p = some (Out.usage (text "usage: dns remove <name>"), p)

abbrev pub cname_usage : Out
cname_usage = Out.usage (text "usage: dns cname add <alias> <target>")

local_cname : Outside → List Text → Plane → Done
local_cname o (word ∷ alias ∷ target ∷ []) p =
    if text_eq word (text "add")
    then report_records p (add_cname o.records_os alias target p.records)
    else some (cname_usage, p)
local_cname o _ p = some (cname_usage, p)

-- The case `dns`, of the fields after it.
unfoldable pub local_dns : Outside → List Text → Plane → Done
unfolding report_call report_records local_add local_remove local_cname
local_dns o [] p = some (Out.usage dns_usage, p)
local_dns o (sub ∷ args) p =
    if text_eq sub (text "start")
    then report_call (put_dns p) (Dns.start o.dns_listen p.dns)
    else if text_eq sub (text "stop")
    then report_call (put_dns p) (Dns.stop o.dns_shutdown p.dns)
    else if text_eq sub (text "list")
    then some (Out.record_table (list_records p.records.store), p)
    else if text_eq sub (text "add")
    then local_add o args p
    else if text_eq sub (text "remove")
    then local_remove o args p
    else if text_eq sub (text "cname")
    then local_cname o args p
    else some (Out.message (text "unknown dns subcommand"), p)

abbrev pub http_usage : Out
http_usage = Out.usage (text "usage: http [start|stop]")

-- The case `http`.
unfoldable pub local_http : Outside → List Text → Plane → Done
unfolding report_call
local_http o (sub ∷ []) p =
    if text_eq sub (text "start")
    then report_call (put_http p) (Http.start_and_serve o.http_listen p.http)
    else if text_eq sub (text "stop")
    then report_call (put_http p) (Http.stop o.http_shutdown p.http)
    else some (http_usage, p)
local_http o _ p = some (http_usage, p)

abbrev pub ssh_usage : Out
ssh_usage = Out.usage (text "usage: ssh [start|stop|who]")

-- The case `ssh`.
unfoldable pub local_ssh : Outside → List Text → Plane → Done
unfolding report_call
local_ssh o [] p = some (ssh_usage, p)
local_ssh o (sub ∷ args) p =
    if text_eq sub (text "start")
    then report_call (put_ssh p) (Ssh.start o.ssh_answers p.ssh)
    else if text_eq sub (text "stop")
    then report_call (put_ssh p) (Ssh.stop o.ssh_close p.ssh)
    else if text_eq sub (text "who")
    then some (Out.session_lines (sessions p.registry), p)
    else some (Out.nothing, p)

-- `strconv.Atoi` of the first of some fields, if there is one and it is a number.
abbrev pub number_or : ℤ → List Text → ℤ
number_or default [] = default
number_or default (v ∷ args) = elim (parse_int64 v) [ some n ↦ n | none ↦ default ]

abbrev pub log_usage : Text
log_usage = text "usage: log tail [N] | log modules | log module <NAME> on|off"

local_module : Outside → List Text → Plane → Done
local_module o (name ∷ state ∷ []) p =
    let on = text_eq state (text "on") in
    let logger = set_enabled o.logger_os name on p.logger in
    if not on && not (text_eq state (text "off"))
    then some (Out.usage (text "usage: log module <NAME> on|off"), p)
    else some (Out.module_table (modules logger.enabled), record p { logger = logger })
local_module o _ p = some (Out.usage (text "usage: log module <NAME> on|off"), p)

abbrev pub tail_out : TailResult → Out
tail_out (TailResult.lines lines) = Out.log_lines lines
tail_out TailResult.unavailable = Out.failed Error.log_unavailable
tail_out TailResult.failed = Out.failed Error.log_failed

-- The case `log`.
unfoldable pub local_log : Outside → List Text → Plane → Done
unfolding local_module
local_log o [] p = some (Out.usage log_usage, p)
local_log o (sub ∷ args) p =
    if text_eq sub (text "modules")
    then some (Out.module_table (modules p.logger.enabled), p)
    else if text_eq sub (text "module")
    then local_module o args p
    else if not (text_eq sub (text "tail"))
    then some (Out.usage log_usage, p)
    else some (
      tail_out
          (tail o.reads (number_or (pos 50) args) p.logger.cur_path p.logger.files p.logger.files),
      p,
    )

abbrev pub latency_usage : Out
latency_usage = Out.usage (text "usage: latency run <url> [count] [interval_ms]")

abbrev tail_of : List Text → List Text
tail_of [] = []
tail_of (x ∷ xs) = xs

abbrev pub latency_out : Plane → Latency.Outcome → Done
latency_out p (Latency.Outcome.result r) = some (Out.latency_table r, p)
latency_out p Latency.Outcome.bad_url = some (Out.failed Error.bad_url, p)
latency_out p Latency.Outcome.panics = none

-- The case `latency`.
unfoldable pub local_latency : Outside → List Text → Plane → Done
local_latency o (word ∷ url ∷ args) p =
    if not (text_eq word (text "run"))
    then some (latency_usage, p)
    else latency_out p (
        run_latency o.allocates o.std_dev url (number_or (pos 50) args)
          (number_or (pos 200) (tail_of args)) o.attempts)
local_latency o _ p = some (latency_usage, p)

unfoldable pub local_command : Outside → List Text → Plane → Done
local_command o [] p = some (Out.nothing, p)
local_command o (word ∷ args) p =
    if text_eq word (text "status")
    then some
        (Out.up_down (Dns.is_running p.dns) (Http.is_running p.http) (Ssh.is_running p.ssh), p)
    else if text_eq word (text "dns")
    then local_dns o args p
    else if text_eq word (text "http")
    then local_http o args p
    else if text_eq word (text "ssh")
    then local_ssh o args p
    else if text_eq word (text "log")
    then local_log o args p
    else if text_eq word (text "latency")
    then local_latency o args p
    else if text_eq word (text "clear")
    then some (Out.clear_screen, p)
    else if text_eq word (text "help")
    then some (Out.help, p)
    else some (Out.message (text "unknown command: " ++ word ++ text " (type 'help')"), p)

-- `dispatchLocal`
unfoldable pub dispatch_local : Outside → Text → Plane → Done
unfolding local_command
dispatch_local o line p = local_command o (fields line) p
