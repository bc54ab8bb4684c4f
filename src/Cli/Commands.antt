-- ===== src/Cli/Commands.antt =====
-- main.go, cli_client.go: the commands that both command lines share, and what each does to the state.
pub mod Locally
pub mod Remotely
pub mod Agree
use ztna_lab_appliance.Common.{
  Bool, true, false, ◌&&◌, List, [], ◌∷◌, Option, none, some, Text, text, LogCall, ◌≡◌,
  if◌then◌else◌, not, pos,
}
use ztna_lab_appliance.Latency.{valid_url, or_default}
use ztna_lab_appliance.Cli.Local.{number_or}
use ztna_lab_appliance.Service.{Outcome}
use ztna_lab_appliance.Dns.Records.{add_a, add_cname, remove}
use ztna_lab_appliance.Dns.Server.Lifecycle as Dns
use ztna_lab_appliance.Httpd.Lifecycle as Http
use ztna_lab_appliance.Sshd.Lifecycle as Ssh
use ztna_lab_appliance.Logger.Write.{set_enabled}
use ztna_lab_appliance.Admin.{Plane, Outside, put_dns, put_http, put_ssh}
use ztna_lab_appliance.Cli.{Done}
use ztna_lab_appliance.Cli.Call.{all_plain, is_plain_segment}

-- The commands of the two help texts, but exit; optional fields are separate commands.
pub data Command : Type 0 where
  status clear help : Command
  dns_start dns_stop dns_list : Command
  dns_add dns_cname : Text → Text → Command
  dns_remove : Text → Command
  http_start http_stop : Command
  ssh_start ssh_stop ssh_who : Command
  log_tail log_modules : Command
  log_tail_of : Text → Command
  log_module : Text → Bool → Command
  latency_run : Text → List Text → Command

-- The fields of a command.
unfoldable pub words : Command → List Text
words Command.status = text "status" ∷ []
words Command.clear = text "clear" ∷ []
words Command.help = text "help" ∷ []
words Command.dns_start = text "dns" ∷ text "start" ∷ []
words Command.dns_stop = text "dns" ∷ text "stop" ∷ []
words Command.dns_list = text "dns" ∷ text "list" ∷ []
words (Command.dns_add name ip) = text "dns" ∷ text "add" ∷ name ∷ ip ∷ []
words (Command.dns_cname alias target) =
    text "dns" ∷ text "cname" ∷ text "add" ∷ alias ∷ target ∷ []
words (Command.dns_remove name) = text "dns" ∷ text "remove" ∷ name ∷ []
words Command.http_start = text "http" ∷ text "start" ∷ []
words Command.http_stop = text "http" ∷ text "stop" ∷ []
words Command.ssh_start = text "ssh" ∷ text "start" ∷ []
words Command.ssh_stop = text "ssh" ∷ text "stop" ∷ []
words Command.ssh_who = text "ssh" ∷ text "who" ∷ []
words Command.log_tail = text "log" ∷ text "tail" ∷ []
words Command.log_modules = text "log" ∷ text "modules" ∷ []
words (Command.log_tail_of n) = text "log" ∷ text "tail" ∷ n ∷ []
words (Command.log_module name on) =
    text "log" ∷ text "module" ∷ name ∷ (if on then text "on" else text "off") ∷ []
words (Command.latency_run url args) = text "latency" ∷ text "run" ∷ url ∷ args

abbrev pub state : Done → Option Plane
state none = none
state (some (out, p)) = some p

abbrev pub after_call : {S : Type 0} → (S → List LogCall → Plane) → Outcome S → Option Plane
after_call put Outcome.panics = none
after_call put (Outcome.returns e s lines) = some (put s lines)

-- What a command is to do to the state: `none` is a panic.
unfoldable pub effect : Outside → Command → Plane → Option Plane
effect o (Command.dns_add name ip) p =
    some (record p { records = (add_a o.records_os name ip p.records).1 })
effect o (Command.dns_cname alias target) p =
    some (record p { records = (add_cname o.records_os alias target p.records).1 })
effect o (Command.dns_remove name) p =
    some (record p { records = (remove o.records_os name p.records).1 })
effect o (Command.log_module name on) p =
    some (record p { logger = set_enabled o.logger_os name on p.logger })
effect o Command.dns_start p = after_call (put_dns p) (Dns.start o.dns_listen p.dns)
effect o Command.dns_stop p = after_call (put_dns p) (Dns.stop o.dns_shutdown p.dns)
effect o Command.http_start p = after_call (put_http p) (Http.start_and_serve o.http_listen p.http)
effect o Command.http_stop p = after_call (put_http p) (Http.stop o.http_shutdown p.http)
effect o Command.ssh_start p = after_call (put_ssh p) (Ssh.start o.ssh_answers p.ssh)
effect o Command.ssh_stop p = after_call (put_ssh p) (Ssh.stop o.ssh_close p.ssh)
effect o Command.status p = some p
effect o Command.clear p = some p
effect o Command.help p = some p
effect o Command.dns_list p = some p
effect o Command.ssh_who p = some p
effect o Command.log_tail p = some p
effect o Command.log_modules p = some p
effect o (Command.log_tail_of n) p = some p
effect o (Command.latency_run url args) p =
    if valid_url url && not (o.allocates (or_default (number_or (pos 50) args) 50))
    then none
    else some p

-- The state after a panic that net/http recovers.
abbrev pub recovered : Plane → Option Plane → Option Plane
recovered p none = some p
recovered p (some q) = some q

-- The fields that become part of a URL are carried by it as they are.
abbrev pub IsPlain : Command → Type 0
IsPlain (Command.dns_remove name) = is_plain_segment name ≡ true
IsPlain (Command.log_tail_of n) = all_plain n ≡ true
IsPlain _ = Unit
