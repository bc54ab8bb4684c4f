-- ===== src/Admin.antt =====
-- admin/server.go: the routes of the management API, its authentication and its handlers. net/http
-- and encoding/json are outside: a request holds the clean path, the headers and what each handler
-- would decode from its body. The handlers that start and stop a server run under that server's
-- mutex and the records under theirs, so requests are a sequence. `ReadHeaderTimeout` is
-- left out.
pub mod Handlers
pub mod Auth
pub mod Sound
pub mod Requests
pub mod Api
mod Tests
use ztna_lab_appliance.Common.{
  ℕ, zero, suc, Bool, true, false, not, ◌&&◌, ◌||◌, List, [], ◌∷◌, ◌++◌, Option, none, some, Text,
  text, text_eq, is_empty, to_upper, trim_prefix, trim_space, strip_prefix?, has_prefix,
  parse_int64, ℤ, pos, negsuc, Map, lookup, ltb, leb, LogCall, if◌then◌else◌,
}
use ztna_lab_appliance.Service
use ztna_lab_appliance.Service.{Outcome}
use ztna_lab_appliance.Dns.Records.{World, add_a, add_cname, remove, list_records}
use ztna_lab_appliance.Dns.Records as DnsRecords
use ztna_lab_appliance.Dns.Server.Lifecycle as Dns
use ztna_lab_appliance.Httpd.Lifecycle as Http
use ztna_lab_appliance.Sshd.Lifecycle as Ssh
use ztna_lab_appliance.Sshd.Sessions.{Session, Registry, sessions}
use ztna_lab_appliance.Logger.State as LoggerState
use ztna_lab_appliance.Logger.Write.{set_enabled}
use ztna_lab_appliance.Logger.Switches.{ModuleState, modules}
use ztna_lab_appliance.Logger.Tail.{TailResult, tail}
use ztna_lab_appliance.Latency as Latency
use ztna_lab_appliance.Latency.{LatencyResult, Attempt, run_latency, to_api}

-- What the handlers of the API work on: the three servers, the sessions, the records, the logger,
-- and the lines that the three servers have passed to `logger.Log`. Lines are kept apart: they are not
-- written to the files of the logger here.
pub record Plane : Type 0 where
  pub dns : Dns.Server
  pub http : Http.Server
  pub ssh : Ssh.Server
  pub registry : Registry
  pub records : World
  pub logger : LoggerState.Logger
  pub lines : List LogCall

-- The fields of a posted record.
pub record RecordBody : Type 0 where
  pub kind : Text
  pub name : Text
  pub value : Text

-- A posted module: `enabled` may be missing.
pub record ModuleBody : Type 0 where
  pub module_name : Text
  pub enabled : Option Bool

pub record LatencyBody : Type 0 where
  pub url : Text
  pub count : ℤ
  pub interval_ms : ℤ

-- What `Decode` gives each handler that decodes the body; `none` is an error.
pub record Decoded : Type 0 where
  pub as_record : Option RecordBody
  pub as_debug : Option Bool
  pub as_module : Option ModuleBody
  pub as_latency : Option LatencyBody

pub record Request : Type 0 where
  pub verb : Text
  pub path : Text
  pub authorization : Text
  pub query_n : Text
  pub decoded : Decoded

-- The answers of the outside during one request.
pub record Outside : Type 0 where
  pub records_os : DnsRecords.Os
  pub logger_os : LoggerState.Os
  pub dns_listen : Option Text
  pub dns_shutdown : Option Text
  pub http_listen : Option Text
  pub http_shutdown : Option Text
  pub ssh_answers : Ssh.Answers
  pub ssh_close : Option Text
  pub reads : Text → Bool
  pub attempts : ℕ → Attempt
  -- Whether `make` accepts a capacity of so many samples.
  pub allocates : ℕ → Bool
  pub std_dev : List ℕ → ℕ → ℕ

pub data Error : Type 0 where
  unauthorized invalid_json bad_type name_required module_required enabled_required : Error
  log_unavailable log_failed bad_url : Error
  of_service : Service.Error → Error
  of_records : DnsRecords.Error → Error

pub data Body : Type 0 where
  no_body page not_found_page : Body
  error_body : Error → Body
  status_body : Text → Body
  running_body : Bool → Bool → Bool → Bool → Body
  records_body : Map Text × Map Text → Body
  sessions_body : List Session → Body
  debug_body : Bool → Body
  tail_body : List Text → LoggerState.Stats → List ModuleState → Body
  modules_body : List ModuleState → Body
  latency_body : LatencyResult → Body

-- What a handler sends; `allow` is the header, "" where it is not set.
pub record Response : Type 0 where
  pub status : ℕ
  pub allow : Text
  pub body : Body

-- `writeJSON`
unfoldable pub write_json : ℕ → Body → Response
write_json status body = record { status = status; allow = []; body = body }

abbrev pub error : ℕ → Error → Response
error status e = write_json status (Body.error_body e)

abbrev pub status_ok : Text → Response
status_ok word = write_json 200 (Body.status_body word)

abbrev pub method_not_allowed : Text → Response
method_not_allowed allow = record { status = 405; allow = allow; body = Body.no_body }

-- The condition of `auth`.
unfoldable pub authorized : Text → Text → Bool
authorized token h =
    is_empty token
    || (has_prefix h (text "Bearer ") && text_eq (trim_prefix h (text "Bearer ")) token)

-- `authMode`
unfoldable pub auth_mode : Text → Text
auth_mode token = if is_empty token then text "open" else text "bearer"

-- `handleIndex`
unfoldable pub handle_index : Request → Response
handle_index r =
    if text_eq r.path (text "/")
    then record { status = 200; allow = []; body = Body.page }
    else record { status = 404; allow = []; body = Body.not_found_page }

-- `handleHealth`
abbrev pub handle_health : Response
handle_health = status_ok (text "ok")

-- `handleStatus`; the three servers are always there.
unfoldable pub handle_status : Plane → Response
handle_status p = write_json 200 (
    Body.running_body (Dns.is_running p.dns) (Http.is_running p.http) (Ssh.is_running p.ssh)
      (Ssh.is_debug p.ssh))

-- What the six handlers that start or stop a server do with the outcome; `none` is a panic.
unfoldable pub reply_to :
    {S : Type 0} → Text → (S → List LogCall → Plane) → Outcome S → Option (Response × Plane)
reply_to word put Outcome.panics = none
reply_to word put (Outcome.returns none s lines) = some (status_ok word, put s lines)
reply_to word put (Outcome.returns (some e) s lines) =
    some (error 500 (Error.of_service e), put s lines)

abbrev pub put_dns : Plane → Dns.Server → List LogCall → Plane
put_dns p s lines = record p { dns = s; lines = p.lines ++ lines }

abbrev pub put_http : Plane → Http.Server → List LogCall → Plane
put_http p s lines = record p { http = s; lines = p.lines ++ lines }

abbrev pub put_ssh : Plane → Ssh.Server → List LogCall → Plane
put_ssh p s lines = record p { ssh = s; lines = p.lines ++ lines }

-- `handleDNSStart`
unfoldable pub handle_dns_start : Outside → Plane → Option (Response × Plane)
handle_dns_start o p = reply_to (text "started") (put_dns p) (Dns.start o.dns_listen p.dns)

-- `handleDNSStop`
unfoldable pub handle_dns_stop : Outside → Plane → Option (Response × Plane)
handle_dns_stop o p = reply_to (text "stopped") (put_dns p) (Dns.stop o.dns_shutdown p.dns)

-- `handleHTTPStart`
unfoldable pub handle_http_start : Outside → Plane → Option (Response × Plane)
handle_http_start o p =
    reply_to (text "started") (put_http p) (Http.start_and_serve o.http_listen p.http)

-- `handleHTTPStop`
unfoldable pub handle_http_stop : Outside → Plane → Option (Response × Plane)
handle_http_stop o p = reply_to (text "stopped") (put_http p) (Http.stop o.http_shutdown p.http)

-- `handleSSHStart`
unfoldable pub handle_ssh_start : Outside → Plane → Option (Response × Plane)
handle_ssh_start o p = reply_to (text "started") (put_ssh p) (Ssh.start o.ssh_answers p.ssh)

-- `handleSSHStop`
unfoldable pub handle_ssh_stop : Outside → Plane → Option (Response × Plane)
handle_ssh_stop o p = reply_to (text "stopped") (put_ssh p) (Ssh.stop o.ssh_close p.ssh)
