-- ===== src/Admin/Handlers.antt =====
-- admin/server.go: the handlers of the records, the SSH sessions, the log and the latency runner,
-- and the routes.
use ztna_lab_appliance.Common.{
  ℕ, zero, suc, Bool, true, false, not, ◌&&◌, [], ◌∷◌, ◌++◌, Option, none, some, Text, text,
  text_eq, is_empty, to_upper, trim_prefix, trim_space, has_prefix, parse_int64, ℤ, pos, negsuc,
  Map, lookup, ltb, leb, ◌||◌, if◌then◌else◌,
}
use ztna_lab_appliance.Dns.Records.{World, add_a, add_cname, remove, list_records}
use ztna_lab_appliance.Dns.Records as DnsRecords
use ztna_lab_appliance.Sshd.Lifecycle as Ssh
use ztna_lab_appliance.Sshd.Sessions.{sessions}
use ztna_lab_appliance.Logger.State.{stat}
use ztna_lab_appliance.Logger.Write.{set_enabled}
use ztna_lab_appliance.Logger.Switches.{modules}
use ztna_lab_appliance.Logger.Tail.{TailResult, tail}
use ztna_lab_appliance.Latency as Latency
use ztna_lab_appliance.Latency.{run_latency, to_api}
use ztna_lab_appliance.Admin.{
  Plane, RecordBody, ModuleBody, Request, Outside, Error, Body, Response, write_json, error,
  status_ok, method_not_allowed, authorized, handle_index, handle_health, handle_status,
  handle_dns_start, handle_dns_stop, handle_http_start, handle_http_stop, handle_ssh_start,
  handle_ssh_stop,
}

-- A mutation of the records and its error, as a reply.
abbrev pub records_reply : ℕ → Response → Plane → Option DnsRecords.Error × World → Response × Plane
records_reply status good p (none, w) = (good, record p { records = w })
records_reply status good p (some e, w) =
    (error status (Error.of_records e), record p { records = w })

abbrev pub added : Response
added = write_json 201 (Body.status_body (text "added"))

-- `handleDNSRecords` for a POST with a body that was decoded.
unfoldable pub post_record : DnsRecords.Os → RecordBody → Plane → Response × Plane
post_record os body p =
    if text_eq (to_upper body.kind) (text "A")
    then records_reply 400 added p (add_a os body.name body.value p.records)
    else if text_eq (to_upper body.kind) (text "CNAME")
    then records_reply 400 added p (add_cname os body.name body.value p.records)
    else (error 400 Error.bad_type, p)

-- `handleDNSRecords`
unfoldable pub handle_dns_records : Outside → Request → Plane → Response × Plane
unfolding post_record
handle_dns_records o r p =
    if text_eq r.verb (text "GET")
    then (write_json 200 (Body.records_body (list_records p.records.store)), p)
    else if text_eq r.verb (text "POST")
    then elim r.decoded.as_record [
      | none ↦ (error 400 Error.invalid_json, p)
      | some body ↦ post_record o.records_os body p
    ]
    else (method_not_allowed (text "GET, POST"), p)

-- `handleDNSRecordDelete`
unfoldable pub handle_dns_record_delete : Outside → Request → Plane → Response × Plane
handle_dns_record_delete o r p =
    let name = trim_prefix r.path (text "/api/dns/records/") in
    if not (text_eq r.verb (text "DELETE"))
    then (method_not_allowed (text "DELETE"), p)
    else if is_empty name
    then (error 400 Error.name_required, p)
    else records_reply 404 (status_ok (text "removed")) p (remove o.records_os name p.records)

-- `handleSSHSessions`
unfoldable pub handle_ssh_sessions : Plane → Response
handle_ssh_sessions p = write_json 200 (Body.sessions_body (sessions p.registry))

-- `handleSSHDebug`
unfoldable pub handle_ssh_debug : Request → Plane → Response × Plane
handle_ssh_debug r p =
    if not (text_eq r.verb (text "POST"))
    then (method_not_allowed (text "POST"), p)
    else elim r.decoded.as_debug [
      | none ↦ (error 400 Error.invalid_json, p)
      | some on ↦ (
        write_json 200 (Body.debug_body on),
        record p {
          ssh = (Ssh.set_debug on p.ssh).0;
          lines = p.lines ++ (Ssh.set_debug on p.ssh).1;
        },
      )
    ]

-- The number of lines for a parameter that is blank or not, and what `strconv.Atoi` makes of it.
unfoldable pub count_of : Bool → Option ℤ → ℕ
count_of blank none = 50
count_of blank (some (negsuc k)) = 50
count_of blank (some (pos k)) = if not blank && ltb 0 k && leb k 1000 then k else 50

-- The number of lines of `handleLogTail`, by the parameter `n` of the query.
unfoldable pub tail_count : Text → ℕ
unfolding count_of
tail_count v = count_of (is_empty v) (parse_int64 v)

-- `handleLogTail`
unfoldable pub handle_log_tail : Outside → Request → Plane → Response
unfolding tail_count stat
handle_log_tail o r p =
    elim (tail o.reads (pos (tail_count r.query_n)) p.logger.cur_path p.logger.files
      p.logger.files) [
        | TailResult.lines lines ↦
            write_json 200 (Body.tail_body lines (stat p.logger) (modules p.logger.enabled))
        | TailResult.unavailable ↦ error 500 Error.log_unavailable
        | TailResult.failed ↦ error 500 Error.log_failed
      ]

-- `handleLogModules` for a POST with a body that was decoded.
unfoldable pub post_module : Outside → ModuleBody → Plane → Response × Plane
post_module o body p =
    if is_empty (trim_space body.module_name)
    then (error 400 Error.module_required, p)
    else elim body.enabled [
      | none ↦ (error 400 Error.enabled_required, p)
      | some on ↦
          let logger = set_enabled o.logger_os body.module_name on p.logger in
          (
            write_json 200 (Body.modules_body (modules logger.enabled)),
            record p { logger = logger },
          )
    ]

-- `handleLogModules`
unfoldable pub handle_log_modules : Outside → Request → Plane → Response × Plane
unfolding post_module
handle_log_modules o r p =
    if text_eq r.verb (text "GET")
    then (write_json 200 (Body.modules_body (modules p.logger.enabled)), p)
    else if text_eq r.verb (text "POST")
    then elim r.decoded.as_module [
      | none ↦ (error 400 Error.invalid_json, p)
      | some body ↦ post_module o body p
    ]
    else (method_not_allowed (text "GET, POST"), p)

abbrev pub if_zero : ℤ → ℕ → ℤ
if_zero (pos zero) default = pos default
if_zero (pos (suc n)) default = pos (suc n)
if_zero (negsuc n) default = negsuc n

abbrev pub latency_reply : Latency.Outcome → Option Response
latency_reply (Latency.Outcome.result r) = some (write_json 200 (Body.latency_body (to_api r)))
latency_reply Latency.Outcome.bad_url = some (error 400 Error.bad_url)
latency_reply Latency.Outcome.panics = none

-- `handleLatency`; `none` is a panic.
unfoldable pub handle_latency : Outside → Request → Option Response
handle_latency o r = elim r.decoded.as_latency [
  | none ↦ some (error 400 Error.invalid_json)
  | some body ↦ latency_reply (
      run_latency o.allocates o.std_dev body.url (if_zero body.count 50)
        (if_zero body.interval_ms 200) o.attempts)
]

pub data Route : Type 0 where
  index health status : Route
  dns_start dns_stop records one_record http_start http_stop : Route
  ssh_start ssh_stop ssh_sessions ssh_debug log_tail log_modules latency : Route

-- The exact patterns of the mux.
routes : Map Route
routes =
    (text "/api/status", Route.status)
    ∷ (text "/api/dns/start", Route.dns_start)
    ∷ (text "/api/dns/stop", Route.dns_stop)
    ∷ (text "/api/dns/records", Route.records)
    ∷ (text "/api/http/start", Route.http_start)
    ∷ (text "/api/http/stop", Route.http_stop)
    ∷ (text "/api/ssh/start", Route.ssh_start)
    ∷ (text "/api/ssh/stop", Route.ssh_stop)
    ∷ (text "/api/ssh/sessions", Route.ssh_sessions)
    ∷ (text "/api/ssh/debug", Route.ssh_debug)
    ∷ (text "/api/log/tail", Route.log_tail)
    ∷ (text "/api/log/modules", Route.log_modules)
    ∷ (text "/api/latency", Route.latency)
    ∷ (text "/api/health", Route.health)
    ∷ []

-- The pattern that the mux picks: an exact one, else the longest prefix.
unfoldable pub route_of : Text → Route
unfolding routes
route_of path = elim (lookup path routes) [
  | some route ↦ route
  | none ↦ if has_prefix path (text "/api/dns/records/") then Route.one_record else Route.index
]

-- The patterns registered without `auth`.
abbrev pub is_open : Route → Bool
is_open Route.index = true
is_open Route.health = true
is_open _ = false

-- The handler of a route; `none` is a panic.
unfoldable pub handler : Route → Outside → Request → Plane → Option (Response × Plane)
handler Route.index o r p = some (handle_index r, p)
handler Route.health o r p = some (handle_health, p)
handler Route.status o r p = some (handle_status p, p)
handler Route.dns_start o r p = handle_dns_start o p
handler Route.dns_stop o r p = handle_dns_stop o p
handler Route.records o r p = some (handle_dns_records o r p)
handler Route.one_record o r p = some (handle_dns_record_delete o r p)
handler Route.http_start o r p = handle_http_start o p
handler Route.http_stop o r p = handle_http_stop o p
handler Route.ssh_start o r p = handle_ssh_start o p
handler Route.ssh_stop o r p = handle_ssh_stop o p
handler Route.ssh_sessions o r p = some (handle_ssh_sessions p, p)
handler Route.ssh_debug o r p = some (handle_ssh_debug r p)
handler Route.log_tail o r p = some (handle_log_tail o r p, p)
handler Route.log_modules o r p = some (handle_log_modules o r p)
handler Route.latency o r p = elim (handle_latency o r) [
  | none ↦ none
  | some response ↦ some (response, p)
]

-- A request through the mux of `Start`: `auth` in front of every handler but two.
unfoldable pub serve : Text → Outside → Request → Plane → Option (Response × Plane)
unfolding authorized route_of handler
serve token o r p =
    let route = route_of r.path in
    if is_open route || authorized token r.authorization
    then handler route o r p
    else some (error 401 Error.unauthorized, p)
