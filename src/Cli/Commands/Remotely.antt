-- ===== src/Cli/Commands/Remotely.antt =====
-- cli_client.go, admin/server.go: what a command of the remote client does through the API.
use ztna_lab_appliance.Common.{
  Bool, true, false, List, [], ◌∷◌, ◌++◌, Option, none, some, Text, text, text_eq, trim_prefix,
  trim_space, is_empty, LogCall, ◌≡◌, ◌∙◌, refl, arith, ap, Bool-cases, inl, inr, lookup, pos, sym,
  not, ◌&&◌, if◌then◌else◌, has_prefix, to_upper, upper_byte,
}
use ztna_lab_appliance.Service.{Outcome}
use ztna_lab_appliance.Dns.Records as DnsRecords
use ztna_lab_appliance.Dns.Records.{World}
use ztna_lab_appliance.Logger.State as LoggerState
use ztna_lab_appliance.Dns.Server.Lifecycle as Dns
use ztna_lab_appliance.Httpd.Lifecycle as Http
use ztna_lab_appliance.Sshd.Lifecycle as Ssh
use ztna_lab_appliance.Admin.Handlers
use ztna_lab_appliance.Logger.Write.{set_enabled}
use ztna_lab_appliance.Logger.Switches.{norm_module}
use ztna_lab_appliance.Admin.{
  Plane, Outside, Request, Response, Decoded, reply_to, authorized, handle_dns_start,
  handle_dns_stop, handle_http_start, handle_http_stop, handle_ssh_start, handle_ssh_stop,
  status_ok, put_dns, put_http, put_ssh,
}
use ztna_lab_appliance.Admin.Handlers.{
  Route, route_of, is_open, handler, serve, records_reply, handle_dns_records, handle_latency,
  handle_dns_record_delete, post_record, handle_log_modules, post_module, handle_latency,
}
use ztna_lab_appliance.Admin.Auth.{authorized_iff}
use ztna_lab_appliance.Latency.{or_default, valid_url}
use ztna_lab_appliance.Cli.Local.{number_or}
use ztna_lab_appliance.Admin.Sound.{handle_latency_returns}
use ztna_lab_appliance.Admin.Requests.{state-records_reply}
use ztna_lab_appliance.Cli.Call.{
  Daemon, authorization_header, all_plain, is_plain_segment, call, print_answer, answer_of, no_body,
}
use ztna_lab_appliance.Cli.Remote.{
  remote_command, remote_dns, remote_http, remote_ssh, remote_log, remote_latency,
}
use ztna_lab_appliance.Cli.Commands.{Command, words, state, after_call, effect, IsPlain, recovered}

-- The header of a client is let through by a daemon with the same token.
authorized-authorization_header :
    (token : Text) → authorized token (authorization_header token) ≡ true
unfolding authorization_header
authorized-authorization_header [] = (authorized_iff [] []).1 (inl refl)
authorized-authorization_header (c ∷ token) =
    (authorized_iff (c ∷ token) (text "Bearer " ++ c ∷ token)).1 (inr refl)

abbrev pub state_of : Option (Response × Plane) → Option Plane
state_of none = none
state_of (some (response, p)) = some p

abbrev request : Text → Text → Text → Text → Text → Decoded → Request
request token verb prefix segment n decoded = record {
  verb = verb;
  path = prefix ++ segment;
  authorization = authorization_header token;
  query_n = n;
  decoded = decoded;
}

state-print_answer :
    (p : Plane) (r : Option (Response × Plane))
    → state (print_answer (answer_of p r)) ≡ recovered p (state_of r)
state-print_answer p none = refl
state-print_answer p (some (response, q)) = refl

-- A call with a plain URL to a daemon that answers and has the client's token reaches the handler.
call_lem :
    (d : Daemon) (verb prefix segment n : Text) (decoded : Decoded) (p : Plane)
    → d.reachable ≡ true
    → is_plain_segment segment ≡ true
    → all_plain n ≡ true
    → state (print_answer (call d d.token verb prefix segment n decoded p))
      ≡ recovered p (
          state_of (
            handler
              (route_of (prefix ++ segment))
              d.outside
              (request d.token verb prefix segment n decoded)
              p))
unfolding call serve
call_lem d verb prefix segment n decoded p up plain query = ground (
  arith,
  authorized-authorization_header d.token,
  state-print_answer p (
      handler (route_of (prefix ++ segment)) d.outside
        (request d.token verb prefix segment n decoded) p),
)

state-reply_to :
    {S : Type 0} (word : Text) (put : S → List LogCall → Plane) (o : Outcome S)
    → state_of (reply_to word put o) ≡ after_call put o
unfolding reply_to
state-reply_to word put Outcome.panics = refl
state-reply_to word put (Outcome.returns none s lines) = refl
state-reply_to word put (Outcome.returns (some e) s lines) = refl

-- A DELETE of a name removes it.
deleted :
    (o : Outside) (p : Plane) (r : Request) (name : Text)
    → is_empty name ≡ false
    → r.verb ≡ text "DELETE"
    → r.path ≡ text "/api/dns/records/" ++ name
    → state_of (some (handle_dns_record_delete o r p))
      ≡ some (record p { records = (DnsRecords.remove o.records_os name p.records).1 })
unfolding handle_dns_record_delete text text_eq trim_prefix
deleted o p r name named verb path =
    rw (verb, path, named, state_of)
      (ap some (
        state-records_reply 404 (status_ok (text "removed")) p
          (DnsRecords.remove o.records_os name p.records)))

-- A blank name switches nothing.
set_enabled_blank :
    (os : LoggerState.Os) (name : Text) (on : Bool) (l : LoggerState.Logger)
    → is_empty (trim_space name) ≡ true
    → set_enabled os name on l ≡ l
unfolding set_enabled norm_module to_upper
set_enabled_blank os name on l blank = rw (blank_upper (trim_space name) blank) refl
  where
    blank_upper : (s : Text) → is_empty s ≡ true → is_empty (to_upper s) ≡ true
    blank_upper [] h = refl
    blank_upper (c ∷ s) h = cc

module _ (d : Daemon) (p : Plane) (up : d.reachable ≡ true) where
  -- Starts and stops.
  called :
      (verb prefix segment n : Text) (decoded : Decoded) {q : Option Plane}
      → is_plain_segment segment ≡ true
      → all_plain n ≡ true
      → state_of (
          handler
            (route_of (prefix ++ segment))
            d.outside
            (request d.token verb prefix segment n decoded)
            p)
        ≡ q
      → state (print_answer (call d d.token verb prefix segment n decoded p)) ≡ recovered p q
  called verb prefix segment n decoded plain query e =
      call_lem d verb prefix segment n decoded p up plain query ∙ ap (recovered p) e

  changed :
      (verb prefix segment n : Text) (decoded : Decoded) {q : Plane}
      → is_plain_segment segment ≡ true
      → all_plain n ≡ true
      → state_of (
          handler
            (route_of (prefix ++ segment))
            d.outside
            (request d.token verb prefix segment n decoded)
            p)
        ≡ some q
      → state (print_answer (call d d.token verb prefix segment n decoded p)) ≡ some q
  changed verb prefix segment n decoded plain query e =
      called verb prefix segment n decoded plain query e

  -- A posted record: `change` is what its type asks for.
  added :
      (kind name value : Text) (change : Option DnsRecords.Error × World)
      → post_record d.outside.records_os (record { kind = kind; name = name; value = value }) p
        ≡ records_reply 400 Handlers.added p change
      → state (
          print_answer (
            call d d.token
              (text "POST")
              (text "/api/dns/")
              (text "records")
              []
              (record no_body {
                as_record = some (record { kind = kind; name = name; value = value });
              })
              p))
        ≡ some (record p { records = change.1 })
  unfolding text text_eq is_plain_segment route_of lookup handler handle_dns_records
  added kind name value change e =
      changed _ _ _ _ _ refl refl
        (rw (e, state_of) (ap some (state-records_reply 400 Handlers.added p change)))

  removed :
      (name : Text)
      → is_plain_segment name ≡ true
      → state (
          print_answer
            (call d d.token (text "DELETE") (text "/api/dns/records/") name [] no_body p))
        ≡ some (record p { records = (DnsRecords.remove d.outside.records_os name p.records).1 })
  unfolding text text_eq is_plain_segment route_of lookup has_prefix handler
  removed name plain =
      changed (text "DELETE") (text "/api/dns/records/") name [] no_body plain refl (
        deleted d.outside p
          (request d.token (text "DELETE") (text "/api/dns/records/") name [] no_body) name
          (not_empty name plain) refl refl)
    where
      not_empty : (name : Text) → is_plain_segment name ≡ true → is_empty name ≡ false
      not_empty [] h = cc
      not_empty (c ∷ name) h = refl

  -- A latency run changes nothing, also if its handler panics.
  ran :
      (url : Text) (args : List Text) (decoded : Decoded)
      → state
          (print_answer (call d d.token (text "POST") (text "/api/") (text "latency") [] decoded p))
        ≡ recovered p (effect d.outside (Command.latency_run url args) p)
  unfolding text text_eq is_plain_segment route_of lookup handler effect handle_latency valid_url
  ran url args decoded =
      let large = or_default (number_or (pos 50) args) 50 in
      let asked = request d.token (text "POST") (text "/api/") (text "latency") [] decoded in
      call_lem d _ _ _ _ decoded p up refl refl ∙ elim (handle_latency_returns d.outside asked) [
        | inl (response, e) ↦
            rw e (sym (unchanged (valid_url url && not (d.outside.allocates large))))
        | inr (e, too_large) ↦
            rw e (sym (unchanged (valid_url url && not (d.outside.allocates large))))
      ]
    where
      unchanged : (b : Bool) → recovered p (if b then none else some p) ≡ some p
      unchanged true = refl
      unchanged false = refl

  switched :
      (name : Text) (on : Bool)
      → state (
          print_answer (
            call d d.token
              (text "POST")
              (text "/api/log/")
              (text "modules")
              []
              (record no_body {
                as_module = some (record { module_name = name; enabled = some on });
              })
              p))
        ≡ some (record p { logger = set_enabled d.outside.logger_os name on p.logger })
  unfolding text text_eq is_plain_segment route_of lookup handler handle_log_modules post_module
  switched name on = changed _ _ _ _ _ refl refl (elim (Bool-cases (is_empty (trim_space name))) [
    | inl blank ↦ rw (blank, set_enabled_blank d.outside.logger_os name on p.logger blank) refl
    | inr named ↦ rw named refl
  ])

  pub remote_command_lem :
      (c : Command)
      → IsPlain c
      → state (remote_command d d.token (words c) p) ≡ recovered p (effect d.outside c p)
  unfolding remote_command words effect remote_dns remote_http remote_ssh remote_log remote_latency
      text text_eq is_plain_segment route_of lookup has_prefix handler handle_dns_start
      handle_dns_stop handle_http_start handle_http_stop handle_ssh_start handle_ssh_stop
      handle_dns_records handle_log_modules post_record to_upper upper_byte
  remote_command_lem Command.status plain =
      called (text "GET") (text "/api/") (text "status") [] no_body refl refl refl
  remote_command_lem Command.clear plain = refl
  remote_command_lem Command.help plain = refl
  remote_command_lem Command.dns_start plain =
      called (text "POST") (text "/api/dns/") (text "start") [] no_body refl refl
        (state-reply_to (text "started") (put_dns p) (Dns.start d.outside.dns_listen p.dns))
  remote_command_lem Command.dns_stop plain =
      called (text "POST") (text "/api/dns/") (text "stop") [] no_body refl refl
        (state-reply_to (text "stopped") (put_dns p) (Dns.stop d.outside.dns_shutdown p.dns))
  remote_command_lem Command.dns_list plain =
      called (text "GET") (text "/api/dns/") (text "records") [] no_body refl refl refl
  remote_command_lem (Command.dns_add name ip) plain =
      added (text "A") name ip (DnsRecords.add_a d.outside.records_os name ip p.records) refl
  remote_command_lem (Command.dns_cname alias target) plain =
      added (text "CNAME") alias target
        (DnsRecords.add_cname d.outside.records_os alias target p.records) refl
  remote_command_lem (Command.dns_remove name) plain = removed name plain
  remote_command_lem Command.http_start plain =
      called (text "POST") (text "/api/http/") (text "start") [] no_body refl refl (
        state-reply_to (text "started") (put_http p)
          (Http.start_and_serve d.outside.http_listen p.http))
  remote_command_lem Command.http_stop plain =
      called (text "POST") (text "/api/http/") (text "stop") [] no_body refl refl
        (state-reply_to (text "stopped") (put_http p) (Http.stop d.outside.http_shutdown p.http))
  remote_command_lem Command.ssh_start plain =
      called (text "POST") (text "/api/ssh/") (text "start") [] no_body refl refl
        (state-reply_to (text "started") (put_ssh p) (Ssh.start d.outside.ssh_answers p.ssh))
  remote_command_lem Command.ssh_stop plain =
      called (text "POST") (text "/api/ssh/") (text "stop") [] no_body refl refl
        (state-reply_to (text "stopped") (put_ssh p) (Ssh.stop d.outside.ssh_close p.ssh))
  remote_command_lem Command.ssh_who plain =
      called (text "GET") (text "/api/ssh/") (text "sessions") [] no_body refl refl refl
  remote_command_lem Command.log_tail plain =
      called (text "GET") (text "/api/log/") (text "tail") (text "50") no_body refl refl refl
  remote_command_lem Command.log_modules plain =
      called (text "GET") (text "/api/log/") (text "modules") [] no_body refl refl refl
  remote_command_lem (Command.log_tail_of n) plain =
      called (text "GET") (text "/api/log/") (text "tail") n no_body refl plain refl
  remote_command_lem (Command.log_module name true) plain = switched name true
  remote_command_lem (Command.log_module name false) plain = switched name false
  remote_command_lem (Command.latency_run url args) plain = ran url args _
