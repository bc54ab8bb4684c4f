-- ===== src/Cli/Remote.antt =====
-- cli_client.go: `dispatchRemote` and `parseInt`.
use ztna_lab_appliance.Common.{
  ◌&&◌, ◌||◌, List, [], ◌∷◌, ◌++◌, Option, none, some, Text, text, text_eq, parse_int64, leb, ◌==◌,
  ℤ, pos, if◌then◌else◌,
}
use ztna_lab_appliance.Admin.{Plane, Decoded, LatencyBody}
use ztna_lab_appliance.Cli.{Out, Done, fields}
use ztna_lab_appliance.Cli.Local.{
  dns_usage, cname_usage, http_usage, ssh_usage, log_usage, latency_usage,
}
use ztna_lab_appliance.Cli.Call.{Daemon, call, no_body, print_answer}

leading_digits : Text → Text
leading_digits [] = []
leading_digits (c ∷ s) = if leb b'0' c && leb c b'9' then c ∷ leading_digits s else []

abbrev or_zero : Option ℤ → ℤ
or_zero none = pos 0
or_zero (some n) = n

-- `parseInt`, its error ignored: a sign and the digits that follow, 0 if that is no number.
unfoldable pub parse_int : Text → ℤ
unfolding leading_digits
parse_int [] = pos 0
parse_int (c ∷ s) =
    if c == b'-' || c == b'+'
    then or_zero (parse_int64 (c ∷ leading_digits s))
    else or_zero (parse_int64 (leading_digits (c ∷ s)))

abbrev tail_of : List Text → List Text
tail_of [] = []
tail_of (x ∷ xs) = xs

abbrev parsed_or_zero : List Text → ℤ
parsed_or_zero [] = pos 0
parsed_or_zero (v ∷ args) = parse_int v

module _ (d : Daemon) (token : Text) where
  get : Text → Text → Text → Plane → Done
  unfolding call
  get prefix segment n p = print_answer (call d token (text "GET") prefix segment n no_body p)

  post : Text → Text → Decoded → Plane → Done
  unfolding call
  post prefix segment decoded p =
      print_answer (call d token (text "POST") prefix segment [] decoded p)

  post_record : Text → Text → Text → Plane → Done
  unfolding post
  post_record kind name value p =
      post (text "/api/dns/") (text "records")
        (record no_body { as_record = some (record { kind = kind; name = name; value = value }) }) p

  remote_add : List Text → Plane → Done
  unfolding post_record
  remote_add (name ∷ ip ∷ []) p = post_record (text "A") name ip p
  remote_add _ p = some (Out.usage (text "usage: dns add <name> <ip>"), p)

  remote_remove : List Text → Plane → Done
  unfolding call
  remote_remove (name ∷ []) p =
      print_answer (call d token (text "DELETE") (text "/api/dns/records/") name [] no_body p)
  remote_remove _ p = some (Out.usage (text "usage: dns remove <name>"), p)

  remote_cname : List Text → Plane → Done
  unfolding post_record
  remote_cname (word ∷ alias ∷ target ∷ []) p =
      if text_eq word (text "add")
      then post_record (text "CNAME") alias target p
      else some (cname_usage, p)
  remote_cname _ p = some (cname_usage, p)

  -- The case `dns`, of the fields after it.
  unfoldable pub remote_dns : List Text → Plane → Done
  unfolding get post remote_add remote_remove remote_cname
  remote_dns [] p = some (Out.usage dns_usage, p)
  remote_dns (sub ∷ args) p =
      if text_eq sub (text "start")
      then post (text "/api/dns/") (text "start") no_body p
      else if text_eq sub (text "stop")
      then post (text "/api/dns/") (text "stop") no_body p
      else if text_eq sub (text "list")
      then get (text "/api/dns/") (text "records") [] p
      else if text_eq sub (text "add")
      then remote_add args p
      else if text_eq sub (text "remove")
      then remote_remove args p
      else if text_eq sub (text "cname")
      then remote_cname args p
      else some (Out.nothing, p)

  -- The case `http`: whatever the first field is, it is the end of the path.
  unfoldable pub remote_http : List Text → Plane → Done
  unfolding post
  remote_http [] p = some (http_usage, p)
  remote_http (sub ∷ args) p = post (text "/api/http/") sub no_body p

  -- The case `ssh`.
  unfoldable pub remote_ssh : List Text → Plane → Done
  unfolding get post
  remote_ssh (sub ∷ []) p =
      if text_eq sub (text "start") || text_eq sub (text "stop")
      then post (text "/api/ssh/") sub no_body p
      else if text_eq sub (text "who")
      then get (text "/api/ssh/") (text "sessions") [] p
      else some (ssh_usage, p)
  remote_ssh _ p = some (ssh_usage, p)

  remote_tail : List Text → Plane → Done
  unfolding get
  remote_tail [] p = get (text "/api/log/") (text "tail") (text "50") p
  remote_tail (n ∷ args) p = get (text "/api/log/") (text "tail") n p

  remote_modules : List Text → Plane → Done
  unfolding get
  remote_modules [] p = get (text "/api/log/") (text "modules") [] p
  remote_modules _ p = some (Out.usage log_usage, p)

  remote_module : List Text → Plane → Done
  unfolding post
  remote_module (name ∷ state ∷ []) p =
      let on = text_eq state (text "on") in
      if on || text_eq state (text "off")
      then post (text "/api/log/") (text "modules")
          (record no_body { as_module = some (record { module_name = name; enabled = some on }) }) p
      else some (Out.usage log_usage, p)
  remote_module _ p = some (Out.usage log_usage, p)

  -- The case `log`.
  unfoldable pub remote_log : List Text → Plane → Done
  unfolding remote_tail remote_modules remote_module
  remote_log [] p = some (Out.usage log_usage, p)
  remote_log (sub ∷ args) p =
      if text_eq sub (text "tail")
      then remote_tail args p
      else if text_eq sub (text "modules")
      then remote_modules args p
      else if text_eq sub (text "module")
      then remote_module args p
      else some (Out.usage log_usage, p)

  -- The case `latency`: fields that are missing are not sent, and decoded as 0.
  unfoldable pub remote_latency : List Text → Plane → Done
  unfolding post
  remote_latency (word ∷ url ∷ args) p =
      let body : LatencyBody = record {
        url = url;
        count = parsed_or_zero args;
        interval_ms = parsed_or_zero (tail_of args);
      } in
      if text_eq word (text "run")
      then post (text "/api/") (text "latency") (record no_body { as_latency = some body }) p
      else some (latency_usage, p)
  remote_latency _ p = some (latency_usage, p)

  unfoldable pub remote_command : List Text → Plane → Done
  unfolding get
  remote_command [] p = some (Out.nothing, p)
  remote_command (word ∷ args) p =
      if text_eq word (text "status")
      then get (text "/api/") (text "status") [] p
      else if text_eq word (text "dns")
      then remote_dns args p
      else if text_eq word (text "http")
      then remote_http args p
      else if text_eq word (text "ssh")
      then remote_ssh args p
      else if text_eq word (text "log")
      then remote_log args p
      else if text_eq word (text "latency")
      then remote_latency args p
      else if text_eq word (text "clear")
      then some (Out.clear_screen, p)
      else if text_eq word (text "help")
      then some (Out.help, p)
      else some (Out.message (text "unknown command: " ++ word ++ text " (type 'help')"), p)

  -- `dispatchRemote`
  unfoldable pub dispatch_remote : Text → Plane → Done
  unfolding remote_command
  dispatch_remote line p = remote_command (fields line) p
