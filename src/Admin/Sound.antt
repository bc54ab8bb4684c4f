-- ===== src/Admin/Sound.antt =====
-- admin/server.go: what sequences of requests do to the state of the components.
use ztna_lab_appliance.Common.{
  ℕ, Bool, true, false, ◌&&◌, ◌||◌, not, List, [], ◌∷◌, ◌++◌, Option, none, some, Text, text,
  text_eq, is_empty, ◌≡◌, ◌≢◌, ◌↔◌, ◌⊎◌, inl, inr, refl, arith, ◌==◌, if◌then◌else◌, Bool-cases,
  Option-cases, LogCall, ℤ, length,
}
use ztna_lab_appliance.Common
use ztna_lab_appliance.Admin
use ztna_lab_appliance.Service.{Outcome, Meets, Call}
use ztna_lab_appliance.Service as Services
use ztna_lab_appliance.Dns.Records as DnsRecords
use ztna_lab_appliance.Dns.Records.{World}
use ztna_lab_appliance.Dns.Records.Invariant.{
  IsValid, add_a-IsValid, add_cname-IsValid, remove-IsValid,
}
use ztna_lab_appliance.Dns.Server.Lifecycle as Dns
use ztna_lab_appliance.Httpd.Lifecycle as Http
use ztna_lab_appliance.Sshd.Lifecycle as Ssh
use ztna_lab_appliance.Latency as Latency
use ztna_lab_appliance.Latency.Results.{run_latency-Returns, run_latency_panics}
use ztna_lab_appliance.Admin.{
  Plane, Request, Outside, LatencyBody, Response, Error, error, reply_to, put_dns, put_http,
  put_ssh, authorized, handle_dns_start, handle_dns_stop, handle_http_start, handle_http_stop,
  handle_ssh_start, handle_ssh_stop,
}
use ztna_lab_appliance.Admin.Handlers.{
  Route, route_of, is_open, handler, if_zero, serve, records_reply, post_record, handle_dns_records,
  handle_dns_record_delete, handle_ssh_debug, post_module, handle_log_modules, handle_latency,
  latency_reply,
}

-- Each server's listener is set exactly if it runs, no goroutine of a start has yet to run, and
-- the records are valid.
pub record IsSound (p : Plane) : Type 0 where
  pub dns : Dns.IsConsistent p.dns
  pub http : Http.IsSettled p.http
  pub ssh : p.ssh.listener ≡ p.ssh.running
  pub records : IsValid p.records.store

-- A result that is a response, with a sound state.
abbrev pub Answers : Option (Response × Plane) → Type 0
Answers result = (response : Response) × (q : Plane) × (result ≡ some (response, q)) × IsSound q

answers : (response : Response) (p : Plane) → IsSound p → Answers (some (response, p))
answers response p s = (response, p, refl, s)

-- The outcome of a call of a service, put back into the state.
reply_to-Answers :
    {S : Type 0} (word : Text) (put : S → List LogCall → Plane) (running : S → Bool)
    (IsConsistent : S → Type 0) (result : Option Services.Error × Bool) (o : Outcome S)
    → Meets running IsConsistent result o
    → ((t : S) (lines : List LogCall) → IsConsistent t → IsSound (put t lines))
    → Answers (reply_to word put o)
unfolding reply_to
reply_to-Answers word put running IsConsistent result Outcome.panics m sound = absurd m
reply_to-Answers word put running IsConsistent result (Outcome.returns none t lines) m sound =
    answers _ (put t lines) (sound t lines m.2)
reply_to-Answers word put running IsConsistent result (Outcome.returns (some e) t lines) m sound =
    answers _ (put t lines) (sound t lines m.2)

replied :
    {outcome : Latency.Outcome}
    → (outcome ≡ Latency.Outcome.bad_url)
      ⊎ ((result : Latency.LatencyResult) × (outcome ≡ Latency.Outcome.result result))
    → (response : Response) × (latency_reply outcome ≡ some response)
replied (inl bad) = rw bad (error 400 Error.bad_url, refl)
replied (inr (result, e)) = rw e (_, refl)

-- A latency run of so many requests that their samples cannot be allocated.
abbrev pub IsTooLarge : Outside → Request → Type 0
IsTooLarge o r =
    (body : LatencyBody) × (r.decoded.as_latency ≡ some body)
    × (o.allocates (Latency.or_default (if_zero body.count 50) 50) ≡ false)

-- The latency handler panics only if the samples cannot be allocated.
pub handle_latency_returns :
    (o : Outside) (r : Request)
    → ((response : Response) × (handle_latency o r ≡ some response))
      ⊎ ((handle_latency o r ≡ none) × IsTooLarge o r)
unfolding handle_latency
handle_latency_returns o r = elim (Option-cases r.decoded.as_latency) [
  | inl bad ↦ inl (rw bad (error 400 Error.invalid_json, refl))
  | inr (body, e) ↦
      let count = if_zero body.count 50 in
      elim (Bool-cases (o.allocates (Latency.or_default count 50))) [
        | inl fits ↦ inl (
            rw e (
              replied (
                run_latency-Returns o.allocates o.std_dev body.url count
                  (if_zero body.interval_ms 200) o.attempts fits)))
        | inr large ↦ elim (Bool-cases (Latency.valid_url body.url)) [
          | inr invalid ↦ inl (
              rw
                (
                  e,
                  run_latency_panics o.allocates o.std_dev body.url count
                      (if_zero body.interval_ms 200) o.attempts large,
                  invalid,
                )
                (error 400 Error.bad_url, refl))
          | inl valid ↦ inr (
            rw
                (
                  e,
                  run_latency_panics o.allocates o.std_dev body.url count
                      (if_zero body.interval_ms 200) o.attempts large,
                  valid,
                )
                refl,
            (body, e, large),
          )
        ]
      ]
]

module _ (p : Plane) (s : IsSound p) where
  pub with_dns :
      (t : Dns.Server) (lines : List LogCall) → Dns.IsConsistent t → IsSound (put_dns p t lines)
  with_dns t lines h = record { dns = h; http = s.http; ssh = s.ssh; records = s.records }

  pub with_http :
      (t : Http.Server) (lines : List LogCall)
      → Http.IsConsistent p.http.addr t
      → IsSound (put_http p t lines)
  with_http t lines h = record { dns = s.dns; http = h.0; ssh = s.ssh; records = s.records }

  pub with_ssh :
      (t : Ssh.Server) (lines : List LogCall)
      → Ssh.IsConsistent p.ssh.addr p.ssh.cfg t
      → IsSound (put_ssh p t lines)
  with_ssh t lines h = record { dns = s.dns; http = s.http; ssh = h.0; records = s.records }

  dns_call :
      (word : Text) (c : Call (Option Text))
      → Answers (reply_to word (put_dns p) (Dns.perform c p.dns))
  dns_call word c =
      reply_to-Answers word (put_dns p) Dns.is_running Dns.IsConsistent _ (Dns.perform c p.dns)
        (Dns.perform-Meets c p.dns s.dns) with_dns

  http_call :
      (word : Text) (c : Call (Option Text))
      → Answers (reply_to word (put_http p) (Http.perform c p.http))
  http_call word c =
      reply_to-Answers word (put_http p) Http.is_running (Http.IsConsistent p.http.addr) _
        (Http.perform c p.http) (Http.perform-Meets p.http.addr c p.http (s.http, refl)) with_http

  ssh_call :
      (word : Text) (c : Call Ssh.Answers)
      → Answers (reply_to word (put_ssh p) (Ssh.perform c p.ssh))
  ssh_call word c =
      reply_to-Answers word (put_ssh p) Ssh.is_running (Ssh.IsConsistent p.ssh.addr p.ssh.cfg) _
        (Ssh.perform c p.ssh) (Ssh.perform-Meets p.ssh.addr p.ssh.cfg c p.ssh (s.ssh, refl, refl))
        with_ssh

  with_records :
      (status : ℕ) (good : Response) (r : Option DnsRecords.Error × World)
      → IsValid r.1.store
      → IsSound (records_reply status good p r).1
  with_records status good (none, w) h = record {
    dns = s.dns;
    http = s.http;
    ssh = s.ssh;
    records = h;
  }
  with_records status good (some e, w) h = record {
    dns = s.dns;
    http = s.http;
    ssh = s.ssh;
    records = h;
  }

  post_record-IsSound :
      (os : DnsRecords.Os) (body : Admin.RecordBody) → IsSound (post_record os body p).1
  unfolding post_record
  post_record-IsSound os body = elim (Bool-cases (text_eq (Common.to_upper body.kind) (text "A"))) [
    | inl a ↦ rw a (
        with_records 400 _ (DnsRecords.add_a os body.name body.value p.records)
          (add_a-IsValid os body.name body.value p.records s.records))
    | inr not_a ↦ elim (Bool-cases (text_eq (Common.to_upper body.kind) (text "CNAME"))) [
      | inl cname ↦
          rw (not_a, cname)
            (with_records 400 _ (DnsRecords.add_cname os body.name body.value p.records)
              (add_cname-IsValid os body.name body.value p.records s.records))
      | inr neither ↦ rw (not_a, neither) s
    ]
  ]

  dns_records-IsSound : (o : Outside) (r : Request) → IsSound (handle_dns_records o r p).1
  unfolding handle_dns_records
  dns_records-IsSound o r = elim (Bool-cases (text_eq r.verb (text "GET"))) [
    | inl get ↦ rw get s
    | inr other ↦ elim (Bool-cases (text_eq r.verb (text "POST"))) [
      | inr neither ↦ rw (other, neither) s
      | inl post ↦ elim (Option-cases r.decoded.as_record) [
        | inl bad ↦ rw (other, post, bad) s
        | inr (body, e) ↦ rw (other, post, e) (post_record-IsSound o.records_os body)
      ]
    ]
  ]

  delete-IsSound : (o : Outside) (r : Request) → IsSound (handle_dns_record_delete o r p).1
  unfolding handle_dns_record_delete
  delete-IsSound o r =
      let name = Common.trim_prefix r.path (text "/api/dns/records/") in
      elim (Bool-cases (text_eq r.verb (text "DELETE"))) [
        | inr other ↦ rw other s
        | inl delete ↦ elim (Bool-cases (is_empty name)) [
          | inl empty ↦ rw (delete, empty) s
          | inr named ↦
              rw (delete, named)
                (with_records 404 _ (DnsRecords.remove o.records_os name p.records)
                  (remove-IsValid o.records_os name p.records s.records))
        ]
      ]

  debug-IsSound : (r : Request) → IsSound (handle_ssh_debug r p).1
  unfolding handle_ssh_debug Ssh.set_debug
  debug-IsSound r = elim (Bool-cases (text_eq r.verb (text "POST"))) [
    | inr other ↦ rw other s
    | inl post ↦ elim (Option-cases r.decoded.as_debug) [
      | inl bad ↦ rw (post, bad) s
      | inr (on, e) ↦
          rw (post, e)
            (with_ssh (Ssh.set_debug on p.ssh).0 (Ssh.set_debug on p.ssh).1 (s.ssh, refl, refl))
    ]
  ]

  log_modules-IsSound : (o : Outside) (r : Request) → IsSound (handle_log_modules o r p).1
  unfolding handle_log_modules post_module
  log_modules-IsSound o r = ground (arith, s)

  -- A handler answers, or it is that of a latency run that is too large.
  handler-Answers :
      (route : Route) (o : Outside) (r : Request)
      → Answers (handler route o r p)
        ⊎ ((handler route o r p ≡ none) × (route ≡ Route.latency) × IsTooLarge o r)
  unfolding handler handle_dns_start handle_dns_stop handle_http_start handle_http_stop
      handle_ssh_start handle_ssh_stop Dns.perform Http.perform Ssh.perform
  handler-Answers Route.index o r = inl (answers _ p s)
  handler-Answers Route.health o r = inl (answers _ p s)
  handler-Answers Route.status o r = inl (answers _ p s)
  handler-Answers Route.dns_start o r =
      inl (dns_call (text "started") (Call.start_call o.dns_listen))
  handler-Answers Route.dns_stop o r =
      inl (dns_call (text "stopped") (Call.stop_call o.dns_shutdown))
  handler-Answers Route.records o r = inl (answers _ _ (dns_records-IsSound o r))
  handler-Answers Route.one_record o r = inl (answers _ _ (delete-IsSound o r))
  handler-Answers Route.http_start o r =
      inl (http_call (text "started") (Call.start_call o.http_listen))
  handler-Answers Route.http_stop o r =
      inl (http_call (text "stopped") (Call.stop_call o.http_shutdown))
  handler-Answers Route.ssh_start o r =
      inl (ssh_call (text "started") (Call.start_call o.ssh_answers))
  handler-Answers Route.ssh_stop o r = inl (ssh_call (text "stopped") (Call.stop_call o.ssh_close))
  handler-Answers Route.ssh_sessions o r = inl (answers _ p s)
  handler-Answers Route.ssh_debug o r = inl (answers _ _ (debug-IsSound r))
  handler-Answers Route.log_tail o r = inl (answers _ p s)
  handler-Answers Route.log_modules o r = inl (answers _ _ (log_modules-IsSound o r))
  handler-Answers Route.latency o r = elim (handle_latency_returns o r) [
    | inl (response, e) ↦ inl (response, p, ground (arith, e), s)
    | inr (e, large) ↦ inr (ground (arith, e), refl, large)
  ]

  serve-Answers :
      (token : Text) (o : Outside) (r : Request)
      → Answers (serve token o r p)
        ⊎ ((serve token o r p ≡ none) × (route_of r.path ≡ Route.latency) × IsTooLarge o r)
  unfolding serve
  serve-Answers token o r =
      elim (Bool-cases (is_open (route_of r.path) || authorized token r.authorization)) [
        | inl pass ↦ rw pass (handler-Answers (route_of r.path) o r)
        | inr refused ↦ rw refused (inl (answers _ p s))
      ]

-- What net/http makes of the end of a handler: it recovers a panic, and closes the connection
-- without a response. The only handler that panics has changed nothing before.
abbrev pub respond : Plane → Option (Response × Plane) → Option Response × Plane
respond p none = (none, p)
respond p (some (response, q)) = (some response, q)

-- The responses to a sequence of requests and the last state.
unfoldable pub serve_all : Text → List (Outside × Request) → Plane → List (Option Response) × Plane
serve_all token [] p = ([], p)
serve_all token ((o, r) ∷ requests) p =
    let (response, q) = respond p (serve token o r p) in
    let (responses, final) = serve_all token requests q in (response ∷ responses, final)

-- One outcome for each request: a response, or none for a latency run that is too large.
abbrev pub AreAnswered : List (Outside × Request) → List (Option Response) → Type 0
AreAnswered [] [] = Unit
AreAnswered ((o, r) ∷ requests) (none ∷ responses) =
    (route_of r.path ≡ Route.latency) × IsTooLarge o r × AreAnswered requests responses
AreAnswered ((o, r) ∷ requests) (some response ∷ responses) = AreAnswered requests responses
AreAnswered _ _ = ⊥

-- From a state in which each server's listener is set exactly if the server runs, no goroutine of
-- a start has yet to run, and the records are valid: every request of any sequence gets a
-- response, whatever the outside answers, but a latency run of so many requests that their samples
-- cannot be allocated, which may get none; and the last state is again such a state. The goroutine of a
-- start of the HTTP server runs before the next request.
pub serve_all-IsSound :
    (token : Text) (requests : List (Outside × Request)) (p : Plane)
    → IsSound p
    → (responses : List (Option Response)) × (q : Plane) × (serve_all token requests p
        ≡ (responses, q))
      × AreAnswered requests responses
      × IsSound q
unfolding serve_all
serve_all-IsSound token [] p s = ([], p, refl, tt, s)
serve_all-IsSound token ((o, r) ∷ requests) p s = elim (serve-Answers p s token o r) [
  | inl (response, q, e, sound) ↦
      let (responses, final, e', all, sound') = serve_all-IsSound token requests q sound in
      (some response ∷ responses, final, rw (e, e') refl, all, sound')
  | inr (e, routed, large) ↦
      let (responses, final, e', all, sound') = serve_all-IsSound token requests p s in
      (none ∷ responses, final, rw (e, e') refl, (routed, large, all), sound')
]
