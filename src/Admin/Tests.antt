-- ===== src/Admin/Tests.antt =====
-- admin/server.go: the theorems at concrete requests.
use ztna_lab_appliance.Logger.Tail.{tail}
use ztna_lab_appliance.Common.{
  ℕ, pos, true, false, ◌||◌, List, [], ◌∷◌, ◌++◌, Option, none, some, Text, text, text_eq,
  text_eq_iff, to_lower, to_upper, upper_byte, trim_suffix_byte, trim_prefix, lookup, ◌≡◌, ◌≢◌, ◌↔◌,
  ◌⊎◌, refl, arith, parse_int64,
}
use ztna_lab_appliance.Net.{parse_ip}
use ztna_lab_appliance.Dns.Records as DnsRecords
use ztna_lab_appliance.Dns.Records.{World, normalize, contains, add_a, lookup_a}
use ztna_lab_appliance.Dns.Records.Lookup.{answer}
use ztna_lab_appliance.Dns.Records.Requests.{persist_error}
use ztna_lab_appliance.Admin.{
  Plane, RecordBody, Request, Response, Error, error, status_ok, authorized, handle_health,
  handle_index,
}
use ztna_lab_appliance.Admin.Handlers.{
  Route, route_of, is_open, serve, added, handle_dns_records, handle_dns_record_delete,
  handle_log_tail,
}
use ztna_lab_appliance.Admin.Auth.{authorized_iff, serve-unauthorized}
use ztna_lab_appliance.Admin.Sound.{IsSound, serve_all, serve_all-IsSound, AreAnswered}
use ztna_lab_appliance.Admin.Requests.{
  by_error, IsCount, post_record_resolves, handle_dns_record_delete_lem, handle_log_tail_lem,
  tail_response,
}
use ztna_lab_appliance.Fixtures.{outside, plane, plane-IsSound}

abbrev posted : RecordBody
posted = record { kind = text "a"; name = text "B."; value = text "10.0.0.5" }

abbrev post : Request
post = record {
  verb = text "POST";
  path = text "/api/dns/records";
  authorization = text "Bearer other";
  query_n = [];
  decoded = record {
    as_record = some posted;
    as_debug = none;
    as_module = none;
    as_latency = none;
  };
}

abbrev delete : Request
delete = record post { verb = text "DELETE"; path = text "/api/dns/records/b" }

ne : (a b : Text) → text_eq a b ≡ false → a ≢ b
ne a b h e = ground (arith, text_eq_iff a b)

authorized_iff_example :
    (authorized (text "secret") (text "Bearer secret") ≡ true)
    ↔ ((text "secret" ≡ []) ⊎ (text "Bearer secret" ≡ text "Bearer " ++ text "secret"))
authorized_iff_example = authorized_iff (text "secret") (text "Bearer secret")

serve-unauthorized_example :
    ((is_open (route_of post.path) ≡ false)
      × (serve (text "secret") outside post plane ≡ some (error 401 Error.unauthorized, plane)))
    ⊎ ((route_of post.path ≡ Route.health)
        × (serve (text "secret") outside post plane ≡ some (handle_health, plane)))
    ⊎ ((route_of post.path ≡ Route.index)
        × (serve (text "secret") outside post plane ≡ some (handle_index post, plane)))
unfolding text text_eq
serve-unauthorized_example =
    serve-unauthorized (text "secret") outside post plane (ne _ [] refl)
      (ne (text "Bearer other") (text "Bearer " ++ text "secret") refl)

serve_all_example :
    (responses : List (Option Response)) × (q : Plane) × (serve_all []
        ((outside, post) ∷ (outside, delete) ∷ [])
        plane
      ≡ (responses, q))
    × AreAnswered ((outside, post) ∷ (outside, delete) ∷ []) responses
    × IsSound q
serve_all_example =
    serve_all-IsSound [] ((outside, post) ∷ (outside, delete) ∷ []) plane plane-IsSound

post_record_resolves_example :
    let (response, q) = handle_dns_records outside post plane in
    (response ≡ by_error added 400 (persist_error outside.records_os plane.records.store))
    × ((spelling : Text)
        → normalize spelling ≡ normalize (text "B.")
        → lookup_a q.records.store spelling ≡ answer (text "10.0.0.5") [])
    × (q ≡ record plane {
      records = (add_a outside.records_os (text "B.") (text "10.0.0.5") plane.records).1;
    })
unfolding text to_upper upper_byte normalize to_lower trim_suffix_byte parse_ip
post_record_resolves_example =
    post_record_resolves outside post posted plane refl refl refl refl (λ e. cc)

handle_dns_record_delete_example :
    let key = normalize (trim_prefix delete.path (text "/api/dns/records/")) in
    let known = contains key plane.records.store.a || contains key plane.records.store.cname in
    let (response, q) = handle_dns_record_delete outside delete plane in
    (known ≡ false
      → (response ≡ error 404 (Error.of_records (DnsRecords.Error.not_found key))) × (q ≡ plane))
    × (known ≡ true
        → (response
            ≡ by_error
                (status_ok (text "removed"))
                404
                (persist_error outside.records_os plane.records.store))
          × (lookup key q.records.store.a ≡ none)
          × (lookup key q.records.store.cname ≡ none))
unfolding text trim_prefix
handle_dns_record_delete_example = handle_dns_record_delete_lem outside delete plane refl refl

abbrev tail_request : Request
tail_request = record post { verb = text "GET"; query_n = text "200" }

handle_log_tail_example :
    (count : ℕ) × IsCount (parse_int64 (text "200")) count
    × (handle_log_tail outside tail_request plane
        ≡ tail_response plane (
            tail outside.reads
              (pos count)
              plane.logger.cur_path
              plane.logger.files
              plane.logger.files))
handle_log_tail_example = handle_log_tail_lem outside tail_request plane
