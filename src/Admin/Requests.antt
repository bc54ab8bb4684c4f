-- ===== src/Admin/Requests.antt =====
-- admin/server.go: what requests on the DNS records and on the log do.
use ztna_lab_appliance.Common.{
  ℕ, Bool, true, false, ◌||◌, [], ◌∷◌, Option, none, some, Text, text, text_eq, is_empty, lookup,
  to_upper, trim_prefix, ◌≡◌, ◌≢◌, ◌≤◌, refl, arith, parse_int64, ℤ, pos, negsuc,
}
use ztna_lab_appliance.Net.{parse_ip}
use ztna_lab_appliance.Dns.Records as DnsRecords
use ztna_lab_appliance.Dns.Records.{World, normalize, add_a, remove, lookup_a, contains}
use ztna_lab_appliance.Dns.Records.Lookup.{answer}
use ztna_lab_appliance.Dns.Records.Requests.{persist_error, add_a_resolves, remove_lem}
use ztna_lab_appliance.Logger.State.{stat}
use ztna_lab_appliance.Logger.Switches.{modules}
use ztna_lab_appliance.Logger.Tail.{TailResult, tail}
use ztna_lab_appliance.Admin.{
  Plane, RecordBody, Request, Outside, Response, Error, error, status_ok, Body, write_json,
}
use ztna_lab_appliance.Admin.Handlers.{
  records_reply, added, post_record, handle_dns_records, handle_dns_record_delete, tail_count,
  count_of, handle_log_tail,
}

-- The response for the error of a mutation: `good` if there is none.
abbrev pub by_error : Response → ℕ → Option DnsRecords.Error → Response
by_error good status none = good
by_error good status (some e) = error status (Error.of_records e)

response-records_reply :
    (status : ℕ) (good : Response) (p : Plane) (r : Option DnsRecords.Error × World)
    → (records_reply status good p r).0 ≡ by_error good status r.0
response-records_reply status good p (none, w) = refl
response-records_reply status good p (some e, w) = refl

pub state-records_reply :
    (status : ℕ) (good : Response) (p : Plane) (r : Option DnsRecords.Error × World)
    → (records_reply status good p r).1 ≡ record p { records = r.1 }
state-records_reply status good p (none, w) = refl
state-records_reply status good p (some e, w) = refl

-- A POST of an A record, its type in any letter case, with a name that is not empty and an address
-- that `net.ParseIP` accepts: afterwards every spelling of the name resolves to the address. The
-- response has status 201 if the records were saved, and 400 with the error of the save otherwise.
pub post_record_resolves :
    (o : Outside) (r : Request) (body : RecordBody) (p : Plane)
    → r.verb ≡ text "POST"
    → r.decoded.as_record ≡ some body
    → to_upper body.kind ≡ text "A"
    → is_empty (normalize body.name) ≡ false
    → parse_ip body.value ≢ none
    → let (response, q) = handle_dns_records o r p in
      (response ≡ by_error added 400 (persist_error o.records_os p.records.store))
      × ((spelling : Text)
          → normalize spelling ≡ normalize body.name
          → lookup_a q.records.store spelling ≡ answer body.value [])
      × (q ≡ record p { records = (add_a o.records_os body.name body.value p.records).1 })
unfolding handle_dns_records post_record text_eq text
post_record_resolves o r body p verb decoded kind named good =
    let result = add_a o.records_os body.name body.value p.records in
    let lem = add_a_resolves o.records_os body.name body.value p.records named good in
    let response : by_error added 400 result.0
        ≡ by_error added 400 (persist_error o.records_os p.records.store) =
      rw lem.0 refl in
    rw
      (
        verb,
        decoded,
        kind,
        response-records_reply 400 added p result,
        state-records_reply 400 added p result,
      )
      (response, lem.1, refl)

-- A DELETE of a path with a name. A name with no record gets status 404 and nothing changes.
-- Otherwise the name has no record afterwards, whatever the response; this has status 200 if the
-- records were saved, and 404 with the error of the save otherwise.
pub handle_dns_record_delete_lem :
    (o : Outside) (r : Request) (p : Plane)
    → r.verb ≡ text "DELETE"
    → is_empty (trim_prefix r.path (text "/api/dns/records/")) ≡ false
    → let key = normalize (trim_prefix r.path (text "/api/dns/records/")) in
      let known = contains key p.records.store.a || contains key p.records.store.cname in
      let (response, q) = handle_dns_record_delete o r p in
      (known ≡ false
        → (response ≡ error 404 (Error.of_records (DnsRecords.Error.not_found key))) × (q ≡ p))
      × (known ≡ true
          → (response
              ≡ by_error
                  (status_ok (text "removed"))
                  404
                  (persist_error o.records_os p.records.store))
            × (lookup key q.records.store.a ≡ none)
            × (lookup key q.records.store.cname ≡ none))
unfolding handle_dns_record_delete text_eq text
handle_dns_record_delete_lem o r p verb named =
    let name = trim_prefix r.path (text "/api/dns/records/") in
    let good = status_ok (text "removed") in
    let result = remove o.records_os name p.records in
    let lem = remove_lem o.records_os name p.records in
    rw
      (verb, named, response-records_reply 404 good p result, state-records_reply 404 good p result)
      (
        λ unknown. (rw ((lem.0 unknown).0) refl, rw ((lem.0 unknown).1) refl),
        λ known. (rw ((lem.1 known).0) refl, (lem.1 known).1, (lem.1 known).2),
      )

-- What the number of lines is for a parameter that is parsed as `z`.
abbrev pub IsCount : Option ℤ → ℕ → Type 0
IsCount z count =
    (1 ≤ count)
    × (count ≤ 1000)
    × ((n : ℕ) → z ≡ some (pos n) → 1 ≤ n → n ≤ 1000 → count ≡ n)
    × (count ≢ 50 → z ≡ some (pos count))

count_of-IsCount :
    (blank : Bool) (z : Option ℤ) → (blank ≡ true → z ≡ none) → IsCount z (count_of blank z)
unfolding count_of
count_of-IsCount blank none h = (omega arith, omega arith, λ n e. cc, λ f. absurd (f refl))
count_of-IsCount blank (some (negsuc k)) h =
    (omega arith, omega arith, λ n e. cc, λ f. absurd (f refl))
count_of-IsCount true (some (pos k)) h = absurd (let e = h refl in cc)
count_of-IsCount false (some (pos k)) h =
    (ground arith, ground arith, λ n e low high. ground arith, λ other. ground arith)

blank_lem : (v : Text) → is_empty v ≡ true → parse_int64 v ≡ none
unfolding parse_int64
blank_lem [] e = refl
blank_lem (c ∷ v) e = cc

tail_count_lem : (v : Text) → IsCount (parse_int64 v) (tail_count v)
unfolding tail_count
tail_count_lem v = count_of-IsCount (is_empty v) (parse_int64 v) (blank_lem v)

-- The response for the last lines of the log.
abbrev pub tail_response : Plane → TailResult → Response
tail_response p (TailResult.lines lines) =
    write_json 200 (Body.tail_body lines (stat p.logger) (modules p.logger.enabled))
tail_response p TailResult.unavailable = error 500 Error.log_unavailable
tail_response p TailResult.failed = error 500 Error.log_failed

-- A request to tail the log is answered with what the logger returns for at least 1 and at most 1000
-- lines: for the number of the query if that is in this range, and for 50 for any other query. The
-- status is 200 with the lines, the size of the log and the modules, or 500 with the logger's error.
pub handle_log_tail_lem :
    (o : Outside) (r : Request) (p : Plane)
    → (count : ℕ) × IsCount (parse_int64 r.query_n) count
      × (handle_log_tail o r p
          ≡ tail_response p
              (tail o.reads (pos count) p.logger.cur_path p.logger.files p.logger.files))
unfolding handle_log_tail
handle_log_tail_lem o r p = (tail_count r.query_n, tail_count_lem r.query_n, go _)
  where
    go :
        (result : TailResult)
        → (elim result [
          | TailResult.lines lines ↦
              write_json 200 (Body.tail_body lines (stat p.logger) (modules p.logger.enabled))
          | TailResult.unavailable ↦ error 500 Error.log_unavailable
          | TailResult.failed ↦ error 500 Error.log_failed
        ])
          ≡ tail_response p result
    go (TailResult.lines lines) = refl
    go TailResult.unavailable = refl
    go TailResult.failed = refl
