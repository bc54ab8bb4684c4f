-- ===== src/Httpd/Tests.antt =====
-- httpd/server.go, httpd/geoip.go: the theorems at concrete calls and requests.
use ztna_lab_appliance.Common.{
  ℕ, zero, suc, true, false, List, [], ◌∷◌, none, some, Text, text, trim_prefix, parse_int64, map,
  text_eq, text_leb, split_byte, trim_space, ◌≤◌, length, lookup, ap, ◌≡◌, ◌↔◌, false, refl, arith,
  inl, inr,
}
use ztna_lab_appliance.Service.{Call}
use ztna_lab_appliance.Httpd.Lifecycle.{Server}
use ztna_lab_appliance.Httpd.Schedules.{Event, Follows, run_events, http_events_refine}
use ztna_lab_appliance.Net.{parse_ip, to_4}
use ztna_lab_appliance.Httpd.Geo.{
  Answer, blank, is_private_ip, lookup_geo, lookup_geo_again, lookup_geo_private,
}
use ztna_lab_appliance.Httpd.Inspector.{Library, ip_from_addr, forward_chain, build_inspector_data}
use ztna_lab_appliance.Httpd.Inspector.Page.{EndsWith, listed, build_inspector_data_lem}
use ztna_lab_appliance.Httpd.Inspector.Groups.{
  Headers, HeaderEntry, sort_headers, is_in, shortened, group, group_headers, total_count,
}
use ztna_lab_appliance.Httpd.Inspector.Grouping.{keep, listing, is_forwarding, is_auth, is_standard}
use ztna_lab_appliance.Httpd.Server.{Request, Sends, handle_download, handle_download_lem}

abbrev stopped : Server
stopped = record { addr = text ":80"; srv = false; running = false; pending = 0 }

abbrev events : List Event
events =
    Event.called (Call.start_call (some (text "in use")))
    ∷ Event.called (Call.start_call none)
    ∷ Event.called (Call.start_call none)
    ∷ Event.scheduled
    ∷ Event.called (Call.stop_call none)
    ∷ []

http_events_refine_example : Follows (text ":80") events false (run_events events stopped)
http_events_refine_example = http_events_refine events stopped refl refl (refl, tt)

-- A stop before the goroutine of the start has run: the goroutine calls `Serve` on a nil pointer.
early_stop_panics :
    run_events
      (Event.called (Call.start_call none)
        ∷ Event.called (Call.stop_call none)
        ∷ Event.scheduled
        ∷ [])
      stopped
    ≡ none
unfolding run_events
early_stop_panics = refl

abbrev zeros : ℕ → Text
zeros zero = []
zeros (suc n) = 0 ∷ zeros n

length-zeros : (n : ℕ) → length (zeros n) ≡ n
length-zeros zero = refl
length-zeros (suc n) = ap suc (length-zeros n)

abbrev request : Request
request = record {
  verb = text "GET";
  path = text "/download/70000";
  header = λ name. [];
  remote_addr = text "10.0.0.1:5000";
  user_agent = [];
}

handle_download_example :
    Sends
      (parse_int64 (trim_prefix (text "/download/70000") (text "/download/")))
      (handle_download (λ i n. zeros n) (λ i. true) request)
handle_download_example =
    handle_download_lem (λ i n. zeros n) (λ i. true) request (λ i n. length-zeros n) (λ i. refl)

abbrev somewhere : Answer
somewhere = Answer.place (record blank { ip = text "8.8.8.8"; country = text "US" }) 15169

lookup_geo_again_example :
    let found = lookup_geo 5 7 Answer.unreadable somewhere (text "8.8.8.8") [] in
    lookup_geo 1000 2000 Answer.unreadable Answer.unreadable (text "8.8.8.8") found.cache
    ≡ record { info = found.info; cache = found.cache; asked = false }
unfolding lookup_geo text parse_ip to_4 lookup
lookup_geo_again_example =
    lookup_geo_again 5 1000 7 2000 Answer.unreadable somewhere Answer.unreadable Answer.unreadable
      (text "8.8.8.8") [] refl (omega arith)

lookup_geo_private_example :
    let found = lookup_geo 5 7 somewhere somewhere (text "172.20.0.1") [] in
    (found.asked ≡ false) × (found.cache ≡ [])
unfolding is_private_ip text parse_ip to_4
lookup_geo_private_example =
    lookup_geo_private 5 7 somewhere somewhere (text "172.20.0.1") []
      (inr (_, refl, inl (172, 20, 0, 1, refl, inr (inr (inl (refl, omega arith, omega arith))))))

abbrev headers : Headers
headers =
    (text "Via", text "1.1 gw" ∷ [])
    ∷ (text "Authorization", text "Basic abc" ∷ [])
    ∷ (text "Accept", text "a" ∷ text "b" ∷ [])
    ∷ []

abbrev library : Library
library = record { split_host_port = λ addr. some (text "10.0.0.1"); canonical = λ k. k }

abbrev listed_request : Request
listed_request = record request { header = λ k. text "1.1.1.1, 10.0.0.1" }

build_inspector_data_example :
    let page = build_inspector_data library (λ ip. blank) none headers listed_request in
    let all = listing (λ k. k) (sort_headers headers) in
    EndsWith (text "10.0.0.1") (listed listed_request) page.forward_chain
    × (page.header_groups
        ≡ group (text "Forwarding") (text "info") (keep is_forwarding all)
          ∷ group (text "Authentication") (text "success") (map shortened (keep is_auth all))
          ∷ group (text "Standard") (text "neutral") (keep is_standard all)
          ∷ [])
    × (page.header_total ≡ 4)
    × ((e : HeaderEntry)
        → e.name ≡ text "Authorization"
        → (is_auth e ≡ true) × (length (shortened e).value ≤ 60))
    × ((page.has_identity ≡ false)
        ↔ ((page.auth_user ≡ []) × (page.auth_method ≡ []) × (page.gateway ≡ [])))
unfolding ip_from_addr
build_inspector_data_example =
    build_inspector_data_lem library (λ ip. blank) none headers listed_request

total_of_headers : total_count (group_headers (λ k. k) headers) ≡ 4
unfolding total_count group_headers sort_headers is_in text text_eq text_leb
total_of_headers = refl

forwarded :
    forward_chain (λ addr. some (text "10.0.0.1")) listed_request
    ≡ text "1.1.1.1" ∷ text "10.0.0.1" ∷ []
unfolding forward_chain text text_eq split_byte trim_space
forwarded = refl
