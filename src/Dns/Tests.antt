-- ===== src/Dns/Tests.antt =====
-- dns/records.go, dns/server.go: the theorems at concrete stores, queries and calls.
use ztna_lab_appliance.Common.{
  erase, insert, ◌<◌, ◌&&◌, ◌||◌, ◌==◌, true, false, List, [], ◌∷◌, ◌++◌, Option, none, some, Text,
  text, text_eq, text_eq_iff, to_lower, lower_byte, trim_suffix_byte, inl, inr, Bool-cases, ◌≡◌,
  ◌≢◌, ◌↔◌, refl, arith, lookup, length,
}
use ztna_lab_appliance.Net.{parse_ip}
use ztna_lab_appliance.Service.{Call, run_calls, spec_run}
use ztna_lab_appliance.Dns.Records as Records
use ztna_lab_appliance.Dns.Records.{
  Store, World, Os, Write, File, normalize, add_a, add_cname, remove, contains, lookup_a, hop,
  max_hops, save_locked, load_records, tmp_path,
}
use ztna_lab_appliance.Dns.Records.Invariant.{IsValid, Op, run_ops, run_ops-IsValid}
use ztna_lab_appliance.Dns.Records.Lookup.{
  Resolves, found, via, answer, lookup_a_iff, lookup_a_closed,
}
use ztna_lab_appliance.Dns.Records.Disk.{save_error, saved_or_old, save_locked_atomic}
use ztna_lab_appliance.Dns.Records.Restart.{run_op, restart_resolves}
use ztna_lab_appliance.Dns.Records.Requests.{
  persist_error, add_a_resolves, add_cname-Resolves, remove_lem,
}
use ztna_lab_appliance.Dns.Server.{
  Question, Mdns, Exchange, Sent, type_a, type_cname, a_rr, v4_bytes, handle,
}
use ztna_lab_appliance.Dns.Server.Answers.{
  Walk, HasPlainTargets, hop_rrs, IsAuthoritative, upstream, handle_local, handle_upstream,
}
use ztna_lab_appliance.Dns.Server.Lifecycle.{
  Server, IsConsistent, is_running, listen_error, dns_service, dns_calls_refine,
}

abbrev address : Text
address = text "10.0.0.5"

abbrev empty_world : World
empty_world = record {
  store = record { a = []; cname = []; path = text "/data/r"; loaded = true };
  disk = [];
  log = [];
}

abbrev lab : Store
lab = record {
  a = (text "b", address) ∷ [];
  cname = (text "a", text "b") ∷ [];
  path = text "/data/r";
  loaded = true;
}

abbrev lab_world : World
lab_world = record { store = lab; disk = []; log = [] }

abbrev working : Os
working = record { readable = true; write = Write.written; renames = true }

abbrev full_disk : Os
full_disk = record { readable = true; write = Write.refused; renames = true }

abbrev ops : List (Os × Op)
ops = (working, Op.put_a (text "B.") address) ∷ (full_disk, Op.put_cname (text "a") (text "b")) ∷ []

ne : (a b : Text) → text_eq a b ≡ false → a ≢ b
ne a b h e = ground (arith, text_eq_iff a b)

a-Resolves : Resolves lab (text "a") (hop (text "a") (text "b") ∷ []) address
unfolding lookup text text_eq
a-Resolves = via refl refl (found refl)

empty_world-IsValid : IsValid empty_world.store
unfolding lookup
empty_world-IsValid = record {
  disjoint = λ k. inl refl;
  named_a = refl;
  named_cname = refl;
  addresses = λ k ip e. cc;
  no_self_alias = λ k t e. cc;
}

lookup_a_iff_example :
    (lookup_a lab (text "A.") ≡ answer address (hop (text "a") (text "b") ∷ [])) ↔ (
      Resolves lab (normalize (text "A.")) (hop (text "a") (text "b") ∷ []) address
      × (length (hop (text "a") (text "b") ∷ []) < max_hops))
lookup_a_iff_example = lookup_a_iff lab (text "A.") address (hop (text "a") (text "b") ∷ [])

abbrev cycle : Store
cycle = record {
  a = [];
  cname = (text "a", text "b") ∷ (text "b", text "a") ∷ [];
  path = [];
  loaded = true;
}

lookup_a_closed_example : (lookup_a cycle (text "a")).ok ≡ false
unfolding lookup
lookup_a_closed_example =
    lookup_a_closed cycle (λ k. Unit) (λ k p. refl) (λ k next p e. tt) (text "a") tt

run_ops-IsValid_example : IsValid (run_ops ops empty_world).store
run_ops-IsValid_example = run_ops-IsValid ops empty_world empty_world-IsValid

save_locked_atomic_example :
    let (failure, w') = save_locked working lab_world in
    (failure ≡ save_error working)
    × (lookup (text "/data/r") w'.disk
        ≡ saved_or_old (save_error working) lab (lookup (text "/data/r") []))
    × (text "/etc" ≢ text "/data/r"
        → text "/etc" ≢ tmp_path (text "/data/r")
        → lookup (text "/etc") w'.disk ≡ lookup (text "/etc") [])
unfolding text
save_locked_atomic_example = save_locked_atomic working lab_world (text "/etc") (λ e. cc)

restart_resolves_example :
    let (error, last) = run_op working (Op.drop (text "a")) (run_ops ops empty_world) in
    let (failure, loaded) =
      load_records working last.store.path (record last { store = empty_world.store }) in
    (failure ≡ none) × ((name : Text) → lookup_a loaded.store name ≡ lookup_a last.store name)
unfolding text text_eq run_ops run_op remove lookup erase insert add_a add_cname Records.commit
    save_locked parse_ip normalize to_lower trim_suffix_byte lower_byte
restart_resolves_example =
    restart_resolves ops empty_world working working (Op.drop (text "a")) empty_world.store (tt, tt)
      (ne _ [] refl) refl refl

add_a_resolves_example :
    let (failure, w') = add_a full_disk (text "B.") address empty_world in
    (failure ≡ persist_error full_disk empty_world.store)
    × ((spelling : Text)
        → normalize spelling ≡ normalize (text "B.")
        → lookup_a w'.store spelling ≡ answer address [])
    × ((k : Text)
        → k ≢ normalize (text "B.")
        → (lookup k w'.store.a ≡ lookup k []) × (lookup k w'.store.cname ≡ lookup k []))
unfolding text normalize parse_ip to_lower trim_suffix_byte
add_a_resolves_example = add_a_resolves full_disk (text "B.") address empty_world refl (λ e. cc)

add_cname-Resolves_example :
    let (failure, w') = add_cname working (text "C") (text "a") lab_world in
    (failure ≡ persist_error working lab)
    × (lookup (normalize (text "C")) w'.store.cname ≡ some (normalize (text "a")))
    × (lookup (normalize (text "C")) w'.store.a ≡ none)
    × ((k : Text)
        → k ≢ normalize (text "C")
        → (lookup k w'.store.a ≡ lookup k lab.a) × (lookup k w'.store.cname ≡ lookup k lab.cname))
    × ((spelling ip : Text) (chain : List Text)
        → normalize spelling ≡ normalize (text "C")
        → Resolves w'.store (normalize (text "a")) chain ip
        → length chain < 7
        → lookup_a w'.store spelling
          ≡ answer ip (hop (normalize (text "C")) (normalize (text "a")) ∷ chain))
unfolding text text_eq normalize to_lower trim_suffix_byte lower_byte
add_cname-Resolves_example =
    add_cname-Resolves working (text "C") (text "a") lab_world refl refl (ne _ _ refl)

remove_example :
    let key = normalize (text "A") in
    let (failure, w') = remove working (text "A") lab_world in
    let known = contains key lab.a || contains key lab.cname in
    (known ≡ false → (failure ≡ some (Records.Error.not_found key)) × (w' ≡ lab_world))
    × (known ≡ true
        → (failure ≡ persist_error working lab)
          × (lookup key w'.store.a ≡ none)
          × (lookup key w'.store.cname ≡ none)
          × ((k : Text)
              → k ≢ key
              → (lookup k w'.store.a ≡ lookup k lab.a)
                × (lookup k w'.store.cname ≡ lookup k lab.cname)))
remove_example = remove_lem working (text "A") lab_world

-- Messages are questions, and the upstream server answers every query with itself.
abbrev simple : Mdns (List Question)
simple = record { question = λ r. r; type_to_string = λ t. text "TYPE" }

abbrev echo : List Question → Exchange (List Question)
echo r = Exchange.response r

abbrev ask_a : List Question
ask_a = record { name = text "a."; qtype = 1 } ∷ []

lab-HasPlainTargets : HasPlainTargets lab
unfolding lookup text
lab-HasPlainTargets k next e = elim (Bool-cases (text_eq (text "a") k)) [
  | inl same ↦ let target : text "b" ≡ next = ground arith in rw (← target) (λ f. cc, tt)
  | inr other ↦ absurd (ground arith)
]

handle_local_example :
    (hops : List (Text × Text)) × Walk lab (normalize (normalize (text "a."))) hops address
    × ((handle simple echo lab ask_a (text "c")).0
        ≡ Sent.replied (record {
          request = ask_a;
          authoritative = true;
          answer = hop_rrs hops ++ a_rr (text "a.") (v4_bytes address) ∷ [];
        }))
unfolding normalize text to_lower trim_suffix_byte lower_byte
handle_local_example =
    handle_local simple echo lab ask_a (record { name = text "a."; qtype = 1 }) [] (text "c")
      address (hop (text "a") (text "b") ∷ []) refl refl lab-HasPlainTargets (λ e. cc, tt)
      a-Resolves (omega arith)

handle_upstream_example :
    (ask_a ≡ [] → handle simple echo lab ask_a (text "c") ≡ (Sent.failed ask_a, []))
    × ((q : Question) (more : List Question)
        → ask_a ≡ q ∷ more
        → let local_a = q.qtype == type_a && (lookup_a lab (normalize q.name)).ok in
          let local_cname = q.qtype == type_cname && contains (normalize q.name) lab.cname in
          (local_a || local_cname ≡ false
            → (handle simple echo lab ask_a (text "c")).0 ≡ upstream simple echo lab ask_a)
          × (local_a || local_cname ≡ true
              → IsAuthoritative ask_a (handle simple echo lab ask_a (text "c")).0))
handle_upstream_example = handle_upstream simple echo lab ask_a (text "c")

abbrev stopped : Server
stopped = record { addr = text ":53"; upstream = text "1.1.1.1:53"; srv = false; running = false }

abbrev calls : List (Call (Option Text))
calls = Call.start_call (some (text "in use")) ∷ Call.start_call none ∷ Call.stop_call none ∷ []

dns_calls_refine_example :
    (t : Server) × (run_calls dns_service calls stopped
      ≡ some (t, (spec_run listen_error calls (is_running stopped)).1))
    × (is_running t ≡ (spec_run listen_error calls (is_running stopped)).0)
    × IsConsistent t
dns_calls_refine_example = dns_calls_refine calls stopped refl
