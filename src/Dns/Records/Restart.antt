-- ===== src/Dns/Records/Restart.antt =====
-- dns/records.go: the records after a restart of the daemon.
use ztna_lab_appliance.Common.{
  ℕ, zero, suc, true, List, [], ◌∷◌, ◌++◌, none, some, Text, ◌≡◌, ◌≢◌, refl, arith, lookup, insert,
  erase, lookup-insert, Map, to_lower, to_lower_idem, Option-cases, inl, inr, text,
  trim_suffix_byte, Option, Bool-cases, is_empty, ◌||◌, ◌&&◌, not, text_eq, sym, ◌∙◌,
}
use ztna_lab_appliance.Net.{parse_ip}
use ztna_lab_appliance.Dns.Records
use ztna_lab_appliance.Dns.Records.{
  Store, World, Os, File, normalize, save_locked, lower, load_records, follow, lookup_a, hop,
  max_hops, Error, commit, contains,
}
use ztna_lab_appliance.Dns.Records.Disk.{saved, save_error, save_locked_atomic}
use ztna_lab_appliance.Dns.Records.Invariant.{Op, run_ops, store-commit}

-- Every key is in lower case.
abbrev pub HasLowerKeys : Map Text → Type 0
HasLowerKeys [] = Unit
HasLowerKeys ((k, v) ∷ m) = (to_lower k ≡ k) × HasLowerKeys m

insert-HasLowerKeys :
    (k v : Text) (m : Map Text) → to_lower k ≡ k → HasLowerKeys m → HasLowerKeys (insert k v m)
unfolding insert
insert-HasLowerKeys k v [] e h = (e, tt)
insert-HasLowerKeys k v (x ∷ m) e h = ground (arith, insert-HasLowerKeys k v m e h.1)

erase-HasLowerKeys : (k : Text) (m : Map Text) → HasLowerKeys m → HasLowerKeys (erase k m)
unfolding erase
erase-HasLowerKeys k [] h = tt
erase-HasLowerKeys k (x ∷ m) h = ground (arith, erase-HasLowerKeys k m h.1)

lower-HasLowerKeys : (m : Map Text) → HasLowerKeys (lower m)
unfolding lower
lower-HasLowerKeys [] = tt
lower-HasLowerKeys ((k, v) ∷ m) =
    insert-HasLowerKeys (to_lower k) v (lower m) (to_lower_idem k) (lower-HasLowerKeys m)

-- Reading a map whose keys are in lower case changes no entry.
lookup-lower : (k : Text) (m : Map Text) → HasLowerKeys m → lookup k (lower m) ≡ lookup k m
unfolding lower lookup
lookup-lower k [] h = refl
lookup-lower k ((j, v) ∷ m) h =
    ground (arith, h.0, lookup-insert (to_lower j) k v (lower m), lookup-lower k m h.1)

-- Two stores with the same entries resolve alike.
pub record SameRecords (s t : Store) : Type 0 where
  pub a : (k : Text) → lookup k s.a ≡ lookup k t.a
  pub cname : (k : Text) → lookup k s.cname ≡ lookup k t.cname

follow-SameRecords :
    (rounds : ℕ) (s t : Store) (name : Text) (chain : List Text)
    → SameRecords s t
    → follow rounds s name chain ≡ follow rounds t name chain
unfolding follow
follow-SameRecords zero s t name chain same = refl
follow-SameRecords (suc n) s t name chain same = elim (Option-cases (lookup name t.cname)) [
  | inl e ↦ ground (arith, same.a name, same.cname name)
  | inr (next, e) ↦ ground (
    arith,
    same.a name,
    same.cname name,
    follow-SameRecords n s t next (chain ++ hop name next ∷ []) same,
  )
]

-- Every key of both maps is in lower case.
abbrev pub IsLower : Store → Type 0
IsLower s = HasLowerKeys s.a × HasLowerKeys s.cname

normalize_lower : (name : Text) → to_lower (normalize name) ≡ normalize name
unfolding normalize
normalize_lower name = to_lower_idem (trim_suffix_byte b'.' name)

add_a-IsLower :
    (os : Os) (name ip : Text) (w : World)
    → IsLower w.store
    → IsLower (Records.add_a os name ip w).1.store
unfolding Records.add_a
add_a-IsLower os name ip w h =
    let key = normalize name in
    let lowered = normalize_lower name in
    ground (
      arith,
      store-commit os (text "record added: " ++ key ++ text " A " ++ ip) (record w {
        store = record w.store { a = insert key ip w.store.a; cname = erase key w.store.cname };
      }),
      insert-HasLowerKeys key ip w.store.a lowered h.0,
      erase-HasLowerKeys key w.store.cname h.1,
    )

add_cname-IsLower :
    (os : Os) (alias target : Text) (w : World)
    → IsLower w.store
    → IsLower (Records.add_cname os alias target w).1.store
unfolding Records.add_cname
add_cname-IsLower os alias target w h =
    let key = normalize alias in
    let value = normalize target in
    let lowered = normalize_lower alias in
    ground (
      arith,
      store-commit os (text "record added: " ++ key ++ text " CNAME " ++ value) (record w {
        store = record w.store { cname = insert key value w.store.cname; a = erase key w.store.a };
      }),
      insert-HasLowerKeys key value w.store.cname lowered h.1,
      erase-HasLowerKeys key w.store.a h.0,
    )

remove-IsLower :
    (os : Os) (name : Text) (w : World)
    → IsLower w.store
    → IsLower (Records.remove os name w).1.store
unfolding Records.remove
remove-IsLower os name w h =
    let key = normalize name in
    ground (
      arith,
      store-commit os (text "record removed: " ++ key) (record w {
        store = record w.store { a = erase key w.store.a; cname = erase key w.store.cname };
      }),
      erase-HasLowerKeys key w.store.a h.0,
      erase-HasLowerKeys key w.store.cname h.1,
    )

run_ops-IsLower :
    (ops : List (Os × Op)) (w : World) → IsLower w.store → IsLower (run_ops ops w).store
unfolding run_ops
run_ops-IsLower [] w h = h
run_ops-IsLower ((os, Op.put_a name ip) ∷ ops) w h =
    run_ops-IsLower ops (Records.add_a os name ip w).1 (add_a-IsLower os name ip w h)
run_ops-IsLower ((os, Op.put_cname alias target) ∷ ops) w h =
    run_ops-IsLower ops (Records.add_cname os alias target w).1
      (add_cname-IsLower os alias target w h)
run_ops-IsLower ((os, Op.drop name) ∷ ops) w h =
    run_ops-IsLower ops (Records.remove os name w).1 (remove-IsLower os name w h)

-- Loading a file with the two maps of a store, all keys in lower case, gives back that store.
load_saved :
    (os : Os) (path : Text) (s : Store) (w : World)
    → os.readable ≡ true
    → IsLower s
    → lookup path w.disk ≡ some (saved s)
    → ((load_records os path w).0 ≡ none) × SameRecords (load_records os path w).1.store s
unfolding load_records
load_saved os path s w readable lowered on_disk = (
  ground arith,
  record {
    a = λ k. ground (arith, lookup-lower k s.a lowered.0);
    cname = λ k. ground (arith, lookup-lower k s.cname lowered.1);
  },
)

-- An addition or a removal with its error.
unfoldable pub run_op : Os → Op → World → Option Error × World
run_op os (Op.put_a name ip) w = Records.add_a os name ip w
run_op os (Op.put_cname alias target) w = Records.add_cname os alias target w
run_op os (Op.drop name) w = Records.remove os name w

run_op-IsLower :
    (os : Os) (op : Op) (w : World) → IsLower w.store → IsLower (run_op os op w).1.store
unfolding run_op
run_op-IsLower os (Op.put_a name ip) w h = add_a-IsLower os name ip w h
run_op-IsLower os (Op.put_cname alias target) w h = add_cname-IsLower os alias target w h
run_op-IsLower os (Op.drop name) w h = remove-IsLower os name w h

-- The file of the records holds those in memory.
abbrev pub IsOnDisk : World → Type 0
IsOnDisk w = lookup w.store.path w.disk ≡ some (saved w.store)

-- If it has no error, the file is as the state says.
abbrev IsSaved : Option Error × World → Type 0
IsSaved r = r.0 ≡ none → IsOnDisk r.1

commit-IsSaved :
    (os : Os) (message : Text) (w : World) → w.store.path ≢ [] → IsSaved (commit os message w)
unfolding commit
commit-IsSaved os message w path succeeded = elim (Option-cases (save_locked os w).0) [
  | inr (e, failed) ↦ absurd (ground arith)
  | inl ok ↦
      let (failure, on_disk, _) = save_locked_atomic os w [] path in
      let saves : save_error os ≡ none = sym failure ∙ ok in
      ground (arith, rw saves at on_disk, store-commit os message w)
]

add_a-IsSaved :
    (os : Os) (name ip : Text) (w : World)
    → w.store.path ≢ []
    → IsSaved (Records.add_a os name ip w)
unfolding Records.add_a
add_a-IsSaved os name ip w path =
    let key = normalize name in
    let next = record w {
      store = record w.store { a = insert key ip w.store.a; cname = erase key w.store.cname };
    } in
    elim (Bool-cases (is_empty key)) [
      | inl unnamed ↦ λ e. ground arith
      | inr named ↦ elim (Option-cases (parse_ip ip)) [
        | inl invalid ↦ λ e. ground arith
        | inr (address, valid) ↦
            rw (named, valid)
              (commit-IsSaved os (text "record added: " ++ key ++ text " A " ++ ip) next path)
      ]
    ]

add_cname-IsSaved :
    (os : Os) (alias target : Text) (w : World)
    → w.store.path ≢ []
    → IsSaved (Records.add_cname os alias target w)
unfolding Records.add_cname
add_cname-IsSaved os alias target w path =
    let key = normalize alias in
    let value = normalize target in
    let next = record w {
      store = record w.store { cname = insert key value w.store.cname; a = erase key w.store.a };
    } in
    elim (Bool-cases (is_empty key || is_empty value)) [
      | inl unnamed ↦ λ e. ground arith
      | inr named ↦ elim (Bool-cases (text_eq key value)) [
        | inl same ↦ λ e. ground arith
        | inr other ↦
            rw (named, other)
              (commit-IsSaved os (text "record added: " ++ key ++ text " CNAME " ++ value) next
                path)
      ]
    ]

remove-IsSaved :
    (os : Os) (name : Text) (w : World) → w.store.path ≢ [] → IsSaved (Records.remove os name w)
unfolding Records.remove
remove-IsSaved os name w path =
    let key = normalize name in
    let next = record w {
      store = record w.store { a = erase key w.store.a; cname = erase key w.store.cname };
    } in
    elim (Bool-cases (not (contains key w.store.a) && not (contains key w.store.cname))) [
      | inl unknown ↦ λ e. ground arith
      | inr known ↦ rw known (commit-IsSaved os (text "record removed: " ++ key) next path)
    ]

run_op-IsSaved : (os : Os) (op : Op) (w : World) → w.store.path ≢ [] → IsSaved (run_op os op w)
unfolding run_op
run_op-IsSaved os (Op.put_a name ip) w path = add_a-IsSaved os name ip w path
run_op-IsSaved os (Op.put_cname alias target) w path = add_cname-IsSaved os alias target w path
run_op-IsSaved os (Op.drop name) w path = remove-IsSaved os name w path

-- After any additions and removals, from a store whose keys are in lower case and that has a path, one
-- more that returns no error leaves a file that a restart reads back: `LoadRecords` on the same path
-- succeeds, whatever was in memory before, and every name then resolves as it did.
pub restart_resolves :
    (ops : List (Os × Op)) (w : World) (os os' : Os) (op : Op) (fresh : Store)
    → IsLower w.store
    → (run_ops ops w).store.path ≢ []
    → os'.readable ≡ true
    → let (error, last) = run_op os op (run_ops ops w) in
      error ≡ none
      → let (failure, loaded) = load_records os' last.store.path (record last { store = fresh }) in
        (failure ≡ none) × ((name : Text) → lookup_a loaded.store name ≡ lookup_a last.store name)
unfolding lookup_a
restart_resolves ops w os os' op fresh lowered path readable succeeded =
    let last = (run_op os op (run_ops ops w)).1 in
    let (loads, same) =
      load_saved os' last.store.path last.store (record last { store = fresh }) readable
        (run_op-IsLower os op (run_ops ops w) (run_ops-IsLower ops w lowered))
        (run_op-IsSaved os op (run_ops ops w) path succeeded) in
    (loads, λ name. follow-SameRecords max_hops _ _ (normalize name) [] same)
