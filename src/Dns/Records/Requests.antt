-- ===== src/Dns/Records/Requests.antt =====
-- dns/records.go: what AddA, AddCNAME and Remove do to the entries of every name.
use ztna_lab_appliance.Common.{
  true, false, List, [], ◌∷◌, ◌++◌, Option, none, some, Text, text, ◌≡◌, ◌≢◌, refl, arith, lookup,
  insert, erase, lookup-insert, lookup-erase, text_eq_refl, text_eq_iff, is_empty, if◌then◌else◌,
  ◌||◌, length, ◌<◌,
}
use ztna_lab_appliance.Net.{parse_ip}
use ztna_lab_appliance.Dns.Records.{
  Store, World, Os, Error, normalize, save_locked, commit, add_a, add_cname, remove, lookup_a,
  contains, hop,
}
use ztna_lab_appliance.Dns.Records.Disk.{save_error}
use ztna_lab_appliance.Dns.Records.Lookup.{Resolves, via, answer, found, lookup_a_iff}

-- The error of a mutation that was accepted: a store with no path is kept in memory only.
abbrev pub persist_error : Os → Store → Option Error
persist_error os s = if is_empty s.path then none else save_error os

error-commit : (os : Os) (m : Text) (w : World) → (commit os m w).0 ≡ persist_error os w.store
unfolding commit save_locked
error-commit os m w = ground arith

store-commit : (os : Os) (m : Text) (w : World) → (commit os m w).1.store ≡ w.store
unfolding commit save_locked
store-commit os m w = ground arith

abbrev with_a : Text → Text → Store → Store
with_a key ip s = record s { a = insert key ip s.a; cname = erase key s.cname }

abbrev with_cname : Text → Text → Store → Store
with_cname key value s = record s { cname = insert key value s.cname; a = erase key s.a }

abbrev without : Text → Store → Store
without key s = record s { a = erase key s.a; cname = erase key s.cname }

-- The error and the store after a commit of the store `s`.
commit_lem :
    (os : Os) (m : Text) (w : World) (s : Store)
    → s.path ≡ w.store.path
    → ((commit os m (record w { store = s })).0 ≡ persist_error os w.store)
      × ((commit os m (record w { store = s })).1.store ≡ s)
unfolding commit save_locked
commit_lem os m w s e = ground arith

add_a_accepted :
    (os : Os) (name ip : Text) (w : World)
    → is_empty (normalize name) ≡ false
    → parse_ip ip ≢ none
    → ((add_a os name ip w).0 ≡ persist_error os w.store)
      × ((add_a os name ip w).1.store ≡ with_a (normalize name) ip w.store)
unfolding add_a
add_a_accepted os name ip w named good = ground (
  arith,
  commit_lem os (text "record added: " ++ normalize name ++ text " A " ++ ip) w
      (with_a (normalize name) ip w.store) refl,
)

-- A name that is not empty and an address that `net.ParseIP` accepts: afterwards every spelling of
-- the name (letter case, a final dot) resolves to the address with no CNAME hop, and the entries of
-- all other names are unchanged. This holds also when the records could not be saved, and the
-- operation then reports that failure and nothing else.
pub add_a_resolves :
    (os : Os) (name ip : Text) (w : World)
    → is_empty (normalize name) ≡ false
    → parse_ip ip ≢ none
    → let (failure, w') = add_a os name ip w in
      (failure ≡ persist_error os w.store)
      × ((spelling : Text)
          → normalize spelling ≡ normalize name
          → lookup_a w'.store spelling ≡ answer ip [])
      × ((k : Text)
          → k ≢ normalize name
          → (lookup k w'.store.a ≡ lookup k w.store.a)
            × (lookup k w'.store.cname ≡ lookup k w.store.cname))
add_a_resolves os name ip w named good =
    let key = normalize name in
    let (failure, same) = add_a_accepted os name ip w named good in
    (
      failure,
      λ spelling e.
          (lookup_a_iff _ spelling ip []).1
            (found (rw (e, same) (simp (lookup-insert, text_eq_refl))), omega arith),
      λ k other. rw same (
        ground (arith, lookup-insert key k ip w.store.a, text_eq_iff key k),
        ground (arith, lookup-erase key k w.store.cname, text_eq_iff key k),
      ),
    )

add_cname_accepted :
    (os : Os) (alias target : Text) (w : World)
    → is_empty (normalize alias) ≡ false
    → is_empty (normalize target) ≡ false
    → normalize alias ≢ normalize target
    → ((add_cname os alias target w).0 ≡ persist_error os w.store)
      × ((add_cname os alias target w).1.store
          ≡ with_cname (normalize alias) (normalize target) w.store)
unfolding add_cname
add_cname_accepted os alias target w named aimed other =
    let key = normalize alias in
    let value = normalize target in
    ground (
      arith,
      text_eq_iff key value,
      commit_lem os (text "record added: " ++ key ++ text " CNAME " ++ value) w
          (with_cname key value w.store) refl,
    )

-- Two names that are not empty and not equal: afterwards the alias has a CNAME to the target and no
-- A record, and the entries of all other names are unchanged; a target that resolves through fewer
-- than seven hops makes every spelling of the alias resolve to the same address, with the new hop
-- in front. The error, if any, is that of the save.
pub add_cname-Resolves :
    (os : Os) (alias target : Text) (w : World)
    → is_empty (normalize alias) ≡ false
    → is_empty (normalize target) ≡ false
    → normalize alias ≢ normalize target
    → let (failure, w') = add_cname os alias target w in
      (failure ≡ persist_error os w.store)
      × (lookup (normalize alias) w'.store.cname ≡ some (normalize target))
      × (lookup (normalize alias) w'.store.a ≡ none)
      × ((k : Text)
          → k ≢ normalize alias
          → (lookup k w'.store.a ≡ lookup k w.store.a)
            × (lookup k w'.store.cname ≡ lookup k w.store.cname))
      × ((spelling ip : Text) (chain : List Text)
          → normalize spelling ≡ normalize alias
          → Resolves w'.store (normalize target) chain ip
          → length chain < 7
          → lookup_a w'.store spelling
            ≡ answer ip (hop (normalize alias) (normalize target) ∷ chain))
add_cname-Resolves os alias target w named aimed other =
    let key = normalize alias in
    let value = normalize target in
    let (failure, same) = add_cname_accepted os alias target w named aimed other in
    let in_cname = lookup-insert key key value w.store.cname in
    let in_a = lookup-erase key key w.store.a in
    (
      failure,
      rw same (ground (arith, in_cname, text_eq_refl key)),
      rw same (ground (arith, in_a, text_eq_refl key)),
      λ k ne. rw same (
        ground (arith, lookup-erase key k w.store.a, text_eq_iff key k),
        ground (arith, lookup-insert key k value w.store.cname, text_eq_iff key k),
      ),
      λ spelling ip chain e r short. (lookup_a_iff _ spelling ip _).1 (
        rw e (
            via (rw same (ground (arith, in_a, text_eq_refl key)))
              (rw same (ground (arith, in_cname, text_eq_refl key))) r),
        omega arith,
      ),
    )

-- `Remove` fails with `not found`, changing nothing, exactly when the name has no record of either
-- kind. Otherwise the name has no record afterwards, those of all other names are unchanged, and
-- the error, if any, is that of the save.
pub remove_lem :
    (os : Os) (name : Text) (w : World)
    → let key = normalize name in
      let (failure, w') = remove os name w in
      let known = contains key w.store.a || contains key w.store.cname in
      (known ≡ false → (failure ≡ some (Error.not_found key)) × (w' ≡ w))
      × (known ≡ true
          → (failure ≡ persist_error os w.store)
            × (lookup key w'.store.a ≡ none)
            × (lookup key w'.store.cname ≡ none)
            × ((k : Text)
                → k ≢ key
                → (lookup k w'.store.a ≡ lookup k w.store.a)
                  × (lookup k w'.store.cname ≡ lookup k w.store.cname)))
unfolding remove
remove_lem os name w =
    let key = normalize name in
    let lem = commit_lem os (text "record removed: " ++ key) w (without key w.store) refl in
    let self_a = lookup-erase key key w.store.a in
    let self_cname = lookup-erase key key w.store.cname in
    (
      λ unknown. (ground arith, ground arith),
      λ known. (
        ground (arith, lem),
        ground (arith, lem, self_a, text_eq_refl key),
        ground (arith, lem, self_cname, text_eq_refl key),
        λ k ne. (
          ground (arith, lem, lookup-erase key k w.store.a, text_eq_iff key k),
          ground (arith, lem, lookup-erase key k w.store.cname, text_eq_iff key k),
        ),
      ),
    )
