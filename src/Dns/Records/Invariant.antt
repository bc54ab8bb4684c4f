-- ===== src/Dns/Records/Invariant.antt =====
-- dns/records.go: what AddA, AddCNAME and Remove keep true of the store, whatever the disk does.
use ztna_lab_appliance.Common.{
  Bool, not, ◌&&◌, ◌||◌, List, [], ◌∷◌, none, some, Text, ◌≡◌, ◌≢◌, ◌⊎◌, inl, inr, arith, lookup,
  lookup-insert, lookup-erase, text_eq, text_eq_iff, insert, erase, is_empty, Bool-cases,
  Option-cases,
}
use ztna_lab_appliance.Net.{parse_ip}
use ztna_lab_appliance.Dns.Records
use ztna_lab_appliance.Dns.Records.{
  Store, World, Os, Error, normalize, save_locked, commit, add_a, add_cname, remove, contains,
}

-- No name has both an A and a CNAME record, no record has the empty name, every A record holds an
-- address that `net.ParseIP` accepts, and no CNAME points at itself.
pub record IsValid (s : Store) : Type 0 where
  pub disjoint : (k : Text) → (lookup k s.a ≡ none) ⊎ (lookup k s.cname ≡ none)
  pub named_a : lookup [] s.a ≡ none
  pub named_cname : lookup [] s.cname ≡ none
  pub addresses : (k ip : Text) → lookup k s.a ≡ some ip → parse_ip ip ≢ none
  pub no_self_alias : (k target : Text) → lookup k s.cname ≡ some target → k ≢ target

-- Saving and logging leave the store alone.
pub store-commit : (os : Os) (m : Text) (w : World) → (commit os m w).1.store ≡ w.store
unfolding commit save_locked
store-commit os m w = ground arith

module _ (s : Store) (v : IsValid s) where
  set_a-IsValid :
      (key ip : Text)
      → is_empty key ≢ Bool.true
      → parse_ip ip ≢ none
      → IsValid (record s { a = insert key ip s.a; cname = erase key s.cname })
  set_a-IsValid key ip named good = record {
    disjoint =
        λ k. ground (arith, lookup-insert key k ip s.a, lookup-erase key k s.cname, v.disjoint k);
    named_a = ground (arith, lookup-insert key [] ip s.a, text_eq_iff key [], v.named_a);
    named_cname = ground (arith, lookup-erase key [] s.cname, v.named_cname);
    addresses = λ k x e. ground (arith, lookup-insert key k ip s.a, v.addresses k x);
    no_self_alias = λ k t e. ground (arith, lookup-erase key k s.cname, v.no_self_alias k t);
  }

  set_cname-IsValid :
      (key value : Text)
      → is_empty key ≢ Bool.true
      → key ≢ value
      → IsValid (record s { cname = insert key value s.cname; a = erase key s.a })
  set_cname-IsValid key value named other = record {
    disjoint = λ k.
        ground (arith, lookup-insert key k value s.cname, lookup-erase key k s.a, v.disjoint k);
    named_a = ground (arith, lookup-erase key [] s.a, v.named_a);
    named_cname = ground (arith, lookup-insert key [] value s.cname, text_eq_iff key []);
    addresses = λ k x e. ground (arith, lookup-erase key k s.a, v.addresses k x);
    no_self_alias = λ k t e.
        ground (arith, lookup-insert key k value s.cname, text_eq_iff key k, v.no_self_alias k t);
  }

  drop-IsValid : (key : Text) → IsValid (record s { a = erase key s.a; cname = erase key s.cname })
  drop-IsValid key = record {
    disjoint =
        λ k. ground (arith, lookup-erase key k s.a, lookup-erase key k s.cname, v.disjoint k);
    named_a = ground (arith, lookup-erase key [] s.a, v.named_a);
    named_cname = ground (arith, lookup-erase key [] s.cname, v.named_cname);
    addresses = λ k x e. ground (arith, lookup-erase key k s.a, v.addresses k x);
    no_self_alias = λ k t e. ground (arith, lookup-erase key k s.cname, v.no_self_alias k t);
  }

pub add_a-IsValid :
    (os : Os) (name ip : Text) (w : World) → IsValid w.store → IsValid (add_a os name ip w).1.store
unfolding add_a
add_a-IsValid os name ip w v = elim (Bool-cases (is_empty (normalize name))) [
  | inl empty ↦ rw empty v
  | inr named ↦ elim (Option-cases (parse_ip ip)) [
    | inl bad ↦ rw (named, bad) v
    | inr (x, good) ↦
        rw (named, good, store-commit)
          (set_a-IsValid w.store v (normalize name) ip (ground arith) (ground arith))
  ]
]

pub add_cname-IsValid :
    (os : Os) (alias target : Text) (w : World)
    → IsValid w.store
    → IsValid (add_cname os alias target w).1.store
unfolding add_cname
add_cname-IsValid os alias target w v =
    let key = normalize alias in
    let value = normalize target in
    elim (Bool-cases (is_empty key || is_empty value)) [
      | inl empty ↦ rw empty v
      | inr named ↦ elim (Bool-cases (text_eq key value)) [
        | inl same ↦ rw (named, same) v
        | inr other ↦
            rw (named, other, store-commit)
              (set_cname-IsValid w.store v key value (ground arith)
                (ground (arith, text_eq_iff key value)))
      ]
    ]

pub remove-IsValid :
    (os : Os) (name : Text) (w : World) → IsValid w.store → IsValid (remove os name w).1.store
unfolding remove
remove-IsValid os name w v =
    let key = normalize name in
    elim (Bool-cases (not (contains key w.store.a) && not (contains key w.store.cname))) [
      | inl missing ↦ rw missing v
      | inr present ↦ rw (present, store-commit) (drop-IsValid w.store v key)
    ]

-- A request of the Admin API or of the CLI that changes the store.
pub data Op : Type 0 where
  put_a : Text → Text → Op
  put_cname : Text → Text → Op
  drop : Text → Op

abbrev pub apply_op : Os → Op → World → World
apply_op os (Op.put_a name ip) w = (Records.add_a os name ip w).1
apply_op os (Op.put_cname alias target) w = (Records.add_cname os alias target w).1
apply_op os (Op.drop name) w = (Records.remove os name w).1

unfoldable pub run_ops : List (Os × Op) → World → World
run_ops [] w = w
run_ops ((os, op) ∷ ops) w = run_ops ops (apply_op os op w)

-- Whatever records are added and removed, and whether or not each save succeeds, a valid store
-- stays valid: no name has both an A and a CNAME record, no record has the empty name, every A
-- record holds an address that `net.ParseIP` accepts, and no CNAME points at itself.
pub run_ops-IsValid :
    (ops : List (Os × Op)) (w : World) → IsValid w.store → IsValid (run_ops ops w).store
unfolding run_ops
run_ops-IsValid [] w v = v
run_ops-IsValid ((os, Op.put_a name ip) ∷ ops) w v =
    run_ops-IsValid ops (Records.add_a os name ip w).1 (add_a-IsValid os name ip w v)
run_ops-IsValid ((os, Op.put_cname alias target) ∷ ops) w v =
    run_ops-IsValid ops (Records.add_cname os alias target w).1
      (add_cname-IsValid os alias target w v)
run_ops-IsValid ((os, Op.drop name) ∷ ops) w v =
    run_ops-IsValid ops (Records.remove os name w).1 (remove-IsValid os name w v)
