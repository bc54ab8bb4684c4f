-- ===== src/Logger/Switches/Listing.antt =====
-- logger/logger.go: which names `Modules` lists, how often and in which order.
use ztna_lab_appliance.Common.{
  Bool, true, false, List, [], ◌∷◌, ◌++◌, none, some, Text, ◌≡◌, refl, arith, lookup, text_eq,
  text_eq_iff, text_eq_refl, text_leb, Map, if◌then◌else◌, Bool-cases, inl, inr, ℕ, suc, ◌+◌, ◌≢◌,
  ◌≤◌, ap, text,
}
use ztna_lab_appliance.Logger.Switches.{
  ModuleState, known_modules, known_states, is_one_of, extra_names, insert_sorted, sort_texts,
}

-- The names of some states.
abbrev pub names : List ModuleState → List Text
names [] = []
names (s ∷ states) = s.name ∷ names states

-- How often a name is listed.
abbrev pub times : Text → List Text → ℕ
times name [] = 0
times name (x ∷ xs) = if text_eq x name then suc (times name xs) else times name xs

pub names-append : (xs ys : List ModuleState) → names (xs ++ ys) ≡ names xs ++ names ys
names-append [] ys = refl
names-append (x ∷ xs) ys = ap (λ zs. x.name ∷ zs) (names-append xs ys)

pub times-append :
    (name : Text) (xs ys : List Text) → times name (xs ++ ys) ≡ times name xs + times name ys
times-append name [] ys = omega arith
times-append name (x ∷ xs) ys = ground (arith, times-append name xs ys)

pub times-known_states :
    (name : Text) (xs : List Text) (m : Map Bool)
    → times name (names (known_states xs m))
      ≡ elim (lookup name m) [ none ↦ 0 | some on ↦ times name xs ]
unfolding known_states
times-known_states name [] m = ground arith
times-known_states name (x ∷ xs) m =
    ground (arith, text_eq_iff x name, times-known_states name xs m)

times-insert_sorted :
    (name x : Text) (ys : List Text) → times name (insert_sorted x ys) ≡ times name (x ∷ ys)
unfolding insert_sorted
times-insert_sorted name x [] = refl
times-insert_sorted name x (y ∷ ys) = ground (arith, times-insert_sorted name x ys)

pub times-sort_texts : (name : Text) (xs : List Text) → times name (sort_texts xs) ≡ times name xs
unfolding sort_texts
times-sort_texts name [] = refl
times-sort_texts name (x ∷ xs) =
    ground (arith, times-insert_sorted name x (sort_texts xs), times-sort_texts name xs)

-- A map in which no key stands twice, as every map of Go.
abbrev pub HasOneEach : Map Bool → Type 0
HasOneEach [] = Unit
HasOneEach ((k, v) ∷ m) = (lookup k m ≡ none) × HasOneEach m

pub times-extra_names_known :
    (name : Text) (m : Map Bool)
    → is_one_of name known_modules ≡ true
    → times name (extra_names m) ≡ 0
unfolding extra_names
times-extra_names_known name [] known = refl
times-extra_names_known name ((x, v) ∷ m) known =
    ground (arith, text_eq_iff x name, times-extra_names_known name m known)

pub times-extra_names :
    (name : Text) (m : Map Bool)
    → HasOneEach m
    → is_one_of name known_modules ≡ false
    → times name (extra_names m) ≡ elim (lookup name m) [ none ↦ 0 | some on ↦ 1 ]
unfolding extra_names lookup
times-extra_names name [] each other = refl
times-extra_names name ((x, v) ∷ m) each other =
    ground (arith, text_eq_iff x name, each.0, times-extra_names name m each.1 other)

-- No name twice.
abbrev pub HasNoneTwice : List Text → Type 0
HasNoneTwice [] = Unit
HasNoneTwice (x ∷ xs) = (is_one_of x xs ≡ false) × HasNoneTwice xs

pub times-once :
    (name : Text) (xs : List Text)
    → HasNoneTwice xs
    → times name xs ≡ (if is_one_of name xs then 1 else 0)
unfolding is_one_of
times-once name [] h = refl
times-once name (x ∷ xs) h = ground (arith, text_eq_iff x name, h.0, times-once name xs h.1)

pub known_modules_once : HasNoneTwice known_modules
unfolding is_one_of text text_eq
known_modules_once = (refl, (refl, (refl, (refl, (refl, tt)))))

-- In order, byte by byte.
abbrev pub IsInOrder : List Text → Type 0
IsInOrder [] = Unit
IsInOrder (x ∷ []) = Unit
IsInOrder (x ∷ y ∷ xs) = (text_leb x y ≡ true) × IsInOrder (y ∷ xs)

text_leb_total : (x y : Text) → text_leb x y ≡ false → text_leb y x ≡ true
unfolding text_leb
text_leb_total [] y h = cc
text_leb_total (a ∷ x) [] h = refl
text_leb_total (a ∷ x) (b ∷ y) h = ground (arith, text_leb_total x y)

insert_sorted-IsInOrder :
    (x : Text) (ys : List Text) → IsInOrder ys → IsInOrder (insert_sorted x ys)
unfolding insert_sorted
insert_sorted-IsInOrder x [] h = tt
insert_sorted-IsInOrder x (y ∷ []) h = elim (Bool-cases (text_leb x y)) [
  | inl before ↦ rw before (before, tt)
  | inr after ↦ rw after (text_leb_total x y after, tt)
]
insert_sorted-IsInOrder x (y ∷ z ∷ ys) h = elim (Bool-cases (text_leb x y)) [
  | inl before ↦ rw before (before, h)
  | inr after ↦
      let rest = insert_sorted-IsInOrder x (z ∷ ys) h.1 in
      elim (Bool-cases (text_leb x z)) [
        | inl early ↦ rw (after, early) (text_leb_total x y after, rw early at rest)
        | inr late ↦ rw (after, late) (h.0, rw late at rest)
      ]
]

pub sort_texts-IsInOrder : (xs : List Text) → IsInOrder (sort_texts xs)
unfolding sort_texts
sort_texts-IsInOrder [] = tt
sort_texts-IsInOrder (x ∷ xs) = insert_sorted-IsInOrder x (sort_texts xs) (sort_texts-IsInOrder xs)

-- Those of some names that a map has.
abbrev pub present : List Text → Map Bool → List Text
present [] m = []
present (x ∷ xs) m = elim (lookup x m) [ none ↦ present xs m | some on ↦ x ∷ present xs m ]

pub names-known_states : (xs : List Text) (m : Map Bool) → names (known_states xs m) ≡ present xs m
unfolding known_states
names-known_states [] m = refl
names-known_states (x ∷ xs) m = ground (arith, names-known_states xs m)

found_in : (name : Text) (m : Map Bool) → lookup name m ≡ none → times name (extra_names m) ≡ 0
unfolding extra_names lookup
found_in name [] missing = refl
found_in name ((x, v) ∷ m) missing = ground (arith, text_eq_iff x name, found_in name m)

is_one_of-times : (x : Text) (xs : List Text) → is_one_of x xs ≡ true → 1 ≤ times x xs
unfolding is_one_of
is_one_of-times x [] h = cc
is_one_of-times x (y ∷ ys) h = ground (arith, is_one_of-times x ys)

-- All of them, if the map has each.
present_all :
    (xs : List Text) (m : Map Bool)
    → ((x : Text) → 1 ≤ times x xs → lookup x m ≢ none)
    → present xs m ≡ xs
present_all [] m h = refl
present_all (x ∷ xs) m h =
    let rest = present_all xs m (λ y some_times. h y (ground (arith, some_times))) in
    ground (arith, h x (ground (arith, text_eq_refl x)), rest)

pub present-extra_names :
    (m : Map Bool) → present (sort_texts (extra_names m)) m ≡ sort_texts (extra_names m)
present-extra_names m = present_all (sort_texts (extra_names m)) m (λ x listed missing.
    absurd (omega (arith, listed, times-sort_texts x (extra_names m), found_in x m missing)))
