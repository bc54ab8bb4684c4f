-- ===== src/Logger/Switches/Laws.antt =====
-- logger/logger.go: what the registry of modules answers.
use ztna_lab_appliance.Common.{
  Bool, true, false, List, [], ◌∷◌, ◌++◌, Option, none, some, Text, ◌≡◌, refl, arith, lookup,
  text_eq, text_eq_iff, Map, if◌then◌else◌, Option-cases, Bool-cases, inl, inr,
}
use ztna_lab_appliance.Logger.Switches.Listing.{
  names, times, names-append, times-append, times-known_states, times-sort_texts, HasOneEach,
  times-extra_names_known, times-extra_names, times-once, known_modules_once, IsInOrder,
  sort_texts-IsInOrder, present, names-known_states, present-extra_names,
}
use ztna_lab_appliance.Logger.Switches.{
  ModuleState, known_modules, known_states, is_one_of, extra_names, insert_sorted, sort_texts,
  modules,
}

-- The state that a list of states gives for a name: that of its first entry.
abbrev pub state_of : Text → List ModuleState → Option Bool
state_of name [] = none
state_of name (s ∷ states) = if text_eq s.name name then some s.on else state_of name states

state_of-append :
    (name : Text) (xs ys : List ModuleState)
    → state_of name (xs ++ ys)
      ≡ elim (state_of name xs) [ some on ↦ some on | none ↦ state_of name ys ]
state_of-append name [] ys = refl
state_of-append name (x ∷ xs) ys = ground (arith, state_of-append name xs ys)

state_of-known_states :
    (name : Text) (names : List Text) (m : Map Bool)
    → state_of name (known_states names m) ≡ (if is_one_of name names then lookup name m else none)
unfolding known_states is_one_of
state_of-known_states name [] m = refl
state_of-known_states name (x ∷ names) m =
    ground (arith, text_eq_iff x name, state_of-known_states name names m)

is_one_of-insert_sorted :
    (name x : Text) (ys : List Text)
    → is_one_of name (insert_sorted x ys) ≡ (if text_eq x name then true else is_one_of name ys)
unfolding insert_sorted is_one_of
is_one_of-insert_sorted name x [] = refl
is_one_of-insert_sorted name x (y ∷ ys) = ground (arith, is_one_of-insert_sorted name x ys)

is_one_of-sort_texts :
    (name : Text) (xs : List Text) → is_one_of name (sort_texts xs) ≡ is_one_of name xs
unfolding sort_texts is_one_of
is_one_of-sort_texts name [] = refl
is_one_of-sort_texts name (x ∷ xs) =
    ground (arith, is_one_of-insert_sorted name x (sort_texts xs), is_one_of-sort_texts name xs)

is_one_of-cons :
    (name x : Text) (xs : List Text)
    → is_one_of name (x ∷ xs) ≡ (if text_eq x name then true else is_one_of name xs)
unfolding is_one_of
is_one_of-cons name x xs = refl

is_one_of-extra_names :
    (name : Text) (m : Map Bool) {on : Bool}
    → is_one_of name known_modules ≡ false
    → lookup name m ≡ some on
    → is_one_of name (extra_names m) ≡ true
unfolding extra_names lookup
is_one_of-extra_names name [] other known = cc
is_one_of-extra_names name ((x, v) ∷ m) {on} other known = ground (
  arith,
  text_eq_iff x name,
  is_one_of-cons name x (extra_names m),
  is_one_of-extra_names name m {on = on} other,
)

states_lem : (name : Text) (m : Map Bool) → state_of name (modules m) ≡ lookup name m
unfolding modules
states_lem name m = elim (Option-cases (lookup name m)) [
  | inl unknown ↦ ground (
    arith,
    state_of-append name (known_states known_modules m)
        (known_states (sort_texts (extra_names m)) m),
    state_of-known_states name known_modules m,
    state_of-known_states name (sort_texts (extra_names m)) m,
  )
  | inr (on, known) ↦ ground (
    arith,
    state_of-append name (known_states known_modules m)
        (known_states (sort_texts (extra_names m)) m),
    state_of-known_states name known_modules m,
    state_of-known_states name (sort_texts (extra_names m)) m,
    is_one_of-sort_texts name (extra_names m),
    is_one_of-extra_names name m {on = on},
  )
]

listed_once :
    (name : Text) (m : Map Bool)
    → HasOneEach m
    → times name (names (modules m)) ≡ elim (lookup name m) [ none ↦ 0 | some on ↦ 1 ]
unfolding modules
listed_once name m each =
    let shipped = known_states known_modules m in
    let others = known_states (sort_texts (extra_names m)) m in
    rw
      (
        names-append shipped others,
        times-append name (names shipped) (names others),
        times-known_states name known_modules m,
        times-known_states name (sort_texts (extra_names m)) m,
      )
      (let sorted = times-sort_texts name (extra_names m) in
        let once = times-once name known_modules known_modules_once in
        elim (Bool-cases (is_one_of name known_modules)) [
          | inl known ↦ ground (arith, known, sorted, once, times-extra_names_known name m known)
          | inr other ↦ ground (arith, other, sorted, once, times-extra_names name m each other)
        ])

-- `Modules`, of a map in which no key stands twice, lists each registered module exactly once and no
-- other, with the state that the registry holds: first those of the shipped modules that are
-- registered, in display order, and then all others, sorted.
pub modules_lem :
    (m : Map Bool)
    → HasOneEach m
    → ((name : Text) → state_of name (modules m) ≡ lookup name m)
      × ((name : Text)
          → times name (names (modules m)) ≡ elim (lookup name m) [ none ↦ 0 | some on ↦ 1 ])
      × ((others : List Text) × (names (modules m) ≡ present known_modules m ++ others)
          × IsInOrder others)
unfolding modules
modules_lem m each =
    let shipped = known_states known_modules m in
    let others = known_states (sort_texts (extra_names m)) m in
    (
      λ name. states_lem name m,
      λ name. listed_once name m each,
      (
        sort_texts (extra_names m),
        rw
            (
              names-append shipped others,
              names-known_states known_modules m,
              names-known_states (sort_texts (extra_names m)) m,
              present-extra_names m,
            )
            refl,
        sort_texts-IsInOrder (extra_names m),
      ),
    )
