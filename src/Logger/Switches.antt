-- ===== src/Logger/Switches.antt =====
-- logger/logger.go: the registry of modules, `normModule`, `IsEnabled`, `Modules` and
-- `applyDisabledModulesEnv`.
pub mod Laws
pub mod Listing
use ztna_lab_appliance.Common.{
  Bool, true, false, not, List, [], ◌∷◌, ◌++◌, map, Option, none, some, Text, text, text_eq,
  text_leb, Map, lookup, insert, is_empty, to_upper, trim_space, split_byte, if◌then◌else◌,
}

-- `normModule`
unfoldable pub norm_module : Text → Text
norm_module module_name = to_upper (trim_space module_name)

-- `knownModules`
abbrev pub known_modules : List Text
known_modules = text "SYS" ∷ text "DNS" ∷ text "HTTP" ∷ text "SSH" ∷ text "ADM" ∷ []

switch_on : List Text → Map Bool → Map Bool
switch_on [] m = m
switch_on (name ∷ names) m = switch_on names (insert name true m)

-- `defaultModuleState`
unfoldable pub default_module_state : Map Bool
unfolding switch_on
default_module_state = switch_on known_modules []

-- `IsEnabled`
unfoldable pub is_enabled : Text → Map Bool → Bool
is_enabled module_name enabled = elim (lookup (norm_module module_name) enabled) [
  | some on ↦ on
  | none ↦ true
]

unfoldable pub switch_off : List Text → Map Bool → Map Bool
switch_off [] m = m
switch_off (part ∷ parts) m =
    let key = norm_module part in switch_off parts (if is_empty key then m else insert key false m)

-- `applyDisabledModulesEnv`
unfoldable pub apply_disabled_modules_env : Text → Map Bool
unfolding switch_off default_module_state
apply_disabled_modules_env raw = switch_off (split_byte b',' raw) default_module_state

pub record ModuleState : Type 0 where
  pub name : Text
  pub on : Bool

unfoldable pub known_states : List Text → Map Bool → List ModuleState
known_states [] m = []
known_states (name ∷ names) m =
    let rest = known_states names m in
    elim (lookup name m) [ some on ↦ record { name = name; on = on } ∷ rest | none ↦ rest ]

-- `name` is one of the names, so it has been seen.
unfoldable pub is_one_of : Text → List Text → Bool
is_one_of name [] = false
is_one_of name (x ∷ xs) = if text_eq x name then true else is_one_of name xs

unfoldable pub extra_names : Map Bool → List Text
extra_names [] = []
extra_names ((name, on) ∷ m) =
    let rest = extra_names m in if is_one_of name known_modules then rest else name ∷ rest

-- `sort.Strings`
unfoldable pub insert_sorted : Text → List Text → List Text
insert_sorted x [] = x ∷ []
insert_sorted x (y ∷ ys) = if text_leb x y then x ∷ y ∷ ys else y ∷ insert_sorted x ys

unfoldable pub sort_texts : List Text → List Text
unfolding insert_sorted
sort_texts [] = []
sort_texts (x ∷ xs) = insert_sorted x (sort_texts xs)

-- `Modules`: the shipped modules in display order, then all others, sorted.
unfoldable pub modules : Map Bool → List ModuleState
unfolding known_states extra_names sort_texts
modules m = known_states known_modules m ++ known_states (sort_texts (extra_names m)) m
