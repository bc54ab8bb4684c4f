-- ===== src/Common/Strings.antt =====
-- Go strings as lists of bytes, and the functions of package `strings` that the program calls.
-- Case mapping and trimming are those of ASCII text: bytes above 127 are left alone.
use Prim.Native.Nat.{ℕ, zero, suc, ◌+◌, ◌-◌, ◌/◌, ◌%◌}
use Prim.Native.Char.{code}
use Prim.Native.String.{String}
use mathlib.Core.Path.{◌≡◌, refl}
use mathlib.Core.Logic.{◌↔◌, ◌≢◌}
use mathlib.Core.Bool.{Bool, true, false, ◌&&◌, ◌||◌}
use mathlib.Core.List.{List, [], ◌∷◌, map, reverse}
use mathlib.Core.Option.{Option, none, some}
use native.Mathlib.Omega.{arith}
use ztna_lab_appliance.Common.Tests.{ltb, leb, ◌==◌, if◌then◌else◌}

abbrev pub Text : Type 0
Text = List ℕ

-- The bytes of an ASCII literal.
unfoldable pub text : String → Text
text String.[] = []
text (String.◌∷◌ c s) = code c ∷ text s

-- `a == b` on strings.
unfoldable pub text_eq : Text → Text → Bool
text_eq [] [] = true
text_eq [] (b ∷ bs) = false
text_eq (a ∷ x) [] = false
text_eq (a ∷ x) (b ∷ y) = a == b && text_eq x y

text_eq_sound : (a b : Text) → text_eq a b ≡ true → a ≡ b
unfolding text_eq
text_eq_sound [] [] h = refl
text_eq_sound [] (b ∷ bs) h = cc
text_eq_sound (a ∷ x) [] h = cc
text_eq_sound (a ∷ x) (b ∷ y) h = ground (arith, text_eq_sound x y)

pub text_eq_refl : (a : Text) → text_eq a a ≡ true
unfolding text_eq
text_eq_refl [] = refl
text_eq_refl (a ∷ x) = ground (arith, text_eq_refl x)

pub text_eq_iff : (a b : Text) → (text_eq a b ≡ true) ↔ (a ≡ b)
text_eq_iff a b = (text_eq_sound a b, λ e. rw e (text_eq_refl b))

-- `a <= b` on strings, byte by byte.
unfoldable pub text_leb : Text → Text → Bool
text_leb [] b = true
text_leb (a ∷ x) [] = false
text_leb (a ∷ x) (b ∷ y) = ltb a b || (a == b && text_leb x y)

-- `s == ""`
abbrev pub is_empty : Text → Bool
is_empty [] = true
is_empty (c ∷ s) = false

unfoldable pub lower_byte : ℕ → ℕ
lower_byte c = if leb b'A' c && leb c b'Z' then c + 32 else c

unfoldable pub upper_byte : ℕ → ℕ
upper_byte c = if leb b'a' c && leb c b'z' then c - 32 else c

-- `strings.ToLower`, `strings.ToUpper`
unfoldable pub to_lower : Text → Text
to_lower = map lower_byte

unfoldable pub to_upper : Text → Text
to_upper = map upper_byte

-- `strings.TrimPrefix` with the test of `strings.HasPrefix`: `none` where the prefix is missing.
unfoldable pub strip_prefix? : Text → Text → Option Text
strip_prefix? [] s = some s
strip_prefix? (p ∷ ps) [] = none
strip_prefix? (p ∷ ps) (c ∷ s) = if p == c then strip_prefix? ps s else none

unfoldable pub has_prefix : Text → Text → Bool
unfolding strip_prefix?
has_prefix s p = elim (strip_prefix? p s) [ none ↦ false | some _ ↦ true ]

unfoldable pub trim_prefix : Text → Text → Text
unfolding strip_prefix?
trim_prefix s p = elim (strip_prefix? p s) [ none ↦ s | some rest ↦ rest ]

-- `strings.TrimSuffix` for a suffix of one byte.
unfoldable pub trim_suffix_byte : ℕ → Text → Text
trim_suffix_byte k [] = []
trim_suffix_byte k (c ∷ s) = elim s [
  | [] ↦ (if c == k then [] else c ∷ [])
  | _ ∷ _ ↦ c ∷ trim_suffix_byte k s
]

unfoldable pub is_space : ℕ → Bool
is_space c = c == 32 || (leb 9 c && leb c 13)

unfoldable pub trim_left : Text → Text
unfolding is_space
trim_left [] = []
trim_left (c ∷ s) = let rest = trim_left s in if is_space c then rest else c ∷ s

-- `strings.TrimSpace`
unfoldable pub trim_space : Text → Text
unfolding trim_left
trim_space s = reverse (trim_left (reverse (trim_left s)))

-- `strings.Split` on one byte: never empty.
unfoldable pub split_step : ℕ → ℕ → List Text → List Text
split_step k c [] = []
split_step k c (x ∷ xs) = if c == k then [] ∷ x ∷ xs else (c ∷ x) ∷ xs

unfoldable pub split_byte : ℕ → Text → List Text
unfolding split_step
split_byte k [] = [] ∷ []
split_byte k (c ∷ s) = split_step k c (split_byte k s)

-- `strconv.Itoa` and `%d` on a number that is not negative; `n + 1` rounds are enough.
decimal_digits : ℕ → ℕ → Text → Text
decimal_digits zero n out = out
decimal_digits (suc fuel) n out =
    let out' = (b'0' + n % 10) ∷ out in
    let rest = decimal_digits fuel (n / 10) out' in if ltb n 10 then out' else rest

unfoldable pub decimal : ℕ → Text
unfolding decimal_digits
decimal n = decimal_digits (n + 1) n []

-- A call `logger.Log(module, message)`.
pub record LogCall : Type 0 where
  pub module_name : Text
  pub message : Text

lower_byte_idem : (c : ℕ) → lower_byte (lower_byte c) ≡ lower_byte c
unfolding lower_byte
lower_byte_idem c = ground arith

pub to_lower_idem : (s : Text) → to_lower (to_lower s) ≡ to_lower s
unfolding to_lower
to_lower_idem [] = refl
to_lower_idem (c ∷ s) = cc (lower_byte_idem c, to_lower_idem s)

-- `strings.SplitN(s, sep, 2)` for a separator that is not empty: `none` where it does not occur,
-- else the text before its first occurrence and the text after it.
unfoldable pub split_once : Text → Text → Option (Text × Text)
split_once sep [] = none
split_once sep (c ∷ s) = elim (strip_prefix? sep (c ∷ s)) [
  | some rest ↦ some ([], rest)
  | none ↦ elim (split_once sep s) [ none ↦ none | some (x, y) ↦ some (c ∷ x, y) ]
]

-- `strings.HasSuffix` for a suffix of one byte.
unfoldable pub ends_with : ℕ → Text → Bool
ends_with k [] = false
ends_with k (c ∷ s) = elim s [ [] ↦ c == k | _ ∷ _ ↦ ends_with k s ]

-- The byte does not occur in the text.
abbrev pub Lacks : ℕ → Text → Type 0
Lacks k [] = Unit
Lacks k (c ∷ s) = (c ≢ k) × Lacks k s
