-- ===== src/Common/Ints.antt =====
-- Signed integers, and `strconv.ParseInt(s, 10, 64)` (which `strconv.Atoi` is on 64-bit machines).
use Prim.Native.Nat.{ℕ, zero, suc, ◌+◌, ◌-◌, ◌*◌, ◌^◌}
use mathlib.Core.Bool.{◌&&◌}
use mathlib.Core.List.{[], ◌∷◌}
use mathlib.Core.Option.{Option, none, some}
use ztna_lab_appliance.Common.Tests.{leb, ◌==◌, if◌then◌else◌}
use ztna_lab_appliance.Common.Strings.{Text}

-- `negsuc n` is -(n + 1).
pub data ℤ : Type 0 where
  pos : ℕ → ℤ
  negsuc : ℕ → ℤ

-- Decimal digits only, and at least one.
unfoldable pub digits_value : Text → ℕ → Option ℕ
digits_value [] acc = some acc
digits_value (c ∷ s) acc =
    if leb b'0' c && leb c b'9' then digits_value s (acc * 10 + (c - b'0')) else none

unfoldable pub magnitude : Text → Option ℕ
unfolding digits_value
magnitude [] = none
magnitude (c ∷ s) = digits_value (c ∷ s) 0

abbrev pub max_int64 : ℕ
max_int64 = 2 ^ 63 - 1

abbrev pub at_most : ℕ → Option ℕ → Option ℕ
at_most limit none = none
at_most limit (some n) = if leb n limit then some n else none

-- -n, as an integer.
abbrev pub negate : ℕ → ℤ
negate zero = pos 0
negate (suc n) = negsuc n

abbrev pub positive : Option ℕ → Option ℤ
positive none = none
positive (some n) = some (pos n)

abbrev pub negative : Option ℕ → Option ℤ
negative none = none
negative (some n) = some (negate n)

unfoldable pub parse_int64 : Text → Option ℤ
unfolding magnitude
parse_int64 [] = none
parse_int64 (c ∷ s) =
    if c == b'-'
    then negative (at_most (2 ^ 63) (magnitude s))
    else if c == b'+'
    then positive (at_most max_int64 (magnitude s))
    else positive (at_most max_int64 (magnitude (c ∷ s)))
