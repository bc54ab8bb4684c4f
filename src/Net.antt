-- ===== src/Net.antt =====
-- `net.ParseIP` and the tests on addresses that the program uses (dns/records.go, dns/server.go,
-- httpd/geoip.go). An address is eight 16-bit groups, as in Go's 16-byte form.
mod Tests
use ztna_lab_appliance.Common.{
  ℕ, zero, suc, ◌+◌, ◌-◌, ◌*◌, ◌/◌, ◌%◌, Bool, true, false, not, ◌&&◌, ◌||◌, List, [], ◌∷◌, ◌++◌,
  Option, none, some, Text, ltb, leb, ◌==◌, if◌then◌else◌, length,
}

abbrev pub Ip : Type 0
Ip = List ℕ

unfoldable pub is_digit : ℕ → Bool
is_digit c = leb b'0' c && leb c b'9'

-- The 4-in-6 form of a.b.c.d.
unfoldable pub ip_of_v4 : List ℕ → Option Ip
ip_of_v4 (a ∷ b ∷ c ∷ d ∷ []) =
    some (0 ∷ 0 ∷ 0 ∷ 0 ∷ 0 ∷ 65535 ∷ (a * 256 + b) ∷ (c * 256 + d) ∷ [])
ip_of_v4 _ = none

-- The loop over the bytes of a dotted address: the fields read, the value of the current one and
-- its number of digits. No leading zero, no empty field, no value above 255.
unfoldable pub v4_fields : Text → List ℕ → ℕ → ℕ → Option (List ℕ)
unfolding is_digit
v4_fields [] done value digits = if digits == 0 then none else some (done ++ value ∷ [])
v4_fields (c ∷ s) done value digits = elim (is_digit c) [
  | true ↦
      let value' = value * 10 + (c - b'0') in
      if (digits == 1 && value == 0) || ltb 255 value'
      then none
      else v4_fields s done value' (digits + 1)
  | false ↦
      if c == b'.' && ltb 0 digits && ltb (length done) 3
      then v4_fields s (done ++ value ∷ []) 0 0
      else none
]

-- At end of text fewer than four fields make `ip_of_v4` fail.
unfoldable pub parse_v4 : Text → Option Ip
unfolding v4_fields ip_of_v4
parse_v4 s = elim (v4_fields s [] 0 0) [ none ↦ none | some fields ↦ ip_of_v4 fields ]

unfoldable pub hex_digit : ℕ → Option ℕ
unfolding is_digit
hex_digit c =
    if is_digit c
    then some (c - b'0')
    else if leb b'a' c && leb c b'f'
    then some (c - b'a' + 10)
    else if leb b'A' c && leb c b'F'
    then some (c - b'A' + 10)
    else none

-- One field: its value, its number of digits and the text after it; `none` past four digits.
unfoldable pub hex_field : Text → ℕ → ℕ → Option (ℕ × ℕ × Text)
unfolding hex_digit
hex_field [] acc off = some (acc, off, [])
hex_field (c ∷ s) acc off = elim (hex_digit c) [
  | none ↦ some (acc, off, c ∷ s)
  | some d ↦ if ltb 3 off then none else hex_field s (acc * 16 + d) (off + 1)
]

-- The groups before the `::`, if one was met, and the groups after it.
pub record V6 : Type 0 where
  pub before : Option (List ℕ)
  pub groups : List ℕ

unfoldable pub zeros : ℕ → List ℕ
zeros zero = []
zeros (suc n) = 0 ∷ zeros n

-- `::` stands for at least one group of zeros, and without it there are exactly eight.
unfoldable pub expand : V6 → Option Ip
unfolding zeros
expand v = elim v.before [
  | none ↦ if length v.groups == 8 then some v.groups else none
  | some front ↦
      if ltb (length front + length v.groups) 8
      then some (front ++ zeros (8 - (length front + length v.groups)) ++ v.groups)
      else none
]

abbrev add_group : V6 → ℕ → V6
add_group v g = record v { groups = v.groups ++ g ∷ [] }

abbrev group_count : V6 → ℕ
group_count v = elim v.before [
  | none ↦ length v.groups
  | some front ↦ length front + length v.groups
]

abbrev has_ellipsis : V6 → Bool
has_ellipsis v = elim v.before [ none ↦ false | some _ ↦ true ]

-- The text after a group: the end, `::` (at most once) or `:` and a further group.
pub data After : Type 0 where
  finished : V6 → After
  more : V6 → Text → After
  bad : After

after_ellipsis : V6 → Text → After
after_ellipsis v [] = After.finished v
after_ellipsis v (c ∷ s) = After.more v (c ∷ s)

after_group : V6 → Text → After
unfolding after_ellipsis
after_group v [] = After.finished v
after_group v (c ∷ []) = After.bad
after_group v (c ∷ d ∷ s) =
    if not (c == b':')
    then After.bad
    else if not (d == b':')
    then After.more v (d ∷ s)
    else elim v.before [
      | some _ ↦ After.bad
      | none ↦ after_ellipsis (record { before = some v.groups; groups = [] }) s
    ]

-- A trailing dotted address fills the last two groups.
trailing_v4 : V6 → Text → Option Ip
unfolding v4_fields expand
trailing_v4 v s =
    if (has_ellipsis v || group_count v == 6) && leb (group_count v) 6
    then elim (v4_fields s [] 0 0) [
      | some (a ∷ b ∷ c ∷ d ∷ []) ↦ expand (add_group (add_group v (a * 256 + b)) (c * 256 + d))
      | _ ↦ none
    ]
    else none

starts_with_dot : Text → Bool
starts_with_dot [] = false
starts_with_dot (c ∷ s) = c == b'.'

-- `for i < 16`: at most eight groups, so eight rounds are enough fuel; text left then is an error.
v6_groups : ℕ → V6 → Text → Option Ip
unfolding hex_field after_group trailing_v4 starts_with_dot expand
v6_groups zero v s = none
v6_groups (suc fuel) v s = elim (hex_field s 0 0) [
  | none ↦ none
  | some (acc, off, rest) ↦
      let next = v6_groups fuel in
      if off == 0
      then none
      else if starts_with_dot rest
      then trailing_v4 v s
      else elim (after_group (add_group v acc) rest) [
        | After.finished u ↦ expand u
        | After.more u r ↦ next u r
        | After.bad ↦ none
      ]
]

-- The text after a leading `::`.
v6_after_leading : Text → Option Ip
unfolding v6_groups expand
v6_after_leading [] = expand (record { before = some []; groups = [] })
v6_after_leading (c ∷ s) = v6_groups 8 (record { before = some []; groups = [] }) (c ∷ s)

abbrev no_groups : V6
no_groups = record { before = none; groups = [] }

parse_v6 : Text → Option Ip
unfolding v6_groups v6_after_leading
parse_v6 (c ∷ d ∷ s) =
    if c == b':' && d == b':' then v6_after_leading s else v6_groups 8 no_groups (c ∷ d ∷ s)
parse_v6 s = v6_groups 8 no_groups s

pub data Family : Type 0 where
  v4 v6 neither : Family

-- The first of `.`, `:` and `%` decides the family; a zone (`%`) makes `ParseIP` fail.
family : Text → Family
family [] = Family.neither
family (c ∷ s) =
    if c == b'.'
    then Family.v4
    else if c == b':'
    then Family.v6
    else if c == b'%'
    then Family.neither
    else family s

-- `net.ParseIP`
unfoldable pub parse_ip : Text → Option Ip
unfolding family parse_v4 parse_v6
parse_ip s = elim (family s) [
  | Family.v4 ↦ parse_v4 s
  | Family.v6 ↦ parse_v6 s
  | Family.neither ↦ none
]

-- `ip.To4()`: the four bytes, or nil where the address is not in the 4-in-6 form.
unfoldable pub to_4 : Ip → Option (List ℕ)
to_4 (a ∷ b ∷ c ∷ d ∷ e ∷ f ∷ g ∷ h ∷ []) =
    if a == 0 && b == 0 && c == 0 && d == 0 && e == 0 && f == 65535
    then some ((g / 256) ∷ (g % 256) ∷ (h / 256) ∷ (h % 256) ∷ [])
    else none
to_4 _ = none
