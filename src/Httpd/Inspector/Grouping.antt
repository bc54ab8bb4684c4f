-- ===== src/Httpd/Inspector/Grouping.antt =====
-- httpd/inspector.go: the groups of `groupHeaders`.
use ztna_lab_appliance.Common.{
  ℕ, ◌+◌, ◌-◌, ◌≤◌, Bool, true, not, ◌&&◌, List, [], ◌∷◌, ◌++◌, map, ◌∙◌, zero, suc, append-nil,
  append_assoc, Text, text, text_eq, text_eq_refl, text_leb, length, length-append, take, drop,
  length-drop, ltb, ◌≡◌, refl, sym, ap, arith, if◌then◌else◌, Bool-cases, inl, inr,
}
use ztna_lab_appliance.Httpd.Inspector.Groups.{
  Headers, HeaderEntry, insert_header, sort_headers, is_in, forwarding_names, auth_names, shortened,
  Groups, ellipsis, group, add_entry, add_values, add_headers, group_headers, total_count,
}

-- The entries of which a test holds, in their order.
abbrev pub keep : (HeaderEntry → Bool) → List HeaderEntry → List HeaderEntry
keep p [] = []
keep p (e ∷ es) = let rest = keep p es in if p e then e ∷ rest else rest

-- All values under their canonical names.
abbrev pub entries : Text → List Text → List HeaderEntry
entries name [] = []
entries name (v ∷ vs) = record { name = name; value = v } ∷ entries name vs

abbrev pub listing : (Text → Text) → Headers → List HeaderEntry
listing canonical [] = []
listing canonical ((k, vs) ∷ h) = entries (canonical k) vs ++ listing canonical h

-- Three tests, of which exactly one holds of each entry.
abbrev pub is_forwarding : HeaderEntry → Bool
is_forwarding e = is_in e.name forwarding_names

abbrev pub is_auth : HeaderEntry → Bool
is_auth e = not (is_forwarding e) && is_in e.name auth_names

abbrev pub is_standard : HeaderEntry → Bool
is_standard e = not (is_forwarding e) && not (is_in e.name auth_names)

abbrev pub values_count : Headers → ℕ
values_count [] = 0
values_count ((k, vs) ∷ h) = length vs + values_count h

-- The groups with some entries appended, each to the group of its kind.
abbrev sorted_into : List HeaderEntry → Groups → Groups
sorted_into es g = record {
  forwarding = g.forwarding ++ keep is_forwarding es;
  auth = g.auth ++ map shortened (keep is_auth es);
  standard = g.standard ++ keep is_standard es;
}

keep-append :
    (p : HeaderEntry → Bool) (xs ys : List HeaderEntry) → keep p (xs ++ ys) ≡ keep p xs ++ keep p ys
keep-append p [] ys = refl
keep-append p (x ∷ xs) ys = elim (Bool-cases (p x)) [
  | inl same ↦ rw (same, keep-append p xs ys) refl
  | inr other ↦ rw (other, keep-append p xs ys) refl
]

sorted_into-cons :
    (e : HeaderEntry) (es : List HeaderEntry) (g : Groups)
    → sorted_into es (add_entry e g) ≡ sorted_into (e ∷ es) g
unfolding add_entry
sorted_into-cons e es g = elim (Bool-cases (is_in e.name forwarding_names)) [
  | inl same ↦ rw (same, append_assoc) refl
  | inr other ↦ elim (Bool-cases (is_in e.name auth_names)) [
    | inl auth ↦ rw (other, auth, append_assoc) refl
    | inr neither ↦ rw (other, neither, append_assoc) refl
  ]
]

map-append :
    (f : HeaderEntry → HeaderEntry) (xs ys : List HeaderEntry)
    → map f (xs ++ ys) ≡ map f xs ++ map f ys
map-append f [] ys = refl
map-append f (x ∷ xs) ys = ap (λ zs. f x ∷ zs) (map-append f xs ys)

same_groups :
    {g h : Groups} → g.forwarding ≡ h.forwarding → g.auth ≡ h.auth → g.standard ≡ h.standard → g ≡ h
same_groups p q r = λ i. record { forwarding = p i; auth = q i; standard = r i }

sorted_into-append :
    (xs ys : List HeaderEntry) (g : Groups)
    → sorted_into ys (sorted_into xs g) ≡ sorted_into (xs ++ ys) g
sorted_into-append xs ys g =
    same_groups (rw (keep-append is_forwarding xs ys, append_assoc) refl)
      (rw
        (
          keep-append is_auth xs ys,
          map-append shortened (keep is_auth xs) (keep is_auth ys),
          append_assoc,
        )
        refl)
      (rw (keep-append is_standard xs ys, append_assoc) refl)

sorted_into-nil : (g : Groups) → g ≡ sorted_into [] g
sorted_into-nil g =
    same_groups (sym (append-nil g.forwarding)) (sym (append-nil g.auth))
      (sym (append-nil g.standard))

add_values_lem :
    (name : Text) (vs : List Text) (g : Groups)
    → add_values name vs g ≡ sorted_into (entries name vs) g
unfolding add_values
add_values_lem name [] g = sorted_into-nil g
add_values_lem name (v ∷ vs) g =
    let e : HeaderEntry = record { name = name; value = v } in
    add_values_lem name vs (add_entry e g) ∙ sorted_into-cons e (entries name vs) g

add_headers_lem :
    (canonical : Text → Text) (h : Headers) (g : Groups)
    → add_headers canonical h g ≡ sorted_into (listing canonical h) g
unfolding add_headers
add_headers_lem canonical [] g = sorted_into-nil g
add_headers_lem canonical ((k, vs) ∷ h) g =
    let es = entries (canonical k) vs in
    add_headers_lem canonical h (add_values (canonical k) vs g)
    ∙ ap (sorted_into (listing canonical h)) (add_values_lem (canonical k) vs g)
    ∙ sorted_into-append es (listing canonical h) g

-- Every entry is kept by exactly one of the three tests.
length-kept :
    (es : List HeaderEntry)
    → length (keep is_forwarding es)
        + (length (keep is_auth es) + (length (keep is_standard es) + 0))
      ≡ length es
length-kept [] = omega arith
length-kept (e ∷ es) =
    let rest = length-kept es in
    elim (Bool-cases (is_forwarding e)) [
      | inl forwarding ↦ rw forwarding (omega (arith, rest))
      | inr other ↦ elim (Bool-cases (is_in e.name auth_names)) [
        | inl auth ↦ rw (other, auth) (omega (arith, rest))
        | inr neither ↦ rw (other, neither) (omega (arith, rest))
      ]
    ]

length-entries : (name : Text) (vs : List Text) → length (entries name vs) ≡ length vs
length-entries name [] = refl
length-entries name (v ∷ vs) = omega (arith, length-entries name vs)

length-listing :
    (canonical : Text → Text) (h : Headers) → length (listing canonical h) ≡ values_count h
length-listing canonical [] = refl
length-listing canonical ((k, vs) ∷ h) =
    let es = entries (canonical k) vs in
    omega (
      arith,
      length-append es (listing canonical h),
      length-entries (canonical k) vs,
      length-listing canonical h,
    )

values_count-insert_header :
    (k : Text) (vs : List Text) (h : Headers)
    → values_count (insert_header (k, vs) h) ≡ length vs + values_count h
unfolding insert_header
values_count-insert_header k vs [] = refl
values_count-insert_header k vs ((j, ws) ∷ h) =
    let rest = values_count-insert_header k vs h in
    elim (Bool-cases (text_leb k j)) [
      | inl before ↦ rw before refl
      | inr after ↦ rw after (omega (arith, rest))
    ]

values_count-sort_headers : (h : Headers) → values_count (sort_headers h) ≡ values_count h
unfolding sort_headers
values_count-sort_headers [] = refl
values_count-sort_headers ((k, vs) ∷ h) =
    omega (arith, values_count-insert_header k vs (sort_headers h), values_count-sort_headers h)

length-map : (f : HeaderEntry → HeaderEntry) (es : List HeaderEntry) → length (map f es) ≡ length es
length-map f [] = refl
length-map f (e ∷ es) = omega (arith, length-map f es)

length-take : (n : ℕ) (v : Text) → length (take n v) ≤ n
length-take zero v = omega arith
length-take (suc n) [] = omega arith
length-take (suc n) (c ∷ v) = omega (arith, length-take n v)

length-ends : (v : Text) → length (take 30 v ++ ellipsis ++ drop (length v - 8) v) ≤ 41
length-ends v =
    let back : Text = drop (length v - 8) v in
    let whole = length-append (take 30 v ++ ellipsis) back in
    let front_whole = length-append (take 30 v) ellipsis in
    let short : length back ≡ length v - (length v - 8) = length-drop (length v - 8) v in
    let front : length (take 30 v) ≤ 30 = length-take 30 v in
    omega (arith, whole, front_whole, short, front)

shortened_lem : (e : HeaderEntry) → e.name ≡ text "Authorization" → length (shortened e).value ≤ 60
unfolding shortened
shortened_lem e named = elim (Bool-cases (ltb 60 (length e.value))) [
  | inl long ↦
      rw (named, text_eq_refl (text "Authorization"), long) (omega (arith, length-ends e.value))
  | inr short ↦ rw (named, text_eq_refl (text "Authorization"), short) (ground arith)
]

authorization-is_auth : (e : HeaderEntry) → e.name ≡ text "Authorization" → is_auth e ≡ true
unfolding is_in text text_eq
authorization-is_auth e named = rw named refl

-- The three groups are the values of all headers, in the order of the keys, under the canonical names:
-- those of the forwarding headers, then of the others those of the authentication headers, then the
-- rest, each in its order and with the values of the second group shortened. So every value is in
-- exactly one group, the total is the number of all values, and no value of an Authorization header is
-- shown with more than 60 bytes.
pub group_headers_lem :
    (canonical : Text → Text) (h : Headers)
    → let all = listing canonical (sort_headers h) in
      (group_headers canonical h
        ≡ group (text "Forwarding") (text "info") (keep is_forwarding all)
          ∷ group (text "Authentication") (text "success") (map shortened (keep is_auth all))
          ∷ group (text "Standard") (text "neutral") (keep is_standard all)
          ∷ [])
      × (total_count (group_headers canonical h) ≡ values_count h)
      × ((e : HeaderEntry)
          → e.name ≡ text "Authorization"
          → (is_auth e ≡ true) × (length (shortened e).value ≤ 60))
unfolding group_headers total_count
group_headers_lem canonical h =
    let all = listing canonical (sort_headers h) in
    let added =
      add_headers_lem canonical (sort_headers h)
        (record { forwarding = []; auth = []; standard = [] }) in
    rw added (
      refl,
      omega (
        arith,
        length-kept all,
        length-map shortened (keep is_auth all),
        length-listing canonical (sort_headers h),
        values_count-sort_headers h,
      ),
      λ e named. (authorization-is_auth e named, shortened_lem e named),
    )
