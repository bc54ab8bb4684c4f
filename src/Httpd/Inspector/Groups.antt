-- ===== src/Httpd/Inspector/Groups.antt =====
-- httpd/inspector.go: `groupHeaders`; httpd/server.go: `handleHeaders`. The map of the headers is the list of its entries, of
-- which the keys differ; `canonical` is `http.CanonicalHeaderKey`.
use ztna_lab_appliance.Common.{
  ℕ, ◌+◌, ◌-◌, Bool, false, ◌&&◌, ◌||◌, List, [], ◌∷◌, ◌++◌, Text, text, text_eq, text_leb, length,
  take, drop, ltb, if◌then◌else◌,
}

-- `http.Header`
abbrev pub Headers : Type 0
Headers = List (Text × List Text)

-- `HeaderEntry`
pub record HeaderEntry : Type 0 where
  pub name : Text
  pub value : Text

-- `HeaderGroup`
pub record HeaderGroup : Type 0 where
  pub category : Text
  pub color : Text
  pub count : ℕ
  pub entries : List HeaderEntry

-- The entries in the order of their keys: `sort.Strings` and the lookups that follow it.
unfoldable pub insert_header : Text × List Text → Headers → Headers
insert_header x [] = x ∷ []
insert_header x (y ∷ h) =
    let rest = insert_header x h in if text_leb x.0 y.0 then x ∷ y ∷ h else y ∷ rest

unfoldable pub sort_headers : Headers → Headers
unfolding insert_header
sort_headers [] = []
sort_headers (x ∷ h) = insert_header x (sort_headers h)

-- A set of `stringSet`
unfoldable pub is_in : Text → List Text → Bool
is_in name [] = false
is_in name (x ∷ xs) = text_eq name x || is_in name xs

abbrev pub forwarding_names : List Text
forwarding_names =
    text "X-Forwarded-For"
    ∷ text "X-Forwarded-Proto"
    ∷ text "X-Forwarded-Host"
    ∷ text "X-Forwarded-Port"
    ∷ text "X-Real-Ip"
    ∷ text "Via"
    ∷ text "Forwarded"
    ∷ []

abbrev pub auth_names : List Text
auth_names =
    text "Authorization"
    ∷ text "Cookie"
    ∷ text "X-User"
    ∷ text "X-User-Email"
    ∷ text "X-Authenticated-User"
    ∷ text "X-Auth-Source"
    ∷ text "X-Auth-Token"
    ∷ text "Cf-Access-Authenticated-User-Email"
    ∷ text "Cf-Access-Jwt-Assertion"
    ∷ text "X-Goog-Authenticated-User-Email"
    ∷ text "X-Goog-Iap-Jwt-Assertion"
    ∷ []

-- The bytes of "…".
abbrev pub ellipsis : Text
ellipsis = 226 ∷ 128 ∷ 166 ∷ []

-- A long token shows its ends only.
unfoldable pub shortened : HeaderEntry → HeaderEntry
shortened e =
    if text_eq e.name (text "Authorization") && ltb 60 (length e.value)
    then record e { value = take 30 e.value ++ ellipsis ++ drop (length e.value - 8) e.value }
    else e

-- The three slices that the loop appends to.
pub record Groups : Type 0 where
  pub forwarding : List HeaderEntry
  pub auth : List HeaderEntry
  pub standard : List HeaderEntry

-- The body of the inner loop.
unfoldable pub add_entry : HeaderEntry → Groups → Groups
unfolding shortened is_in
add_entry e g =
    if is_in e.name forwarding_names
    then record g { forwarding = g.forwarding ++ e ∷ [] }
    else if is_in e.name auth_names
    then record g { auth = g.auth ++ shortened e ∷ [] }
    else record g { standard = g.standard ++ e ∷ [] }

unfoldable pub add_values : Text → List Text → Groups → Groups
unfolding add_entry
add_values name [] g = g
add_values name (v ∷ vs) g = add_values name vs (add_entry (record { name = name; value = v }) g)

unfoldable pub add_headers : (Text → Text) → Headers → Groups → Groups
unfolding add_values
add_headers canonical [] g = g
add_headers canonical ((k, vs) ∷ h) g = add_headers canonical h (add_values (canonical k) vs g)

abbrev pub group : Text → Text → List HeaderEntry → HeaderGroup
group category color entries = record {
  category = category;
  color = color;
  count = length entries;
  entries = entries;
}

-- `groupHeaders`
unfoldable pub group_headers : (Text → Text) → Headers → List HeaderGroup
unfolding add_headers sort_headers
group_headers canonical h =
    let g =
      add_headers canonical (sort_headers h)
        (record { forwarding = []; auth = []; standard = [] }) in
    group (text "Forwarding") (text "info") g.forwarding
    ∷ group (text "Authentication") (text "success") g.auth
    ∷ group (text "Standard") (text "neutral") g.standard
    ∷ []

-- `HeaderTotal` of `buildInspectorData`
unfoldable pub total_count : List HeaderGroup → ℕ
total_count [] = 0
total_count (g ∷ groups) = g.count + total_count groups

-- The body of `handleHeaders`: one line for each value.
value_lines : Text → List Text → Text
value_lines k [] = []
value_lines k (v ∷ vs) = k ++ text ": " ++ v ++ 10 ∷ value_lines k vs

header_lines : Headers → Text
unfolding value_lines
header_lines [] = []
header_lines ((k, vs) ∷ h) = value_lines k vs ++ header_lines h

unfoldable pub handle_headers : Headers → Text
unfolding header_lines sort_headers
handle_headers h = header_lines (sort_headers h)
