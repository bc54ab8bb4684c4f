-- ===== src/Httpd/Inspector/Page.antt =====
-- httpd/inspector.go: the data of the page.
use ztna_lab_appliance.Common.{
  ◌≤◌, true, false, not, ◌||◌, List, [], ◌∷◌, ◌++◌, map, Option, Text, text, text_eq_iff,
  text_eq_refl, ◌≢◌, is_empty, trim_space, split_byte, length, ◌≡◌, ◌↔◌, ◌⊎◌, inl, inr, refl, ap,
  arith, if◌then◌else◌, Bool-cases,
}
use ztna_lab_appliance.Httpd.Server.{Request}
use ztna_lab_appliance.Httpd.Geo.{GeoInfo}
use ztna_lab_appliance.Httpd.Inspector.Groups.{Headers, HeaderEntry, sort_headers, shortened, group}
use ztna_lab_appliance.Httpd.Inspector.Grouping.{
  keep, listing, is_forwarding, is_auth, is_standard, values_count, group_headers_lem,
}
use ztna_lab_appliance.Httpd.Inspector.{
  ip_from_addr, last_differs, forward_chain, auth_user, auth_method, gateway, Connection, Library,
  build_inspector_data,
}

last_is :
    (ip : Text) (chain : List Text)
    → last_differs ip chain ≡ false
    → (hops : List Text) × (chain ≡ hops ++ ip ∷ [])
unfolding last_differs
last_is ip [] e = absurd (let f : true ≡ false = e in cc)
last_is ip (x ∷ []) e =
    let same : x ≡ ip = ground (arith, e, text_eq_iff x ip) in ([], rw same refl)
last_is ip (x ∷ y ∷ xs) e =
    let (hops, rest) = last_is ip (y ∷ xs) e in (x ∷ hops, ap (λ ys. x ∷ ys) rest)

-- The addresses that the first X-Forwarded-For header lists.
abbrev pub listed : Request → List Text
listed r =
    let xff = r.header (text "X-Forwarded-For") in
    if is_empty xff then [] else map trim_space (split_byte b',' xff)

last_differs-append : (ip : Text) (hops : List Text) → last_differs ip (hops ++ ip ∷ []) ≡ false
unfolding last_differs
last_differs-append ip [] = rw (text_eq_refl ip) refl
last_differs-append ip (x ∷ []) = last_differs-append ip []
last_differs-append ip (x ∷ y ∷ hops) = last_differs-append ip (y ∷ hops)

-- The parts, if they end with the address, and else the parts and then the address.
abbrev pub EndsWith : Text → List Text → List Text → Type 0
EndsWith ip parts chain =
    (hops : List Text) × (chain ≡ hops ++ ip ∷ [])
    × ((chain ≡ parts) ⊎ ((hops ≡ parts) × ((front : List Text) → parts ≢ front ++ ip ∷ [])))

forward_chain-EndsWith :
    (split_host_port : Text → Option Text) (r : Request)
    → EndsWith
        (ip_from_addr split_host_port r.remote_addr)
        (listed r)
        (forward_chain split_host_port r)
unfolding forward_chain
forward_chain-EndsWith split_host_port r =
    let ip = ip_from_addr split_host_port r.remote_addr in
    elim (Bool-cases (last_differs ip (listed r))) [
      | inl differs ↦ rw differs (
        listed r,
        refl,
        inr (
          refl,
          λ front e. ground (arith, differs, ap (last_differs ip) e, last_differs-append ip front),
        ),
      )
      | inr same ↦ rw same (let (hops, e) = last_is ip (listed r) same in (hops, e, inl refl))
    ]

identity_iff :
    (user method gate : Text)
    → ((not (is_empty user) || not (is_empty method) || not (is_empty gate)) ≡ false)
      ↔ ((user ≡ []) × (method ≡ []) × (gate ≡ []))
identity_iff [] [] [] = (λ e. (refl, refl, refl), λ h. refl)
identity_iff (c ∷ user) method gate = (λ e. cc, λ h. cc)
identity_iff [] (c ∷ method) gate = (λ e. cc, λ h. cc)
identity_iff [] [] (c ∷ gate) = (λ e. cc, λ h. cc)

-- The data of the page. The forward chain ends with the address of the peer: it is the list of the
-- first X-Forwarded-For header, trimmed, with this address added only where the list does not end with it.
-- The three header groups are the values of all headers, in the order of the keys and under the
-- canonical names: those of the forwarding headers, then of the others those of the authentication
-- headers, then the rest, each in its order and with the values of the second group shortened. So
-- every value is in exactly one group, and the total is the number of all values; no value of an
-- Authorization header is shown with more than 60 bytes. The page shows an identity unless user,
-- authentication method and gateway are all empty.
pub build_inspector_data_lem :
    (lib : Library) (look_up : Text → GeoInfo) (connection : Option Connection) (headers : Headers)
    (r : Request)
    → let page = build_inspector_data lib look_up connection headers r in
      let all = listing lib.canonical (sort_headers headers) in
      EndsWith (ip_from_addr lib.split_host_port r.remote_addr) (listed r) page.forward_chain
      × (page.header_groups
          ≡ group (text "Forwarding") (text "info") (keep is_forwarding all)
            ∷ group (text "Authentication") (text "success") (map shortened (keep is_auth all))
            ∷ group (text "Standard") (text "neutral") (keep is_standard all)
            ∷ [])
      × (page.header_total ≡ values_count headers)
      × ((e : HeaderEntry)
          → e.name ≡ text "Authorization"
          → (is_auth e ≡ true) × (length (shortened e).value ≤ 60))
      × ((page.has_identity ≡ false)
          ↔ ((page.auth_user ≡ []) × (page.auth_method ≡ []) × (page.gateway ≡ [])))
unfolding build_inspector_data
build_inspector_data_lem lib look_up connection headers r =
    let (groups, total, short) = group_headers_lem lib.canonical headers in
    (
      forward_chain-EndsWith lib.split_host_port r,
      groups,
      total,
      short,
      identity_iff (auth_user r) (auth_method r) (gateway r),
    )
