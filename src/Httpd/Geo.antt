-- ===== src/Httpd/Geo.antt =====
-- httpd/geoip.go: the lookup of where an address is, with its cache. What the two services answer is
-- given from outside; a latitude or a longitude is kept as the bits of the float. `LookupGeo` is one
-- step, though it takes the mutex twice.
use ztna_lab_appliance.Common.{
  ℕ, ◌-◌, ◌*◌, ◌/◌, ◌%◌, ◌<◌, Bool, true, false, ◌&&◌, ◌||◌, List, [], ◌∷◌, ◌++◌, Option, none,
  some, Text, text, text_eq_refl, is_empty, decimal, Map, lookup, insert, lookup-insert, ◌≡◌, arith,
  ltb, ◌==◌, if◌then◌else◌, Bool-cases, inl, inr, ◌⊎◌, ◌≤◌, refl,
}
use ztna_lab_appliance.Net.{Ip, parse_ip, to_4}

-- `GeoInfo`
pub record GeoInfo : Type 0 where
  pub ip : Text
  pub country : Text
  pub country_code : Text
  pub region : Text
  pub city : Text
  pub isp : Text
  pub org : Text
  pub asn : Text
  pub latitude : ℕ
  pub longitude : ℕ
  pub source : Text
  pub error : Text
  pub private : Bool

abbrev pub blank : GeoInfo
blank = record {
  ip = [];
  country = [];
  country_code = [];
  region = [];
  city = [];
  isp = [];
  org = [];
  asn = [];
  latitude = 0;
  longitude = 0;
  source = [];
  error = [];
  private = false;
}

-- `geoCacheEntry`
pub record CacheEntry : Type 0 where
  pub info : GeoInfo
  pub fetched : ℕ
  pub ok : Bool

abbrev minute : ℕ
minute = 60 * 1_000_000_000

-- `geoTTLOK` and `geoTTLBad`, in nanoseconds
abbrev pub ttl : Bool → ℕ
ttl ok = if ok then 24 * 60 * minute else 5 * minute

-- What ip-api.com or ipwho.is answers: nothing that can be read, a refusal with its message, or the
-- fields of the place with the number of the autonomous system, as text for the one and as a number
-- for the other.
pub data Answer : Type 0 where
  unreadable : Answer
  refused : Text → Answer
  place : GeoInfo → ℕ → Answer

-- `fetchIPAPI`, less its log lines
unfoldable pub fetch_ip_api : Text → Answer → Option GeoInfo
fetch_ip_api ip Answer.unreadable = none
fetch_ip_api ip (Answer.refused message) =
    some (record blank { ip = ip; error = message; source = text "ip-api.com" })
fetch_ip_api ip (Answer.place info asn) =
    some (record info { source = text "ip-api.com"; error = []; private = false })

-- `fetchIPWho`, less its log lines
unfoldable pub fetch_ip_who : Text → Answer → Option GeoInfo
fetch_ip_who ip Answer.unreadable = none
fetch_ip_who ip (Answer.refused message) =
    some (record blank { ip = ip; error = message; source = text "ipwho.is" })
fetch_ip_who ip (Answer.place info asn) = some (record info {
  asn = if asn == 0 then [] else text "AS" ++ decimal asn;
  source = text "ipwho.is";
  error = [];
  private = false;
})

-- The tests of `isPrivateIP` on an address of version 4, and on any other.
abbrev private_v4 : List ℕ → Bool
private_v4 (a ∷ b ∷ c ∷ d ∷ []) =
    a == 127
    || (a == 169 && b == 254)
    || (a == 224 && b == 0 && c == 0)
    || (a == 0 && b == 0 && c == 0 && d == 0)
    || a == 10
    || (a == 172 && b / 16 == 1)
    || (a == 192 && b == 168)
    || (a == 100 && b / 64 == 1)
private_v4 _ = false

abbrev all_zero : List ℕ → Bool
all_zero [] = true
all_zero (g ∷ gs) = g == 0 && all_zero gs

abbrev is_loopback_v6 : List ℕ → Bool
is_loopback_v6 [] = false
is_loopback_v6 (g ∷ []) = g == 1
is_loopback_v6 (g ∷ h ∷ gs) = g == 0 && is_loopback_v6 (h ∷ gs)

abbrev private_v6 : List ℕ → Bool
private_v6 [] = false
private_v6 (g ∷ gs) =
    is_loopback_v6 (g ∷ gs)
    || g / 64 == 1018
    || (g / 256 == 255 && g % 16 == 2)
    || all_zero (g ∷ gs)
    || g / 512 == 126

-- `isPrivateIP`
unfoldable pub is_private_ip : Text → Bool
is_private_ip s = elim (parse_ip s) [
  | none ↦ false
  | some ip ↦ elim (to_4 ip) [ some bytes ↦ private_v4 bytes | none ↦ private_v6 ip ]
]

-- The result of asking the first service, and the second if the first fails.
unfoldable pub ask : Text → Answer → Answer → GeoInfo
unfolding fetch_ip_api fetch_ip_who
ask ip first second =
    let failed = record blank { ip = ip; error = text "all geo APIs failed" } in
    let fallback = fetch_ip_who ip second in
    elim (fetch_ip_api ip first) [
      | some info ↦ if is_empty info.error then info else elim fallback [
        | some other ↦ (if is_empty other.error then other else info)
        | none ↦ info
      ]
      | none ↦ elim fallback [
        | some other ↦ (if is_empty other.error then other else failed)
        | none ↦ failed
      ]
    ]

-- Whether an entry is recent enough at a time.
abbrev pub is_fresh : ℕ → CacheEntry → Bool
is_fresh now entry = ltb (now - entry.fetched) (ttl entry.ok)

-- What a lookup returns: the information, the cache after it, and whether a service was asked.
pub record Found : Type 0 where
  pub info : GeoInfo
  pub cache : Map CacheEntry
  pub asked : Bool

-- The end of `LookupGeo`: `later` is the time at which the answer is stored.
unfoldable pub fetch : ℕ → Answer → Answer → Text → Map CacheEntry → Found
unfolding ask
fetch later first second ip cache =
    let info = ask ip first second in
    record {
      info = info;
      cache = insert ip (record { info = info; fetched = later; ok = is_empty info.error }) cache;
      asked = true;
    }

unfoldable pub lookup_cached : ℕ → ℕ → Answer → Answer → Text → Map CacheEntry → Found
unfolding fetch
lookup_cached now later first second ip cache = elim (lookup ip cache) [
  | none ↦ fetch later first second ip cache
  | some entry ↦
      if is_fresh now entry
      then record { info = entry.info; cache = cache; asked = false }
      else fetch later first second ip cache
]

-- `LookupGeo`
unfoldable pub lookup_geo : ℕ → ℕ → Answer → Answer → Text → Map CacheEntry → Found
unfolding lookup_cached is_private_ip
lookup_geo now later first second ip cache =
    if is_empty ip
    then record { info = record blank { error = text "no IP" }; cache = cache; asked = false }
    else if is_private_ip ip
    then record {
      info = record blank { ip = ip; private = true; source = text "local" };
      cache = cache;
      asked = false;
    }
    else lookup_cached now later first second ip cache

lookup_again :
    (now now' later later' : ℕ) (first second first' second' : Answer) (ip : Text)
    (cache : Map CacheEntry)
    → let found = lookup_cached now later first second ip cache in
      found.asked ≡ true
      → now' - later < ttl (is_empty found.info.error)
      → lookup_cached now' later' first' second' ip found.cache
        ≡ record { info = found.info; cache = found.cache; asked = false }
unfolding lookup_cached
lookup_again now now' later later' first second first' second' ip cache asked fresh = ground (
  arith,
  lookup-insert ip ip
      (record {
        info = ask ip first second;
        fetched = later;
        ok = is_empty (ask ip first second).error;
      })
      cache,
  text_eq_refl ip,
)

-- Once a lookup has asked a service and stored the answer at the time `later`, a lookup of the same
-- address asks no service, changes nothing and returns the same information, for less than 86,400 s after
-- that if the answer has no error, and less than 300 s if it has one.
pub lookup_geo_again :
    (now now' later later' : ℕ) (first second first' second' : Answer) (ip : Text)
    (cache : Map CacheEntry)
    → let found = lookup_geo now later first second ip cache in
      found.asked ≡ true
      → now' - later < (if is_empty found.info.error then 86_400_000_000_000 else 300_000_000_000)
      → lookup_geo now' later' first' second' ip found.cache
        ≡ record { info = found.info; cache = found.cache; asked = false }
unfolding lookup_geo
lookup_geo_again now now' later later' first second first' second' ip cache asked fresh =
    elim (Bool-cases (is_empty ip)) [
      | inl empty ↦ absurd (let f = rw empty at asked in cc)
      | inr named ↦ elim (Bool-cases (is_private_ip ip)) [
        | inl local ↦ absurd (let f = rw (named, local) at asked in cc)
        | inr public ↦
            rw (named, public)
              (lookup_again now now' later later' first second first' second' ip cache
                (rw (named, public) at asked) (rw (named, public) at fresh))
      ]
    ]

-- The ranges of version 4: 127.0.0.0/8, 10.0.0.0/8, 172.16.0.0/12, 192.168.0.0/16, 169.254.0.0/16,
-- 100.64.0.0/10, 224.0.0.0/24 and 0.0.0.0.
abbrev pub IsLocalV4 : ℕ → ℕ → ℕ → ℕ → Type 0
IsLocalV4 a b c d =
    (a ≡ 127)
    ⊎ (a ≡ 10)
    ⊎ ((a ≡ 172) × (16 ≤ b) × (b ≤ 31))
    ⊎ ((a ≡ 192) × (b ≡ 168))
    ⊎ ((a ≡ 169) × (b ≡ 254))
    ⊎ ((a ≡ 100) × (64 ≤ b) × (b ≤ 127))
    ⊎ ((a ≡ 224) × (b ≡ 0) × (c ≡ 0))
    ⊎ ((a ≡ 0) × (b ≡ 0) × (c ≡ 0) × (d ≡ 0))

-- The ranges of version 6, by the groups: ::1, ::, fe80::/10, fc00::/7 and ff02::/16 with any flags.
abbrev pub IsLocalV6 : Ip → Type 0
IsLocalV6 ip =
    (ip ≡ 0 ∷ 0 ∷ 0 ∷ 0 ∷ 0 ∷ 0 ∷ 0 ∷ 1 ∷ [])
    ⊎ (ip ≡ 0 ∷ 0 ∷ 0 ∷ 0 ∷ 0 ∷ 0 ∷ 0 ∷ 0 ∷ [])
    ⊎ ((g : ℕ) × (gs : List ℕ) × (ip ≡ g ∷ gs)
        × (((65152 ≤ g) × (g ≤ 65215))
            ⊎ ((64512 ≤ g) × (g ≤ 65023))
            ⊎ ((65280 ≤ g) × (g ≤ 65535) × (g % 16 ≡ 2))))

-- An address that is not to be asked about.
abbrev pub IsLocal : Text → Type 0
IsLocal s =
    (ip : Ip) × (parse_ip s ≡ some ip)
    × (((a : ℕ) × (b : ℕ) × (c : ℕ) × (d : ℕ) × (to_4 ip ≡ some (a ∷ b ∷ c ∷ d ∷ []))
          × IsLocalV4 a b c d)
        ⊎ ((to_4 ip ≡ none) × IsLocalV6 ip))

private_v4_lem : (a b c d : ℕ) → IsLocalV4 a b c d → private_v4 (a ∷ b ∷ c ∷ d ∷ []) ≡ true
private_v4_lem a b c d h = ground arith

private_v6_lem : (ip : Ip) → IsLocalV6 ip → private_v6 ip ≡ true
private_v6_lem ip (inl e) = rw e refl
private_v6_lem ip (inr (inl e)) = rw e refl
private_v6_lem ip (inr (inr (g, gs, e, h))) = rw e (ground arith)

IsLocal-is_private_ip : (s : Text) → IsLocal s → is_private_ip s ≡ true
unfolding is_private_ip
IsLocal-is_private_ip s (ip, parsed, inl (a, b, c, d, bytes, local)) =
    ground (arith, parsed, bytes, private_v4_lem a b c d local)
IsLocal-is_private_ip s (ip, parsed, inr (no_bytes, local)) =
    ground (arith, parsed, no_bytes, private_v6_lem ip local)

-- No service is asked about an address that is empty or parses as one in 127.0.0.0/8, 10.0.0.0/8,
-- 172.16.0.0/12, 192.168.0.0/16, 169.254.0.0/16, 100.64.0.0/10, 224.0.0.0/24, 0.0.0.0, ::1, ::, fe80::/10,
-- fc00::/7 or the multicast of the local link, and the cache stays as it is.
pub lookup_geo_private :
    (now later : ℕ) (first second : Answer) (ip : Text) (cache : Map CacheEntry)
    → (ip ≡ []) ⊎ IsLocal ip
    → let found = lookup_geo now later first second ip cache in
      (found.asked ≡ false) × (found.cache ≡ cache)
unfolding lookup_geo
lookup_geo_private now later first second ip cache (inl empty) = rw empty (refl, refl)
lookup_geo_private now later first second ip cache (inr local) = elim (Bool-cases (is_empty ip)) [
  | inl empty ↦ rw empty (refl, refl)
  | inr named ↦ rw (named, IsLocal-is_private_ip ip local) (refl, refl)
]
