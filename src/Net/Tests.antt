-- ===== src/Net/Tests.antt =====
-- Addresses that `net.ParseIP` accepts and refuses.
use ztna_lab_appliance.Common.{◌≡◌, refl, [], ◌∷◌, none, some, text}
use ztna_lab_appliance.Net.{parse_ip}

parse_ip-runs :
    (parse_ip (text "10.0.0.5") ≡ some (0 ∷ 0 ∷ 0 ∷ 0 ∷ 0 ∷ 65535 ∷ 2560 ∷ 5 ∷ []))
    × (parse_ip (text "10.0.0.05") ≡ none)
    × (parse_ip (text "10.0.0.256") ≡ none)
    × (parse_ip (text "1.2.3") ≡ none)
    × (parse_ip (text "::") ≡ some (0 ∷ 0 ∷ 0 ∷ 0 ∷ 0 ∷ 0 ∷ 0 ∷ 0 ∷ []))
    × (parse_ip (text "fe80::1") ≡ some (65152 ∷ 0 ∷ 0 ∷ 0 ∷ 0 ∷ 0 ∷ 0 ∷ 1 ∷ []))
    × (parse_ip (text "::ffff:1.2.3.4") ≡ some (0 ∷ 0 ∷ 0 ∷ 0 ∷ 0 ∷ 65535 ∷ 258 ∷ 772 ∷ []))
    × (parse_ip (text "1:2:3:4:5:6:7:8") ≡ some (1 ∷ 2 ∷ 3 ∷ 4 ∷ 5 ∷ 6 ∷ 7 ∷ 8 ∷ []))
    × (parse_ip (text "1:2:3:4:5:6:7::") ≡ some (1 ∷ 2 ∷ 3 ∷ 4 ∷ 5 ∷ 6 ∷ 7 ∷ 0 ∷ []))
    × (parse_ip (text "1::2::3") ≡ none)
    × (parse_ip (text "12345::") ≡ none)
    × (parse_ip (text "fe80::1%eth0") ≡ none)
unfolding parse_ip text
parse_ip-runs = (refl, refl, refl, refl, refl, refl, refl, refl, refl, refl, refl, refl)
