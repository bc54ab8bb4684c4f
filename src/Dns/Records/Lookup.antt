-- ===== src/Dns/Records/Lookup.antt =====
-- dns/records.go: `lookupA` against a relation that says what a local answer is.
use ztna_lab_appliance.Common.{
  ℕ, zero, suc, ◌<◌, true, false, List, [], ◌∷◌, ◌++◌, none, some, Text, ◌≡◌, ◌↔◌, arith, ap,
  lookup, length, Option-cases, Bool-cases, sym, append-nil, append_assoc, ◌∙◌, inl, inr,
}
use ztna_lab_appliance.Dns.Records.{Store, Local, hop, follow, max_hops, lookup_a, normalize}

-- `name` leads to the address `ip` through the CNAME hops of `chain`.
pub data Resolves (s : Store) : Text → List Text → Text → Type 0 where
  found : {name ip : Text} → lookup name s.a ≡ some ip → Resolves s name [] ip
  via :
      {name next ip : Text} {chain : List Text}
      → lookup name s.a ≡ none
      → lookup name s.cname ≡ some next
      → Resolves s next chain ip
      → Resolves s name (hop name next ∷ chain) ip

abbrev pub answer : Text → List Text → Local
answer ip chain = record { ip = ip; chain = chain; ok = true }

follow_complete :
    (rounds : ℕ) (s : Store) {name ip : Text} {chain : List Text} (before : List Text)
    → Resolves s name chain ip
    → length chain < rounds
    → follow rounds s name before ≡ answer ip (before ++ chain)
unfolding follow
follow_complete zero s before r h = absurd (omega arith)
follow_complete (suc n) s before (found e) h = ground (arith, append-nil before)
follow_complete (suc n) s before (via {name} {next} {ip} {chain} e c r) h = ground (
  arith,
  follow_complete n s (before ++ hop name next ∷ []) r (omega arith),
  append_assoc before (hop name next ∷ []) chain,
)

follow_sound :
    (rounds : ℕ) (s : Store) (name : Text) (before : List Text)
    → (follow rounds s name before).ok ≡ true
    → (ip : Text) × (chain : List Text) × Resolves s name chain ip
      × (length chain < rounds)
      × (follow rounds s name before ≡ answer ip (before ++ chain))
unfolding follow
follow_sound zero s name before h = cc
follow_sound (suc n) s name before h = elim (Option-cases (lookup name s.a)) [
  | inr (ip, e) ↦ (ip, [], found e, omega arith, ground (arith, append-nil before))
  | inl e ↦ elim (Option-cases (lookup name s.cname)) [
    | inl missing ↦ ground arith
    | inr (next, c) ↦
        let (ip, chain, r, short, same) =
          follow_sound n s next (before ++ hop name next ∷ []) (ground arith) in
        (
          ip,
          hop name next ∷ chain,
          via e c r,
          omega arith,
          ground (arith, append_assoc before (hop name next ∷ []) chain),
        )
  ]
]

stuck :
    (s : Store) (P : Text → Type 0)
    → ((k : Text) → P k → lookup k s.a ≡ none)
    → ((k next : Text) → P k → lookup k s.cname ≡ some next → P next)
    → {name ip : Text} {chain : List Text} → Resolves s name chain ip
    → P name
    → ⊥
stuck s P no_address closed (found {name} e) p = cc (no_address name p)
stuck s P no_address closed (via {name} {next} _ c r) p =
    stuck s P no_address closed r (closed name next p c)

-- `lookupA` succeeds exactly when the name, normalized, leads to an A record through fewer than
-- eight CNAME hops, and then its result is that record's address with those hops in order.
pub lookup_a_iff :
    (s : Store) (name ip : Text) (chain : List Text)
    → (lookup_a s name ≡ answer ip chain)
      ↔ (Resolves s (normalize name) chain ip × (length chain < max_hops))
unfolding lookup_a
lookup_a_iff s name ip chain = (
  λ e.
      let (ip', chain', r, short, same) =
        follow_sound max_hops s (normalize name) [] (ap (λ (l : Local). l.ok) e) in
      let same_ip : ip' ≡ ip = ap (λ (l : Local). l.ip) (sym same ∙ e) in
      let same_chain : chain' ≡ chain = ap (λ (l : Local). l.chain) (sym same ∙ e) in
      rw (← same_ip, ← same_chain) (r, short),
  λ (r, short). follow_complete max_hops s [] r short,
)

-- Names that only lead to one another by CNAME records, such as a cycle, get no local answer.
pub lookup_a_closed :
    (s : Store) (P : Text → Type 0)
    → ((k : Text) → P k → lookup k s.a ≡ none)
    → ((k next : Text) → P k → lookup k s.cname ≡ some next → P next)
    → (name : Text) → P (normalize name)
    → (lookup_a s name).ok ≡ false
unfolding lookup_a
lookup_a_closed s P no_address closed name p = elim (Bool-cases (lookup_a s name).ok) [
  | inr e ↦ e
  | inl e ↦
      let (ip, chain, r, short, same) = follow_sound max_hops s (normalize name) [] e in
      absurd (stuck s P no_address closed r p)
]
