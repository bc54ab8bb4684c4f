-- ===== src/Dns/Server/Answers.antt =====
-- dns/server.go: what the server writes back for each query.
use ztna_lab_appliance.Common.{
  ◌<◌, true, false, List, [], ◌∷◌, ◌++◌, none, some, Text, text, ◌≡◌, refl, arith, lookup, length,
  split_once, Lacks, strip_prefix?, ◌==◌, ◌&&◌, ◌||◌,
}
use ztna_lab_appliance.Dns.Records.{Store, hop, normalize, lookup_a, max_hops, contains}
use ztna_lab_appliance.Dns.Records.Lookup.{Resolves, found, via, lookup_a_iff}
use ztna_lab_appliance.Dns.Server.{
  Question, Rr, Sent, Mdns, Exchange, type_a, type_cname, dns_fqdn, cname_rr, a_rr, v4_bytes,
  chain_rrs, handle,
}

-- `name` leads to the address `ip` by the CNAME records of `hops`, pairs of an owner and a target.
pub data Walk (s : Store) : Text → List (Text × Text) → Text → Type 0 where
  arrive : {name ip : Text} → lookup name s.a ≡ some ip → Walk s name [] ip
  step :
      {name next ip : Text} {hops : List (Text × Text)}
      → lookup name s.a ≡ none
      → lookup name s.cname ≡ some next
      → Walk s next hops ip
      → Walk s name ((name, next) ∷ hops) ip

-- The CNAME records of the hops, in order, with fully qualified names.
abbrev pub hop_rrs : List (Text × Text) → List Rr
hop_rrs [] = []
hop_rrs ((name, next) ∷ hops) = cname_rr (dns_fqdn name) (dns_fqdn next) ∷ hop_rrs hops

-- No target of a CNAME record holds a space.
abbrev pub HasPlainTargets : Store → Type 0
HasPlainTargets s = (k next : Text) → lookup k s.cname ≡ some next → Lacks 32 next

strip_arrow : (s : Text) → strip_prefix? (text " -> ") (text " -> " ++ s) ≡ some s
unfolding strip_prefix? text
strip_arrow s = refl

split_once-hop :
    (name next : Text)
    → Lacks 32 name
    → split_once (text " -> ") (hop name next) ≡ some (name, next)
unfolding split_once hop strip_prefix? text
split_once-hop [] next plain = refl
split_once-hop (c ∷ name) next plain = ground (arith, split_once-hop name next plain.1)

-- What the loop over the chain makes of a resolution whose names hold no space.
Walk-of_Resolves :
    (s : Store) {name ip : Text} {chain : List Text}
    → HasPlainTargets s
    → Lacks 32 name
    → Resolves s name chain ip
    → (hops : List (Text × Text)) × Walk s name hops ip
      × (chain_rrs chain ≡ hop_rrs hops)
      × (length hops ≡ length chain)
unfolding chain_rrs
Walk-of_Resolves s targets plain (found e) = ([], arrive e, refl, refl)
Walk-of_Resolves s targets plain (via {name} {next} {ip} {chain} e c r) =
    let (hops, walk, same, size) = Walk-of_Resolves s targets (targets name next c) r in
    (
      (name, next) ∷ hops,
      step e c walk,
      ground (arith, split_once-hop name next plain),
      omega arith,
    )

-- A reply of the server's own to the request, with the authoritative flag.
abbrev pub IsAuthoritative : {Msg : Type 0} → Msg → Sent Msg → Type 0
IsAuthoritative r (Sent.replied reply) = (reply.request ≡ r) × (reply.authoritative ≡ true)
IsAuthoritative r _ = ⊥

module _ {Msg : Type 0} (m : Mdns Msg) (exchange : Msg → Exchange Msg) (s : Store) where
  -- An A query whose name resolves locally, through fewer than eight hops and names that hold no
  -- space, is answered with authority: one CNAME record for each hop, in order, and then an A record
  -- that is owned by the name of the question. This holds `net.ParseIP(ip).To4()`: the four bytes of an
  -- address of version 4, but no bytes for one of version 6, which the records accept as well. The
  -- upstream server is not asked.
  pub handle_local :
      (r : Msg) (q : Question) (more : List Question) (client ip : Text) (chain : List Text)
      → m.question r ≡ q ∷ more
      → q.qtype ≡ type_a
      → HasPlainTargets s
      → Lacks 32 (normalize (normalize q.name))
      → Resolves s (normalize (normalize q.name)) chain ip
      → length chain < max_hops
      → (hops : List (Text × Text)) × Walk s (normalize (normalize q.name)) hops ip
        × ((handle m exchange s r client).0
            ≡ Sent.replied (record {
              request = r;
              authoritative = true;
              answer = hop_rrs hops ++ a_rr q.name (v4_bytes ip) ∷ [];
            }))
  unfolding handle
  handle_local r q more client ip chain asked is_a targets plain resolves short =
      let (hops, walk, same, _) = Walk-of_Resolves s targets plain resolves in
      let local = (lookup_a_iff s (normalize q.name) ip chain).1 (resolves, short) in
      (hops, walk, ground (arith, local))

  -- The message that goes back when the upstream server is asked.
  abbrev pub upstream : Msg → Sent Msg
  upstream r = elim (exchange r) [
    | Exchange.response resp ↦ Sent.relayed resp
    | Exchange.exchange_error e ↦ Sent.failed r
  ]

  -- A query is sent upstream, and the response relayed unchanged or, on an error, a failure sent,
  -- exactly in these cases: its type is neither A nor CNAME; it is an A query whose name has no
  -- local resolution; it is a CNAME query whose name has no CNAME record. In all other cases the
  -- server sends an authoritative reply of its own. A message with no question is failed and nothing
  -- is logged.
  pub handle_upstream :
      (r : Msg) (client : Text)
      → (m.question r ≡ [] → handle m exchange s r client ≡ (Sent.failed r, []))
        × ((q : Question) (more : List Question)
            → m.question r ≡ q ∷ more
            → let local_a = q.qtype == type_a && (lookup_a s (normalize q.name)).ok in
              let local_cname = q.qtype == type_cname && contains (normalize q.name) s.cname in
              (local_a || local_cname ≡ false → (handle m exchange s r client).0 ≡ upstream r)
              × (local_a || local_cname ≡ true
                  → IsAuthoritative r (handle m exchange s r client).0))
  unfolding handle
  handle_upstream r client =
      (λ asked. ground (arith), λ q more asked. (λ remote. ground (arith), λ local. ground (arith)))
