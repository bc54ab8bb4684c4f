-- ===== src/Dns/Server.antt =====
-- dns/server.go: the UDP server. The message type of the miekg/dns package and what the program
-- asks of that package are parameters: `question` (the field of a message), `type_to_string` and
-- the answer of `Client.Exchange`. A reply is the request given to `SetReply` with the fields that
-- the program sets.
pub mod Answers
pub mod Lifecycle
use ztna_lab_appliance.Common.{
  ℕ, Bool, true, false, List, [], ◌∷◌, ◌++◌, Option, none, some, Text, text, lookup, is_empty, ◌==◌,
  if◌then◌else◌, split_once, ends_with, LogCall, ◌⊎◌, inl, inr,
}
use ztna_lab_appliance.Net.{parse_ip, to_4}
use ztna_lab_appliance.Dns.Records
use ztna_lab_appliance.Dns.Records.{Store, normalize, lookup_a}

pub record Question : Type 0 where
  pub name : Text
  pub qtype : ℕ

abbrev pub type_a : ℕ
type_a = 1

abbrev pub type_cname : ℕ
type_cname = 5

-- The data of a record: the target of a CNAME, or the bytes of an address (`none` is a nil `net.IP`).
pub data Rdata : Type 0 where
  target : Text → Rdata
  address : Option (List ℕ) → Rdata

pub record Rr : Type 0 where
  pub name : Text
  pub rrtype : ℕ
  pub class : ℕ
  pub ttl : ℕ
  pub rdata : Rdata

-- `dnsFqdn`
unfoldable pub dns_fqdn : Text → Text
unfolding ends_with
dns_fqdn s = if ends_with b'.' s then s else s ++ text "."

-- Class 1 is `ClassINET`.
unfoldable pub cname_rr : Text → Text → Rr
cname_rr owner t = record {
  name = owner;
  rrtype = type_cname;
  class = 1;
  ttl = 60;
  rdata = Rdata.target t;
}

unfoldable pub a_rr : Text → Option (List ℕ) → Rr
a_rr owner ip = record {
  name = owner;
  rrtype = type_a;
  class = 1;
  ttl = 60;
  rdata = Rdata.address ip;
}

-- `net.ParseIP(ip).To4()`; `To4` of a nil address is nil.
unfoldable pub v4_bytes : Text → Option (List ℕ)
v4_bytes ip = elim (parse_ip ip) [ none ↦ none | some x ↦ to_4 x ]

-- One round of the loop over the chain: a hop that does not split is skipped.
unfoldable pub hop_rr : Text → List Rr → List Rr
unfolding split_once cname_rr dns_fqdn
hop_rr hop rest = elim (split_once (text " -> ") hop) [
  | none ↦ rest
  | some (name, next) ↦ cname_rr (dns_fqdn name) (dns_fqdn next) ∷ rest
]

unfoldable pub chain_rrs : List Text → List Rr
unfolding hop_rr
chain_rrs [] = []
chain_rrs (hop ∷ chain) = hop_rr hop (chain_rrs chain)

-- The reply that the program builds.
pub record Reply (Msg : Type 0) : Type 0 where
  pub request : Msg
  pub authoritative : Bool
  pub answer : List Rr

-- What a handler writes back: a reply of its own, the failure of `HandleFailed` for a request, or
-- the message that came from upstream.
pub data Sent (Msg : Type 0) : Type 0 where
  replied : Reply Msg → Sent Msg
  failed : Msg → Sent Msg
  relayed : Msg → Sent Msg

-- What the program uses of the miekg/dns package.
pub record Mdns (Msg : Type 0) : Type 0 where
  pub question : Msg → List Question
  pub type_to_string : ℕ → Text

-- The result of `Client.Exchange`: the response, or the text of the error.
pub data Exchange (Msg : Type 0) : Type 0 where
  response : Msg → Exchange Msg
  exchange_error : Text → Exchange Msg

abbrev dns_call : Text → List LogCall
dns_call message = record { module_name = text "DNS "; message = message } ∷ []

abbrev from_text : Text → Text
from_text client = text "from=" ++ client ++ text "  "

module _ {Msg : Type 0} (m : Mdns Msg) (exchange : Msg → Exchange Msg) (s : Store) where
  -- `forward`; the query goes to `exchange`, which stands for the upstream server.
  unfoldable pub forward : Msg → Question → Text → Sent Msg × List LogCall
  forward r q client = elim (exchange r) [
    | Exchange.response resp ↦ (
      Sent.relayed resp,
      dns_call (
          from_text client
          ++ m.type_to_string q.qtype
          ++ text " "
          ++ q.name
          ++ text "  (forwarded)"),
    )
    | Exchange.exchange_error e ↦
        (Sent.failed r, dns_call (from_text client ++ text "forward error: " ++ e))
  ]

  -- `answerA`
  unfoldable pub answer_a : Msg → Question → Text → Sent Msg × List LogCall
  unfolding forward chain_rrs v4_bytes a_rr
  answer_a r q client =
      let name = normalize q.name in
      let found = lookup_a s name in
      let reply : Reply Msg = record {
        request = r;
        authoritative = true;
        answer = chain_rrs found.chain ++ a_rr q.name (v4_bytes found.ip) ∷ [];
      } in
      if found.ok
      then (
        Sent.replied reply,
        dns_call
            (from_text client ++ text "A " ++ name ++ text " = " ++ found.ip ++ text "  (local)"),
      )
      else forward r q client

  -- `answerCNAME`
  unfoldable pub answer_cname : Msg → Question → Text → Sent Msg × List LogCall
  unfolding forward cname_rr dns_fqdn
  answer_cname r q client =
      let name = normalize q.name in
      elim (lookup name s.cname) [
        | none ↦ forward r q client
        | some t ↦ (
          Sent.replied (record {
            request = r;
            authoritative = true;
            answer = cname_rr q.name (dns_fqdn t) ∷ [];
          }),
          dns_call
              (from_text client ++ text "CNAME " ++ name ++ text " = " ++ t ++ text "  (local)"),
        )
      ]

  dispatch : Msg → List Question → Text → Sent Msg × List LogCall
  unfolding answer_a answer_cname forward
  dispatch r [] client = (Sent.failed r, [])
  dispatch r (q ∷ more) client =
      if q.qtype == type_a
      then answer_a r q client
      else if q.qtype == type_cname
      then answer_cname r q client
      else forward r q client

  -- `handle`: one message is written for every query.
  unfoldable pub handle : Msg → Text → Sent Msg × List LogCall
  unfolding dispatch
  handle r client = dispatch r (m.question r) client

-- `net.Addr`, and `remoteIP` of it: the text of the address of a UDP peer, or of any other.
pub data Addr : Type 0 where
  udp other : Text → Addr

unfoldable pub remote_ip : Addr → Text
remote_ip (Addr.udp ip) = ip
remote_ip (Addr.other whole) = whole
