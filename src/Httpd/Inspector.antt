-- ===== src/Httpd/Inspector.antt =====
-- httpd/inspector.go: what `buildInspectorData` puts on the page. Rendering the template, the time and
-- the embedded file are left out. `header` of the request is `r.Header.Get`, and the map of all headers is given
-- beside it.
pub mod Groups
pub mod Grouping
pub mod Page
use ztna_lab_appliance.Common.{
  ℕ, ◌+◌, ◌-◌, zero, suc, ◌/◌, ◌%◌, Bool, true, false, not, ◌||◌, List, [], ◌∷◌, ◌++◌, Option, none,
  some, Text, text, text_eq, is_empty, has_prefix, trim_space, split_byte, ltb, ◌==◌, map,
  if◌then◌else◌, length, take, fields,
}
use ztna_lab_appliance.Httpd.Server.{Request, Response, client_ip}
use ztna_lab_appliance.Httpd.Geo.{GeoInfo}
use ztna_lab_appliance.Httpd.Inspector.Groups.{Headers, HeaderGroup, group_headers, total_count}

-- `ipFromAddr`: `split_host_port` is `net.SplitHostPort`, less the port.
unfoldable pub ip_from_addr : (Text → Option Text) → Text → Text
ip_from_addr split_host_port addr = elim (split_host_port addr) [ none ↦ addr | some host ↦ host ]

-- `chain[len(chain)-1] != ip`, of a list that may be empty.
unfoldable pub last_differs : Text → List Text → Bool
last_differs ip [] = true
last_differs ip (x ∷ []) = not (text_eq x ip)
last_differs ip (x ∷ y ∷ xs) = last_differs ip (y ∷ xs)

-- `ForwardChain`
unfoldable pub forward_chain : (Text → Option Text) → Request → List Text
unfolding ip_from_addr last_differs
forward_chain split_host_port r =
    let xff = r.header (text "X-Forwarded-For") in
    let chain = if is_empty xff then [] else map trim_space (split_byte b',' xff) in
    let direct = ip_from_addr split_host_port r.remote_addr in
    if last_differs direct chain then chain ++ direct ∷ [] else chain

-- `Proxied`
unfoldable pub is_proxied : Request → Bool
is_proxied r =
    not (is_empty (r.header (text "X-Forwarded-For")))
    || not (is_empty (r.header (text "X-Real-IP")))
    || not (is_empty (r.header (text "Via")))

-- `AuthMethod`
unfoldable pub auth_method : Request → Text
auth_method r =
    let a = r.header (text "Authorization") in
    if is_empty a
    then []
    else if has_prefix a (text "Bearer ")
    then text "Bearer token"
    else if has_prefix a (text "Basic ")
    then text "Basic auth"
    else if has_prefix a (text "Digest ")
    then text "Digest auth"
    else text "Custom scheme"

-- `firstNonEmptyHeader`
unfoldable pub first_non_empty_header : Request → List Text → Text
first_non_empty_header r [] = []
first_non_empty_header r (k ∷ keys) =
    let rest = first_non_empty_header r keys in if is_empty (r.header k) then rest else r.header k

abbrev pub auth_user : Request → Text
auth_user r = first_non_empty_header r (
    text "X-User-Email"
    ∷ text "X-Authenticated-User"
    ∷ text "X-User"
    ∷ text "Cf-Access-Authenticated-User-Email"
    ∷ text "X-Goog-Authenticated-User-Email"
    ∷ [])

abbrev second : List Text → Text
second (x ∷ y ∷ xs) = y
second _ = []

-- `Gateway`
unfoldable pub gateway : Request → Text
unfolding fields
gateway r =
    let source = r.header (text "X-Auth-Source") in
    if is_empty source then second (fields (r.header (text "Via"))) else source

abbrev hex_digit : ℕ → ℕ
hex_digit n = if ltb n 10 then b'0' + n else b'a' + (n - 10)

-- `tlsVersionName`, of a number below 2^16.
unfoldable pub tls_version_name : ℕ → Text
tls_version_name v =
    if v == 769
    then text "TLS 1.0"
    else if v == 770
    then text "TLS 1.1"
    else if v == 771
    then text "TLS 1.2"
    else if v == 772
    then text "TLS 1.3"
    else text "0x"
      ++ hex_digit (v / 4096)
        ∷ hex_digit (v / 256 % 16)
        ∷ hex_digit (v / 16 % 16)
        ∷ hex_digit (v % 16)
        ∷ []

-- What `r.TLS` tells: the version, the name of the cipher suite and the server's name.
pub record Connection : Type 0 where
  pub version : ℕ
  pub cipher : Text
  pub server_name : Text

-- `TLSInfo`
pub record TlsInfo : Type 0 where
  pub plain : Bool
  pub version : Text
  pub cipher : Text
  pub sni : Text
  pub proto_fwd : Text

unfoldable pub tls_info : Option Connection → Request → TlsInfo
unfolding tls_version_name
tls_info none r = record {
  plain = true;
  version = [];
  cipher = [];
  sni = [];
  proto_fwd = r.header (text "X-Forwarded-Proto");
}
tls_info (some c) r = record {
  plain = false;
  version = tls_version_name c.version;
  cipher = c.cipher;
  sni = c.server_name;
  proto_fwd = r.header (text "X-Forwarded-Proto");
}

-- `InspectorData`, less the time and what is copied from the request: the host, the protocol and the
-- length of the body.
pub record InspectorData : Type 0 where
  pub verb : Text
  pub path : Text
  pub real_client_ip : Text
  pub direct_peer : Text
  pub forward_chain : List Text
  pub proxied : Bool
  pub header_groups : List HeaderGroup
  pub header_total : ℕ
  pub tls : TlsInfo
  pub geo : GeoInfo
  pub auth_user : Text
  pub auth_method : Text
  pub auth_source : Text
  pub gateway : Text
  pub has_identity : Bool

-- What `buildInspectorData` calls outside: net and net/http.
pub record Library : Type 0 where
  pub split_host_port : Text → Option Text
  pub canonical : Text → Text

-- `buildInspectorData`; `look_up` is `LookupGeo`.
unfoldable pub build_inspector_data :
    Library → (Text → GeoInfo) → Option Connection → Headers → Request → InspectorData
unfolding client_ip forward_chain is_proxied auth_method first_non_empty_header gateway tls_info
    group_headers total_count
build_inspector_data lib look_up connection headers r =
    let real = client_ip lib.split_host_port r in
    let groups = group_headers lib.canonical headers in
    record {
      verb = r.verb;
      path = r.path;
      real_client_ip = real;
      direct_peer = r.remote_addr;
      forward_chain = forward_chain lib.split_host_port r;
      proxied = is_proxied r;
      header_groups = groups;
      header_total = total_count groups;
      tls = tls_info connection r;
      geo = look_up real;
      auth_user = auth_user r;
      auth_method = auth_method r;
      auth_source = r.header (text "X-Auth-Source");
      gateway = gateway r;
      has_identity =
          not (is_empty (auth_user r))
          || not (is_empty (auth_method r))
          || not (is_empty (gateway r));
    }

-- `truncate` of the template
unfoldable pub truncate : Text → ℕ → Text
truncate s n = if ltb n (length s) then take n s ++ 226 ∷ 128 ∷ 166 ∷ [] else s

-- `handleInspector`, on the page that the template gives; its error is only logged.
unfoldable pub handle_inspector : (InspectorData → Text) → InspectorData → Response
handle_inspector render page = record {
  status = 200;
  headers =
      (text "Content-Type", text "text/html; charset=utf-8")
      ∷ (text "Cache-Control", text "no-store")
      ∷ [];
  body = render page;
}
