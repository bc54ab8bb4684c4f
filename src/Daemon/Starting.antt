-- ===== src/Daemon/Starting.antt =====
-- main_appliance.go: what `autostart` starts, and the errors it logs.
use ztna_lab_appliance.Common.{
  Bool, true, false, List, Option, none, some, Text, text, LogCall, if◌then◌else◌, ◌≡◌, ◌≢◌, refl,
}
use ztna_lab_appliance.Service.{Outcome, Error, Meets, Call, started}
use ztna_lab_appliance.Dns.Server.Lifecycle as Dns
use ztna_lab_appliance.Httpd.Lifecycle as Http
use ztna_lab_appliance.Sshd.Lifecycle as Ssh
use ztna_lab_appliance.Admin.{Plane, Outside, put_dns, put_http, put_ssh}
use ztna_lab_appliance.Admin.Sound.{IsSound, with_dns, with_http, with_ssh}
use ztna_lab_appliance.Startup.{daemon_defaults, IsFresh, ssh_config}
use ztna_lab_appliance.Daemon.{
  is_wanted, try, autostart_dns, autostart_http, autostart_ssh, Errors, autostart,
}

-- What an autostart is to give: the error, and whether the server runs.
abbrev pub expected : Bool → Option Error → Option Error × Bool
expected wanted failure = if wanted then started failure else (none, false)

-- A start that is tried gives an error and a state.
try-Meets :
    {S : Type 0} (put : S → List LogCall → Plane) (running : S → Bool) (IsConsistent : S → Type 0)
    (result : Option Error × Bool) (o : Outcome S)
    → Meets running IsConsistent result o
    → (t : S) × (lines : List LogCall) × (try put o ≡ some (result.0, put t lines))
      × (running t ≡ result.1)
      × IsConsistent t
try-Meets put running IsConsistent result Outcome.panics m = absurd m
try-Meets put running IsConsistent result (Outcome.returns e t lines) m =
    (t, lines, rw (m.0) refl, m.1, m.2)

-- The error that is expected, and a state with a property.
abbrev Boots :
    Option Error × Bool → (Bool → Plane → Type 0) → Option (Option Error × Plane) → Type 0
Boots result P tried = (q : Plane) × (tried ≡ some (result.0, q)) × P (result.1) q

-- A switch in front of a start.
if-Boots :
    (wanted : Bool) (failure : Option Error) (P : Bool → Plane → Type 0)
    {tried : Option (Option Error × Plane)} {p : Plane}
    → Boots (started failure) P tried
    → P false p
    → Boots (expected wanted failure) P (if wanted then tried else some (none, p))
if-Boots true failure P boots same = boots
if-Boots false failure P boots same = (_, refl, same)

module _ (p : Plane) where
  abbrev DnsStarted : Bool → Plane → Type 0
  DnsStarted up q = IsSound q × (Dns.is_running q.dns ≡ up) × (q.http ≡ p.http) × (q.ssh ≡ p.ssh)

  abbrev HttpStarted : Bool → Plane → Type 0
  HttpStarted up q = IsSound q × (Http.is_running q.http ≡ up) × (q.dns ≡ p.dns) × (q.ssh ≡ p.ssh)

  abbrev SshStarted : Bool → Plane → Type 0
  SshStarted up q = IsSound q × (Ssh.is_running q.ssh ≡ up) × (q.dns ≡ p.dns) × (q.http ≡ p.http)

module _ (vars : Text → Text) (o : Outside) (p : Plane) (s : IsSound p) where
  autostart_dns-Boots :
      Dns.is_running p.dns ≡ false
      → Boots
          (expected (is_wanted vars (text "ZTNA_AUTOSTART_DNS")) (Dns.listen_error o.dns_listen))
          (DnsStarted p)
          (autostart_dns vars o p)
  unfolding autostart_dns Dns.perform
  autostart_dns-Boots down =
      let (t, lines, e, up, consistent) =
        try-Meets (put_dns p) Dns.is_running Dns.IsConsistent _ (Dns.start o.dns_listen p.dns)
          (rw down at (Dns.perform-Meets (Call.start_call o.dns_listen) p.dns s.dns)) in
      if-Boots (is_wanted vars (text "ZTNA_AUTOSTART_DNS")) (Dns.listen_error o.dns_listen)
        (DnsStarted p) (put_dns p t lines, e, (with_dns p s t lines consistent, up, refl, refl))
        (s, down, refl, refl)

  autostart_http-Boots :
      Http.is_running p.http ≡ false
      → Boots
          (expected
            (is_wanted vars (text "ZTNA_AUTOSTART_HTTP"))
            (Http.listen_error p.http.addr o.http_listen))
          (HttpStarted p)
          (autostart_http vars o p)
  unfolding autostart_http Http.perform
  autostart_http-Boots down =
      let (t, lines, e, up, consistent) =
        try-Meets (put_http p) Http.is_running (Http.IsConsistent p.http.addr) _
          (Http.start_and_serve o.http_listen p.http)
          (rw down at (
            Http.perform-Meets p.http.addr (Call.start_call o.http_listen) p.http
              (s.http, refl))) in
      if-Boots (is_wanted vars (text "ZTNA_AUTOSTART_HTTP"))
        (Http.listen_error p.http.addr o.http_listen) (HttpStarted p)
        (put_http p t lines, e, (with_http p s t lines consistent, up, refl, refl))
        (s, down, refl, refl)

  autostart_ssh-Boots :
      Ssh.is_running p.ssh ≡ false
      → Boots
          (expected
            (is_wanted vars (text "ZTNA_AUTOSTART_SSH"))
            (Ssh.start_error p.ssh.addr p.ssh.cfg o.ssh_answers))
          (SshStarted p)
          (autostart_ssh vars o p)
  unfolding autostart_ssh Ssh.perform
  autostart_ssh-Boots down =
      let (t, lines, e, up, consistent) =
        try-Meets (put_ssh p) Ssh.is_running (Ssh.IsConsistent p.ssh.addr p.ssh.cfg) _
          (Ssh.start o.ssh_answers p.ssh)
          (rw down at (
            Ssh.perform-Meets p.ssh.addr p.ssh.cfg (Call.start_call o.ssh_answers) p.ssh
              (s.ssh, refl, refl))) in
      if-Boots (is_wanted vars (text "ZTNA_AUTOSTART_SSH"))
        (Ssh.start_error p.ssh.addr p.ssh.cfg o.ssh_answers) (SshStarted p)
        (put_ssh p t lines, e, (with_ssh p s t lines consistent, up, refl, refl))
        (s, down, refl, refl)

-- The errors and the states of the three servers that are expected once the daemon is up.
module _ (vars : Text → Text) (boot : Outside) where
  abbrev pub expected_dns : Option Error × Bool
  expected_dns =
      expected (is_wanted vars (text "ZTNA_AUTOSTART_DNS")) (Dns.listen_error boot.dns_listen)

  abbrev pub expected_http : Option Error × Bool
  expected_http =
      expected (is_wanted vars (text "ZTNA_AUTOSTART_HTTP"))
        (Http.listen_error (text ":80") boot.http_listen)

  abbrev pub expected_ssh : Option Error × Bool
  expected_ssh =
      expected (is_wanted vars (text "ZTNA_AUTOSTART_SSH"))
        (Ssh.start_error (text ":2222") (ssh_config vars daemon_defaults.key_path) boot.ssh_answers)

  -- The daemon is up: the errors that it has logged, and which servers run.
  pub record IsUp (errors : Errors) (p : Plane) : Type 0 where
    pub sound : IsSound p
    pub dns : (errors.0 ≡ expected_dns.0) × (Dns.is_running p.dns ≡ expected_dns.1)
    pub http : (errors.1 ≡ expected_http.0) × (Http.is_running p.http ≡ expected_http.1)
    pub ssh : (errors.2 ≡ expected_ssh.0) × (Ssh.is_running p.ssh ≡ expected_ssh.1)

  pub autostart-IsUp :
      (fresh : Plane)
      → IsFresh daemon_defaults vars fresh
      → (errors : Errors) × (p : Plane) × (autostart vars boot fresh ≡ some (errors, p))
        × IsUp errors p
  unfolding autostart
  autostart-IsUp fresh f =
      let (p, e, (sound, dns, http_same, ssh_same)) =
        autostart_dns-Boots vars boot fresh f.sound f.dns in
      let (q, e', (sound', http, dns_same, ssh_same')) =
        autostart_http-Boots vars boot p sound (rw http_same (f.http.0)) in
      let (r, e'', (sound'', ssh, dns_same', http_same')) =
        autostart_ssh-Boots vars boot q sound' (rw (ssh_same', ssh_same) (f.ssh.0)) in
      let http_addr : p.http.addr ≡ text ":80" = rw http_same (f.http.1) in
      let ssh_addr : q.ssh.addr ≡ text ":2222" = rw (ssh_same', ssh_same) (f.ssh.1) in
      let ssh_cfg : q.ssh.cfg ≡ ssh_config vars daemon_defaults.key_path =
        rw (ssh_same', ssh_same) (f.ssh.2) in
      (
        (expected_dns.0, expected_http.0, expected_ssh.0),
        r,
        rw (e, e', e'', http_addr, ssh_addr, ssh_cfg) refl,
        record {
          sound = sound'';
          dns = (refl, rw (dns_same', dns_same) dns);
          http = (refl, rw http_same' (rw http_addr at http));
          ssh = (refl, rw (ssh_addr, ssh_cfg) at ssh);
        },
      )

pub expected_error :
    (wanted : Bool) {failure : Option Error} {e : Error}
    → failure ≢ some e
    → (expected wanted failure).0 ≢ some e
expected_error true {failure = none} other same = cc
expected_error true {failure = some x} other same = other same
expected_error false other same = cc
