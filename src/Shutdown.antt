-- ===== src/Shutdown.antt =====
-- main.go and main_appliance.go: the last lines of `runREPL` and of `runDaemon`, which stop the three servers
-- and ignore the errors.
use ztna_lab_appliance.Common.{
  Bool, true, false, List, Option, none, some, Text, LogCall, ◌≡◌, refl,
}
use ztna_lab_appliance.Service.{Outcome, Meets, Call, Error, spec_step}
use ztna_lab_appliance.Dns.Server.Lifecycle as Dns
use ztna_lab_appliance.Httpd.Lifecycle as Http
use ztna_lab_appliance.Sshd.Lifecycle as Ssh
use ztna_lab_appliance.Admin.{Plane, Outside, put_dns, put_http, put_ssh}
use ztna_lab_appliance.Admin.Sound.{IsSound, with_dns, with_http, with_ssh}

infixl 5 ◌>>=◌
-- One step after another; `none` is a panic.
abbrev pub ◌>>=◌ : {A B : Type 0} → Option A → (A → Option B) → Option B
none >>= f = none
some x >>= f = f x

-- `_ = s.Stop()`: `none` is a panic.
abbrev pub ignore : {S : Type 0} → (S → List LogCall → Plane) → Outcome S → Option Plane
ignore put Outcome.panics = none
ignore put (Outcome.returns e s lines) = some (put s lines)

unfoldable pub stop_dns : Outside → Plane → Option Plane
stop_dns o p = ignore (put_dns p) (Dns.stop o.dns_shutdown p.dns)

unfoldable pub stop_http : Outside → Plane → Option Plane
stop_http o p = ignore (put_http p) (Http.stop o.http_shutdown p.http)

unfoldable pub stop_ssh : Outside → Plane → Option Plane
stop_ssh o p = ignore (put_ssh p) (Ssh.stop o.ssh_close p.ssh)

-- A server that still runs could not be closed.
abbrev pub IsClosed : Bool → Option Text → Type 0
IsClosed running failure = running ≡ true → (e : Text) × (failure ≡ some e)

-- A stop that is ignored leaves a consistent state, in which the server is closed.
stop-IsClosed :
    {S E : Type 0} (put : S → List LogCall → Plane) (running : S → Bool) (IsConsistent : S → Type 0)
    (fails : E → Option Error) (failure : Option Text) (up : Bool) (o : Outcome S)
    → Meets running IsConsistent (spec_step fails (Call.stop_call failure) up) o
    → (t : S) × (lines : List LogCall) × (ignore put o ≡ some (put t lines))
      × IsConsistent t
      × IsClosed (running t) failure
stop-IsClosed put running IsConsistent fails failure up Outcome.panics m = absurd m
stop-IsClosed put running IsConsistent fails failure false (Outcome.returns e t lines) m =
    (t, lines, refl, m.2, λ up. cc)
stop-IsClosed put running IsConsistent fails none true (Outcome.returns e t lines) m =
    (t, lines, refl, m.2, λ up. cc)
stop-IsClosed put running IsConsistent fails (some f) true (Outcome.returns e t lines) m =
    (t, lines, refl, m.2, λ up. (f, refl))

-- Three results of stopping one server of a state, or of leaving it as it is.
module _ (o : Outside) (p : Plane) where
  abbrev pub DnsClosed : Plane → Type 0
  DnsClosed q =
      IsSound q
      × IsClosed (Dns.is_running q.dns) o.dns_shutdown
      × (q.http ≡ p.http)
      × (q.ssh ≡ p.ssh)

  abbrev pub HttpClosed : Plane → Type 0
  HttpClosed q =
      IsSound q
      × IsClosed (Http.is_running q.http) o.http_shutdown
      × (q.dns ≡ p.dns)
      × (q.ssh ≡ p.ssh)

  abbrev pub SshClosed : Plane → Type 0
  SshClosed q =
      IsSound q × IsClosed (Ssh.is_running q.ssh) o.ssh_close × (q.dns ≡ p.dns) × (q.http ≡ p.http)

-- No panic, and a state with a property.
abbrev pub Leaves : (Plane → Type 0) → Option Plane → Type 0
Leaves P result = (q : Plane) × (result ≡ some q) × P q

module _ (o : Outside) (p : Plane) (s : IsSound p) where
  pub stop_dns-Leaves : Leaves (DnsClosed o p) (stop_dns o p)
  unfolding stop_dns Dns.perform
  stop_dns-Leaves =
      let (t, lines, e, consistent, closed) =
        stop-IsClosed (put_dns p) Dns.is_running Dns.IsConsistent Dns.listen_error o.dns_shutdown _
          (Dns.stop o.dns_shutdown p.dns)
          (Dns.perform-Meets (Call.stop_call o.dns_shutdown) p.dns s.dns) in
      (put_dns p t lines, e, (with_dns p s t lines consistent, closed, refl, refl))

  pub stop_http-Leaves : Leaves (HttpClosed o p) (stop_http o p)
  unfolding stop_http Http.perform
  stop_http-Leaves =
      let (t, lines, e, consistent, closed) =
        stop-IsClosed (put_http p) Http.is_running (Http.IsConsistent p.http.addr)
          (Http.listen_error p.http.addr) o.http_shutdown _ (Http.stop o.http_shutdown p.http)
          (Http.perform-Meets p.http.addr (Call.stop_call o.http_shutdown) p.http (s.http, refl)) in
      (put_http p t lines, e, (with_http p s t lines consistent, closed, refl, refl))

  pub stop_ssh-Leaves : Leaves (SshClosed o p) (stop_ssh o p)
  unfolding stop_ssh Ssh.perform
  stop_ssh-Leaves =
      let (t, lines, e, consistent, closed) =
        stop-IsClosed (put_ssh p) Ssh.is_running (Ssh.IsConsistent p.ssh.addr p.ssh.cfg)
          (Ssh.start_error p.ssh.addr p.ssh.cfg) o.ssh_close _ (Ssh.stop o.ssh_close p.ssh)
          (Ssh.perform-Meets p.ssh.addr p.ssh.cfg (Call.stop_call o.ssh_close) p.ssh
            (s.ssh, refl, refl)) in
      (put_ssh p t lines, e, (with_ssh p s t lines consistent, closed, refl, refl))

-- What a shutdown leaves behind: a server runs only where closing it failed.
pub record IsStopped (o : Outside) (q : Plane) : Type 0 where
  pub sound : IsSound q
  pub dns : IsClosed (Dns.is_running q.dns) o.dns_shutdown
  pub http : IsClosed (Http.is_running q.http) o.http_shutdown
  pub ssh : IsClosed (Ssh.is_running q.ssh) o.ssh_close
