-- ===== src/Cli/Repl.antt =====
-- main.go: `runREPL`: the servers it makes, its loop over the lines that readline returns, and the shutdown.
-- The terminal, its history and the text on the screen are left out.
use ztna_lab_appliance.Common.{
  Bool, true, false, ◌||◌, List, [], ◌∷◌, Option, none, some, Text, text, text_eq, trim_space,
  is_empty, ◌≡◌, inl, inr, refl, if◌then◌else◌, Bool-cases,
}
use ztna_lab_appliance.Dns.Server.Lifecycle as Dns
use ztna_lab_appliance.Httpd.Lifecycle as Http
use ztna_lab_appliance.Sshd.Lifecycle as Ssh
use ztna_lab_appliance.Dns.Records as DnsRecords
use ztna_lab_appliance.Dns.Records.{World}
use ztna_lab_appliance.Dns.Records.Invariant.{IsValid}
use ztna_lab_appliance.Logger.State.{Logger}
use ztna_lab_appliance.Startup.{repl_defaults, loaded, new_plane, new_plane-IsFresh}
use ztna_lab_appliance.Admin.{Plane, Outside}
use ztna_lab_appliance.Admin.Sound.{IsSound}
use ztna_lab_appliance.Shutdown.{
  ◌>>=◌, stop_dns, stop_http, stop_ssh, IsClosed, IsStopped, Leaves, DnsClosed, HttpClosed,
  SshClosed, stop_dns-Leaves, stop_http-Leaves, stop_ssh-Leaves,
}
use ztna_lab_appliance.Cli.{Out, fields}
use ztna_lab_appliance.Cli.Local.{dispatch_local}
use ztna_lab_appliance.Cli.Local.Sound.{dispatch_local-Keeps, Fits}

-- The loop: each line comes with what the outside answers while it is handled. The list ends where
-- readline returns an error.
unfoldable pub read_lines : List (Outside × Text) → Plane → Option (List Out × Plane)
read_lines [] p = some ([], p)
read_lines ((o, raw) ∷ inputs) p =
    let line = trim_space raw in
    let skipped = read_lines inputs p in
    let handled : Option (List Out × Plane) = elim (dispatch_local o line p) [
      | none ↦ none
      | some (out, q) ↦ elim (read_lines inputs q) [
        | none ↦ none
        | some (outs, r) ↦ some (out ∷ outs, r)
      ]
    ] in
    if is_empty line
    then skipped
    else if text_eq line (text "exit") || text_eq line (text "quit")
    then some ([], p)
    else handled

-- The best-effort shutdown.
unfoldable pub close_all : Outside → Plane → Option Plane
close_all o p = do
  q ← if Dns.is_running p.dns then stop_dns o p else some p
  r ← if Http.is_running q.http then stop_http o q else some q
  if Ssh.is_running r.ssh then stop_ssh o r else some r

-- `runREPL`: `os` answers the loading of the records, and `closing` the calls of the shutdown.
unfoldable pub run_repl :
    (Text → Text)
    → DnsRecords.Os
    → World
    → Logger
    → List (Outside × Text)
    → Outside
    → Option (List Out × Plane)
unfolding read_lines close_all
run_repl vars os w logger inputs closing = do
  (outs, q) ← read_lines inputs (new_plane repl_defaults vars os w logger)
  r ← close_all closing q
  some (outs, r)

-- No line asks for a latency run against a valid URL of so many requests that their samples cannot be allocated.
abbrev pub AllFit : List (Outside × Text) → Type 0
AllFit [] = Unit
AllFit ((o, raw) ∷ inputs) = Fits o (fields (trim_space raw)) × AllFit inputs

read_lines-IsSound :
    (inputs : List (Outside × Text)) (p : Plane)
    → AllFit inputs
    → IsSound p
    → (outs : List Out) × (q : Plane) × (read_lines inputs p ≡ some (outs, q)) × IsSound q
unfolding read_lines
read_lines-IsSound [] p fit s = ([], p, refl, s)
read_lines-IsSound ((o, raw) ∷ inputs) p fit s =
    let line = trim_space raw in
    let (out, q, e, sound) = dispatch_local-Keeps p s o line fit.0 in
    let (outs, r, e', sound') = read_lines-IsSound inputs q fit.1 sound in
    elim (Bool-cases (is_empty line)) [
      | inl empty ↦ rw empty (read_lines-IsSound inputs p fit.1 s)
      | inr full ↦ elim (Bool-cases (text_eq line (text "exit") || text_eq line (text "quit"))) [
        | inl last ↦ rw (full, last) ([], p, refl, s)
        | inr other ↦ rw (full, other, e, e') (out ∷ outs, r, refl, sound')
      ]
    ]

-- Stopping a server only if it runs.
if-Leaves :
    (up : Bool) (P : Plane → Type 0) {stopped : Option Plane} {p : Plane}
    → Leaves P stopped
    → (up ≡ false → P p)
    → Leaves P (if up then stopped else some p)
if-Leaves true P leaves same = leaves
if-Leaves false P leaves same = (_, refl, same refl)

not_running : {up : Bool} {failure : Option Text} → up ≡ false → IsClosed up failure
not_running down up = cc

close_all-IsStopped :
    (closing : Outside) (p : Plane)
    → IsSound p
    → (q : Plane) × (close_all closing p ≡ some q) × IsStopped closing q
unfolding close_all
close_all-IsStopped closing p s =
    let (q, e, (sound, dns, _, _)) =
      if-Leaves (Dns.is_running p.dns) (DnsClosed closing p) (stop_dns-Leaves closing p s)
        (λ down. (s, not_running down, refl, refl)) in
    let (r, e', (sound', http, same_dns, _)) =
      if-Leaves (Http.is_running q.http) (HttpClosed closing q) (stop_http-Leaves closing q sound)
        (λ down. (sound, not_running down, refl, refl)) in
    let (t, e'', (sound'', ssh, same_dns', same_http)) =
      if-Leaves (Ssh.is_running r.ssh) (SshClosed closing r) (stop_ssh-Leaves closing r sound')
        (λ down. (sound', not_running down, refl, refl)) in
    (
      t,
      rw (e, e') e'',
      record {
        sound = sound'';
        dns = rw (same_dns', same_dns) dns;
        http = rw same_http http;
        ssh = ssh;
      },
    )

-- A session of the REPL whose file of records loads as valid records ends without a panic, whatever
-- the environment, the lines that are typed and the answers of the outside, if no line asks for a
-- latency run against a valid URL of so many requests that their samples cannot be allocated. The
-- goroutine of a start of the HTTP server runs before the next operation. A server runs after it
-- only if closing it failed; the listener of each is set exactly if it runs, and the records are
-- valid.
pub run_repl_stops :
    (vars : Text → Text) (os : DnsRecords.Os) (w : World) (logger : Logger)
    (inputs : List (Outside × Text)) (closing : Outside)
    → IsValid (loaded repl_defaults vars os w).store
    → AllFit inputs
    → (outs : List Out) × (q : Plane) × (run_repl vars os w logger inputs closing ≡ some (outs, q))
      × IsStopped closing q
unfolding run_repl
run_repl_stops vars os w logger inputs closing valid fit =
    let fresh = new_plane-IsFresh repl_defaults vars os w logger valid in
    let (outs, q, e, sound) =
      read_lines-IsSound inputs (new_plane repl_defaults vars os w logger) fit fresh.sound in
    let (r, e', stopped) = close_all-IsStopped closing q sound in
    (outs, r, rw (e, e') refl, stopped)
