-- ===== src/Daemon.antt =====
-- main_appliance.go: `main` and `runDaemon`. The lines that `runDaemon` prints and logs itself are left
-- out, and so are the wait for the signal and the context that it makes and does not use.
pub mod Starting
pub mod Lifetime
mod Tests
use ztna_lab_appliance.Common.{
  Bool, true, false, List, [], ◌∷◌, ◌++◌, Option, none, some, Text, text, text_eq, is_empty,
  to_lower, LogCall, if◌then◌else◌,
}
use ztna_lab_appliance.Service.{Outcome, Error}
use ztna_lab_appliance.Dns.Records.{World}
use ztna_lab_appliance.Dns.Server.Lifecycle as Dns
use ztna_lab_appliance.Httpd.Lifecycle as Http
use ztna_lab_appliance.Sshd.Lifecycle as Ssh
use ztna_lab_appliance.Logger.State as LoggerState
use ztna_lab_appliance.Logger.Init.{init}
use ztna_lab_appliance.Admin.{Plane, Outside, Request, Response, put_dns, put_http, put_ssh}
use ztna_lab_appliance.Admin.Sound.{serve_all}
use ztna_lab_appliance.Admin.Api as Api
use ztna_lab_appliance.Admin.Api.{Api}
use ztna_lab_appliance.Startup.{env_default, daemon_defaults, new_plane}
use ztna_lab_appliance.Shutdown.{◌>>=◌, stop_dns, stop_http, stop_ssh}

-- `env`: the value of a variable in lower case.
unfoldable pub env : (Text → Text) → Text → Text → Text
env vars k def = let v = vars k in if is_empty v then def else to_lower v

-- Whether a service is started at once.
abbrev pub is_wanted : (Text → Text) → Text → Bool
is_wanted vars switch = text_eq (env vars switch (text "true")) (text "true")

-- The error of a start, which is only logged; `none` is a panic.
abbrev pub try :
    {S : Type 0} → (S → List LogCall → Plane) → Outcome S → Option (Option Error × Plane)
try put Outcome.panics = none
try put (Outcome.returns e s lines) = some (e, put s lines)

unfoldable pub autostart_dns : (Text → Text) → Outside → Plane → Option (Option Error × Plane)
autostart_dns vars o p =
    if is_wanted vars (text "ZTNA_AUTOSTART_DNS")
    then try (put_dns p) (Dns.start o.dns_listen p.dns)
    else some (none, p)

unfoldable pub autostart_http : (Text → Text) → Outside → Plane → Option (Option Error × Plane)
autostart_http vars o p =
    if is_wanted vars (text "ZTNA_AUTOSTART_HTTP")
    then try (put_http p) (Http.start_and_serve o.http_listen p.http)
    else some (none, p)

unfoldable pub autostart_ssh : (Text → Text) → Outside → Plane → Option (Option Error × Plane)
autostart_ssh vars o p =
    if is_wanted vars (text "ZTNA_AUTOSTART_SSH")
    then try (put_ssh p) (Ssh.start o.ssh_answers p.ssh)
    else some (none, p)

-- The errors of the three starts: DNS, HTTP, SSH.
abbrev pub Errors : Type 0
Errors = Option Error × Option Error × Option Error

-- The three `if` of `runDaemon`.
unfoldable pub autostart : (Text → Text) → Outside → Plane → Option (Errors × Plane)
unfolding autostart_dns autostart_http autostart_ssh
autostart vars o p = do
  (dns_error, p1) ← autostart_dns vars o p
  (http_error, p2) ← autostart_http vars o p1
  (ssh_error, p3) ← autostart_ssh vars o p2
  some ((dns_error, http_error, ssh_error), p3)

-- After the signal.
unfoldable pub shut_down : Outside → Plane → Option Plane
shut_down o p = do q ← stop_ssh o p; r ← stop_http o q; stop_dns o r

-- How `runDaemon` ends: by `os.Exit(1)`, or after the shutdown.
pub data Run : Type 0 where
  exited : Errors → Plane → Run
  stopped : Errors → List (Option Response) → Plane → Run

-- From the start of the Admin API on. The error of stopping the API is ignored.
unfoldable pub after_start :
    Errors
    → Option Text × Api × List LogCall
    → List (Outside × Request)
    → Outside
    → Plane
    → Option Run
unfolding shut_down
after_start errors (some e, api, lines) requests closing p = some (Run.exited errors p)
after_start errors (none, api, lines) requests closing p = do
  let (responses, q) = serve_all api.token requests (record p { lines = p.lines ++ lines })
  r ← shut_down closing q
  some (Run.stopped errors responses r)

-- The Admin API of the daemon.
abbrev pub api_of : (Text → Text) → Api
api_of vars =
    Api.new (env vars (text "ZTNA_ADMIN_ADDR") (text "0.0.0.0:9000"))
      (vars (text "ZTNA_ADMIN_TOKEN"))

-- `runDaemon`: `boot` answers the calls of the start and `closing` those of the shutdown; in between
-- the Admin API, of which the listener may fail, serves some requests.
unfoldable pub run_daemon :
    (Text → Text)
    → Outside
    → Option Text
    → List (Outside × Request)
    → Outside
    → World
    → LoggerState.Logger
    → Option Run
unfolding env autostart after_start Api.new Api.start
run_daemon vars boot api_failure requests closing w logger = do
  (errors, p) ← autostart vars boot (new_plane daemon_defaults vars boot.records_os w logger)
  after_start errors (Api.start api_failure (api_of vars)) requests closing p

-- What `main` runs.
pub data Entry : Type 0 where
  daemon client version repl : Entry
  unknown_command : Text → Entry

abbrev word_of : List Text → Text
word_of [] = []
word_of (cmd ∷ args) = cmd

-- The switch of `main`, on the arguments after the program's name; `tty` is `isatty(os.Stdin)`.
unfoldable pub entry : List Text → Bool → Entry
entry args tty =
    let cmd = word_of args in
    if text_eq cmd (text "daemon")
    then Entry.daemon
    else if text_eq cmd (text "cli")
    then Entry.client
    else if text_eq cmd (text "version")
    then Entry.version
    else if is_empty cmd
    then (if tty then Entry.repl else Entry.daemon)
    else Entry.unknown_command cmd

-- The logger as `main` sets it up.
unfoldable pub init_logger : LoggerState.Os → LoggerState.Logger → LoggerState.Logger
init_logger os l = init os (env_default os.env (text "ZTNA_LOG_PATH") (text "/data/ztna_lab.log")) l
