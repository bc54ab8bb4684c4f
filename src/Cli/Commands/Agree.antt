-- ===== src/Cli/Commands/Agree.antt =====
-- main.go, cli_client.go: the local and the remote command line, line by line.
use ztna_lab_appliance.Common.{Text, true, ◌≡◌}
use ztna_lab_appliance.Admin.{Plane}
use ztna_lab_appliance.Cli.{fields}
use ztna_lab_appliance.Cli.Local.{dispatch_local}
use ztna_lab_appliance.Cli.Call.{Daemon}
use ztna_lab_appliance.Cli.Remote.{dispatch_remote}
use ztna_lab_appliance.Cli.Commands.{Command, words, state, effect, IsPlain, recovered}
use ztna_lab_appliance.Cli.Commands.Locally.{local_command_lem}
use ztna_lab_appliance.Cli.Commands.Remotely.{remote_command_lem}

-- A line whose fields are those of a command, however it is spaced: the local REPL does to the state
-- what the command says, and so does the remote client through the API of a daemon that can be
-- reached and has the client's token, if the fields that become part of a URL are carried by it
-- unchanged. So both leave the same state behind, where the command does not panic. A panic, as of a latency
-- run against a valid URL of so many requests that their samples cannot be allocated, ends the local
-- REPL and leaves the state of the daemon as it was. The goroutine of a start of the HTTP server runs
-- before anything else does.
pub dispatch_agree :
    (d : Daemon) (line : Text) (c : Command) (p : Plane)
    → fields line ≡ words c
    → d.reachable ≡ true
    → IsPlain c
    → (state (dispatch_local d.outside line p) ≡ effect d.outside c p)
      × (state (dispatch_remote d d.token line p) ≡ recovered p (effect d.outside c p))
unfolding dispatch_local dispatch_remote
dispatch_agree d line c p spelt up plain =
    rw spelt (local_command_lem d.outside c p, remote_command_lem d p up c plain)
