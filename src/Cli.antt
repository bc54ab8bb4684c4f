-- ===== src/Cli.antt =====
-- The two command lines: the local REPL of main.go and the remote client of cli_client.go. Both split a
-- line into its fields; what they print is a value of `Out`.
pub mod Local
pub mod Call
pub mod Remote
pub mod Commands
pub mod Repl
pub mod Client
pub mod Print
mod Tests
use ztna_lab_appliance.Common.{ℕ, Bool, List, Option, Text, Map}
unfoldable pub use ztna_lab_appliance.Common.{fields}
use ztna_lab_appliance.Sshd.Sessions.{Session}
use ztna_lab_appliance.Logger.Switches.{ModuleState}
use ztna_lab_appliance.Latency.{LatencyResult}
use ztna_lab_appliance.Admin
use ztna_lab_appliance.Admin.{Plane, Body}

-- What a command prints.
pub data Out : Type 0 where
  -- `report`: the error, or `✓ ok`
  reported : Option Admin.Error → Out
  -- `error:` and the error
  failed : Admin.Error → Out
  usage message : Text → Out
  -- `upDown` of the three servers
  up_down : Bool → Bool → Bool → Out
  record_table : Map Text × Map Text → Out
  session_lines : List Session → Out
  module_table : List ModuleState → Out
  log_lines : List Text → Out
  latency_table : LatencyResult → Out
  clear_screen help nothing : Out
  -- The remote client's JSON: `none` is a nil map, which prints as `null`.
  json : Option Body → Out
  -- The client's error for a status from 400 on, with the error that the body names, if it names one.
  refused : ℕ → Option Admin.Error → Out
  unreachable : Out

-- A command prints something and leaves a state behind; `none` is a panic.
abbrev pub Done : Type 0
Done = Option (Out × Plane)
