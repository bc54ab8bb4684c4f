-- ===== src/Daemon/Tests.antt =====
-- main_appliance.go: the theorems at concrete runs.
use ztna_lab_appliance.Common.{false, [], none, Text, text, text_eq, if◌then◌else◌, ◌≡◌, refl}
use ztna_lab_appliance.Dns.Server.Lifecycle as Dns
use ztna_lab_appliance.Admin.{Request}
use ztna_lab_appliance.Daemon.{Entry, entry}

-- The HTTP server is switched off.
abbrev vars : Text → Text
vars name = if text_eq name (text "ZTNA_AUTOSTART_HTTP") then text "False" else []

abbrev stop_request : Request
stop_request = record {
  verb = text "POST";
  path = text "/api/ssh/stop";
  authorization = [];
  query_n = [];
  decoded = record { as_record = none; as_debug = none; as_module = none; as_latency = none };
}

entry_no_tty : entry [] false ≡ Entry.daemon
unfolding entry text text_eq
entry_no_tty = refl
