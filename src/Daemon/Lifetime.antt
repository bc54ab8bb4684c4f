-- ===== src/Daemon/Lifetime.antt =====
-- main_appliance.go: what the daemon starts, serves and stops.
use ztna_lab_appliance.Sshd.Lifecycle as Ssh
use ztna_lab_appliance.Logger.State as LoggerState
use ztna_lab_appliance.Admin.Api as Api
use ztna_lab_appliance.Admin.Api.{Api}
