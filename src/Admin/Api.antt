-- ===== src/Admin/Api.antt =====
-- admin/server.go: `New`, and the listener that `Start` and `Stop` keep; admin/latency.go: the runner that
-- `LatencyFn` holds.
use ztna_lab_appliance.Common.{
  Bool, true, false, List, [], ◌∷◌, ◌++◌, Option, none, some, Text, text, LogCall, if◌then◌else◌,
}
use ztna_lab_appliance.Admin.{auth_mode}

-- `Server`, less the three servers; `http_server` says whether the pointer is set.
pub record Api : Type 0 where
  pub addr : Text
  pub token : Text
  pub http_server : Bool

-- `New`
unfoldable pub new : Text → Text → Api
new addr token = record { addr = addr; token = token; http_server = false }

abbrev adm_line : Text → LogCall
adm_line message = record { module_name = text "ADM "; message = message }

-- The lines of the goroutine of `Start`: `failure` is an error of `ListenAndServe` other than
-- `ErrServerClosed`.
unfoldable pub serve_lines : Option Text → Api → List LogCall
unfolding auth_mode
serve_lines failure s =
    adm_line (text "Admin API started  TCP " ++ s.addr ++ text "  auth:" ++ auth_mode s.token)
    ∷ (elim failure [ none ↦ [] | some e ↦ adm_line (text "Admin API error: " ++ e) ∷ [] ])

-- `Start`: an error of the listener is logged and never returned.
unfoldable pub start : Option Text → Api → Option Text × Api × List LogCall
unfolding serve_lines
start failure s = (none, record s { http_server = true }, serve_lines failure s)

-- `Stop`: `failure` is the error of `Shutdown`.
unfoldable pub stop : Option Text → Api → Option Text
stop failure s = if s.http_server then failure else none

-- The errors of `runLatency` of this package: no runner has been registered, or the runner's.
pub data LatencyError (E : Type 0) : Type 0 where
  unavailable : LatencyError E
  of_runner : E → LatencyError E

pub data LatencyReply (R E : Type 0) : Type 0 where
  result : R → LatencyReply R E
  refused : LatencyError E → LatencyReply R E

-- `runLatency`: `runner` is `LatencyFn`, applied to the arguments.
unfoldable pub run_latency : {R E : Type 0} → Option (LatencyReply R E) → LatencyReply R E
run_latency none = LatencyReply.refused LatencyError.unavailable
run_latency (some reply) = reply
