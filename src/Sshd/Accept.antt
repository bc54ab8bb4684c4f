-- ===== src/Sshd/Accept.antt =====
-- sshd/server.go: `acceptLoop` and `ipOnly`.
use ztna_lab_appliance.Common.{Bool, List, [], ◌∷◌, Option, none, some, Text, if◌then◌else◌}

-- One round of the loop: whether the listener is still set, and the connection that `Accept` gives,
-- `none` if it fails.
pub record Round (Conn : Type 0) : Type 0 where
  pub listener : Bool
  pub accepted : Option Conn

-- `acceptLoop`: the connections that are handed to `handleConn`.
unfoldable pub accept_loop : {Conn : Type 0} → List (Round Conn) → List Conn
accept_loop [] = []
accept_loop (r ∷ rounds) =
    let rest = accept_loop rounds in
    if r.listener then (elim r.accepted [ none ↦ [] | some conn ↦ conn ∷ rest ]) else []

-- `ipOnly`: `split_host_port` is `net.SplitHostPort`, less the port.
unfoldable pub ip_only : (Text → Option Text) → Text → Text
ip_only split_host_port addr = elim (split_host_port addr) [ none ↦ addr | some host ↦ host ]
