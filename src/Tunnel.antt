-- ===== src/Tunnel.antt =====
-- internal/tunnel/manager.go: the status of the tunnel, and its constants.
pub mod Client
pub mod Transport
use unifi_6in.Prelude.{ℕ, String, ℤ, Bool, List}

abbrev pub interface_name : String
interface_name = "sit-6in4"

abbrev pub reconcile_idle : String
reconcile_idle = "idle"

abbrev pub reconcile_reconciling : String
reconcile_reconciling = "reconciling"

abbrev pub reconcile_ready : String
reconcile_ready = "ready"

abbrev pub reconcile_degraded : String
reconcile_degraded = "degraded"

abbrev pub reconcile_down : String
reconcile_down = "down"

abbrev pub reason_health_probe_failed : String
reason_health_probe_failed = "health probe failed"

pub record NetworkStatus : Type 0 where
  pub interface : String
  pub prefix : String

-- A time is its number of seconds; the zero time is 0.
pub record Status : Type 0 where
  pub tunnel_up : Bool
  pub interface : String
  pub local_ipv6 : String
  pub effective_mtu : ℤ
  pub wan_ipv4 : String
  pub active_profile_id : String
  pub active_profile_name : String
  pub active_broker : String
  pub networks : List NetworkStatus
  pub ping_ok : Bool
  pub ping_ms : ℕ
  pub last_ping_at : ℕ
  pub config_valid : Bool
  pub desired_enabled : Bool
  pub reconcile_state : String
  pub last_error : String
  pub degraded_reasons : List String
  pub last_reconcile_at : ℕ
