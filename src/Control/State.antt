-- ===== src/Control/State.antt =====
-- internal/control/state.go: the observed state document. The deep copies of `Clone` are values
-- here. `LoadState` and `SaveState` are in Control/Platform.antt.
use unifi_6in.Prelude.{String, Bool, false, pos, List, [], map}
use unifi_6in.Tunnel.{NetworkStatus, Status, interface_name, reconcile_idle}
use unifi_6in.Config.Types.{NetworkConfig, Config}

pub record AppliedState : Type 0 where
  pub wan_interface : String
  pub remote_endpoint : String
  pub local_ipv6 : String
  pub lan_enabled : Bool
  pub networks : List NetworkStatus

pub record StateDocument : Type 0 where
  pub status : Status
  pub applied : AppliedState

-- func emptyAppliedState of internal/control/service.go
abbrev pub empty_applied_state : AppliedState
empty_applied_state = record {
  wan_interface = "";
  remote_endpoint = "";
  local_ipv6 = "";
  lan_enabled = false;
  networks = [];
}

-- func DefaultState
abbrev pub default_state : StateDocument
default_state = record {
  status = record {
    tunnel_up = false;
    interface = interface_name;
    local_ipv6 = "";
    effective_mtu = pos 0;
    wan_ipv4 = "";
    active_profile_id = "";
    active_profile_name = "";
    active_broker = "";
    networks = [];
    ping_ok = false;
    ping_ms = 0;
    last_ping_at = 0;
    config_valid = false;
    desired_enabled = false;
    reconcile_state = reconcile_idle;
    last_error = "";
    degraded_reasons = [];
    last_reconcile_at = 0;
  };
  applied = empty_applied_state;
}

abbrev pub network_status : NetworkConfig → NetworkStatus
network_status network = record { interface = network.interface; prefix = network.prefix }

-- func buildAppliedState
unfoldable pub build_applied_state : Config → AppliedState
build_applied_state cfg = record {
  wan_interface = cfg.server.wan_interface;
  remote_endpoint = cfg.tunnel.remote_endpoint;
  local_ipv6 = cfg.tunnel.local_ipv6;
  lan_enabled = cfg.lan.enabled;
  networks = map network_status cfg.lan.networks;
}
