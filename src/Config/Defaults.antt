-- ===== src/Config/Defaults.antt =====
-- Default values: `Defaults`, `DefaultProfileConfig`, `normalizeBroker` and the `applyDefaults`
-- methods of Config, ProfileConfig and Document in internal/config/config.go.
pub mod Laws
use unifi_6in.Prelude.{String, ℤ, is_zero, false, true, List, [], map, if◌then◌else◌}
use unifi_6in.Text.{is_blank}
use unifi_6in.Config.Types.{
  TunnelConfig, LanConfig, HealthConfig, ServerConfig, Config, ProfileConfig, Profile, Document,
  default_ttl, default_mtu, default_port, default_wan_interface, default_health_interval,
  default_health_target, default_lan_mode, default_broker, default_profile_id,
  storage_format_profiles,
}

unfoldable pub normalize_broker : String → String
normalize_broker broker = if is_blank broker then default_broker else broker

-- The three groups of assignments that Config.applyDefaults and ProfileConfig.applyDefaults share;
-- `LAN.DNS` and `LAN.Networks` only change from nil to empty there.
unfoldable pub tunnel_defaults : TunnelConfig → TunnelConfig
unfolding normalize_broker
tunnel_defaults t = record t {
  broker = normalize_broker t.broker;
  ttl = if is_zero t.ttl then default_ttl else t.ttl;
  mtu = if is_zero t.mtu then default_mtu else t.mtu;
}

unfoldable pub lan_defaults : LanConfig → LanConfig
lan_defaults l = record l { mode = if is_blank l.mode then default_lan_mode else l.mode }

unfoldable pub health_defaults : HealthConfig → HealthConfig
health_defaults h = record h {
  interval_sec = if is_zero h.interval_sec then default_health_interval else h.interval_sec;
  target = if is_blank h.target then default_health_target else h.target;
}

-- The assignments to `Server` that Config.applyDefaults and Document.applyDefaults share.
unfoldable pub server_defaults : ServerConfig → ServerConfig
server_defaults s = record s {
  port = if is_zero s.port then default_port else s.port;
  wan_interface = if is_blank s.wan_interface then default_wan_interface else s.wan_interface;
}

-- func (c *Config) applyDefaults, which ApplyDefaults calls
unfoldable pub config_defaults : Config → Config
config_defaults c = record {
  tunnel = tunnel_defaults c.tunnel;
  lan = lan_defaults c.lan;
  health = health_defaults c.health;
  server = server_defaults c.server;
}

-- func (c *ProfileConfig) applyDefaults
unfoldable pub profile_config_defaults : ProfileConfig → ProfileConfig
profile_config_defaults c = record {
  tunnel = tunnel_defaults c.tunnel;
  lan = lan_defaults c.lan;
  health = health_defaults c.health;
}

abbrev pub profile_defaults : Profile → Profile
profile_defaults p = record p { config = profile_config_defaults p.config }

-- func (d *Document) applyDefaults
unfoldable pub document_defaults : Document → Document
document_defaults d = record {
  storage_format = if is_blank d.storage_format then storage_format_profiles else d.storage_format;
  tunnel_enabled = d.tunnel_enabled;
  active_profile_id =
      if is_blank d.active_profile_id then default_profile_id else d.active_profile_id;
  profiles = map profile_defaults d.profiles;
  server = server_defaults d.server;
}

-- func Defaults
abbrev pub default_config : Config
default_config = record {
  tunnel = record {
    enabled = false;
    broker = default_broker;
    remote_endpoint = "";
    local_ipv6 = "";
    remote_ipv6 = "";
    ttl = default_ttl;
    mtu = default_mtu;
  };
  lan = record { enabled = false; dns = []; mode = default_lan_mode; networks = [] };
  health = record {
    enabled = true;
    interval_sec = default_health_interval;
    target = default_health_target;
    auto_restart = true;
  };
  server = record { port = default_port; wan_interface = default_wan_interface; auth_token = "" };
}

-- func DefaultProfileConfig
unfoldable pub default_profile_config : ProfileConfig
default_profile_config = record {
  tunnel = record (default_config.tunnel) { enabled = false };
  lan = default_config.lan;
  health = default_config.health;
}
