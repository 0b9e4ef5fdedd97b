-- ===== src/Config/Types.antt =====
-- The types and constants of internal/config/config.go. Slices are lists, so a nil slice and an
-- empty one are the same; a struct is passed by value, which is what its `Clone` is for.
use unifi_6in.Prelude.{String, ℤ, pos, Bool, List, [], ◌∷◌}

pub record TunnelConfig : Type 0 where
  pub enabled : Bool
  pub broker : String
  pub remote_endpoint : String
  pub local_ipv6 : String
  pub remote_ipv6 : String
  pub ttl : ℤ
  pub mtu : ℤ

pub record NetworkConfig : Type 0 where
  pub interface : String
  pub prefix : String
  pub comment : String

pub record LanConfig : Type 0 where
  pub enabled : Bool
  pub dns : List String
  pub mode : String
  pub networks : List NetworkConfig

pub record HealthConfig : Type 0 where
  pub enabled : Bool
  pub interval_sec : ℤ
  pub target : String
  pub auto_restart : Bool

pub record ServerConfig : Type 0 where
  pub port : ℤ
  pub wan_interface : String
  pub auth_token : String

pub record Config : Type 0 where
  pub tunnel : TunnelConfig
  pub lan : LanConfig
  pub health : HealthConfig
  pub server : ServerConfig

pub record ProfileConfig : Type 0 where
  pub tunnel : TunnelConfig
  pub lan : LanConfig
  pub health : HealthConfig

pub record Profile : Type 0 where
  pub id : String
  pub name : String
  pub config : ProfileConfig
  pub is_valid : Bool
  pub validation_errors : List String

pub record Document : Type 0 where
  pub storage_format : String
  pub tunnel_enabled : Bool
  pub active_profile_id : String
  pub profiles : List Profile
  pub server : ServerConfig

abbrev pub default_ttl : ℤ
default_ttl = pos 255

abbrev pub default_mtu : ℤ
default_mtu = pos 0

abbrev pub default_port : ℤ
default_port = pos 9086

abbrev pub default_wan_interface : String
default_wan_interface = "ppp0"

abbrev pub default_health_interval : ℤ
default_health_interval = pos 30

abbrev pub default_health_target : String
default_health_target = "2001:4860:4860::8888"

abbrev pub default_lan_mode : String
default_lan_mode = "slaac"

abbrev pub default_broker : String
default_broker = "custom"

abbrev pub default_profile_id : String
default_profile_id = "default"

abbrev pub default_profile_name : String
default_profile_name = "Default"

abbrev pub storage_format_legacy : String
storage_format_legacy = "legacy"

abbrev pub storage_format_profiles : String
storage_format_profiles = "profiles"

abbrev pub supported_brokers : List String
supported_brokers = "he" ∷ "ip4market" ∷ "6in4ru" ∷ "custom" ∷ []
