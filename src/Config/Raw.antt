-- ===== src/Config/Raw.antt =====
-- The raw documents of internal/config/config.go that encoding/json reads and writes, and
-- encoding/json and the files as interfaces.
use unifi_6in.Prelude.{String, ℤ, Bool, false, Option, some, List, [], map}
use unifi_6in.Errors.{Error, Result}
use unifi_6in.Config.Types.{LanConfig, HealthConfig, Config, Profile, Document}

-- A pointer field is none where its key is missing.
pub record RawTunnelConfig : Type 0 where
  pub enabled : Option Bool
  pub broker : String
  pub remote_endpoint : String
  pub local_ipv6 : String
  pub remote_ipv6 : String
  pub ttl : ℤ
  pub mtu : ℤ

pub record RawServerConfig : Type 0 where
  pub port : Option ℤ
  pub wan_interface : String
  pub auth_token : String

pub record RawConfig : Type 0 where
  pub tunnel : RawTunnelConfig
  pub lan : LanConfig
  pub health : HealthConfig
  pub server : RawServerConfig

pub record RawProfileTunnelConfig : Type 0 where
  pub broker : String
  pub remote_endpoint : String
  pub local_ipv6 : String
  pub remote_ipv6 : String
  pub ttl : ℤ
  pub mtu : ℤ

pub record RawProfileConfig : Type 0 where
  pub tunnel : RawProfileTunnelConfig
  pub lan : LanConfig
  pub health : HealthConfig

pub record RawProfile : Type 0 where
  pub id : String
  pub name : String
  pub config : RawProfileConfig

pub record RawProfileDocument : Type 0 where
  pub tunnel_enabled : Option Bool
  pub active_profile_id : String
  pub profiles : List RawProfile
  pub server : RawServerConfig

-- `profiles` tells whether the key is there, `probe.Profiles != nil`
pub record DocumentFormatProbe : Type 0 where
  pub tunnel_enabled : Option Bool
  pub active_profile_id : String
  pub profiles : Bool

-- encoding/json at the types that the program gives it; `D` is the type of the bytes of a JSON text
pub record Json (D : Type 0) : Type 0 where
  pub decode_probe : D → Result DocumentFormatProbe
  pub decode_profiles : D → Result RawProfileDocument
  pub decode_raw : D → Result RawConfig
  -- json.Unmarshal into a config that holds values: a missing key leaves its field as it is
  pub decode_config : Config → D → Result Config
  pub encode_config : Config → Result D
  pub encode_profiles : RawProfileDocument → Result D

-- the configuration file: os.ReadFile and fileutil.WriteAtomically
pub record Files (D W : Type 0) : Type 0 where
  pub read_file : W → Result D
  pub write_atomically : D → W → Option Error × W

abbrev pub raw_profile : Profile → RawProfile
raw_profile p = record {
  id = p.id;
  name = p.name;
  config = record {
    tunnel = record {
      broker = p.config.tunnel.broker;
      remote_endpoint = p.config.tunnel.remote_endpoint;
      local_ipv6 = p.config.tunnel.local_ipv6;
      remote_ipv6 = p.config.tunnel.remote_ipv6;
      ttl = p.config.tunnel.ttl;
      mtu = p.config.tunnel.mtu;
    };
    lan = p.config.lan;
    health = p.config.health;
  };
}

-- func buildRawProfileDocument
unfoldable pub build_raw_profile_document : Document → RawProfileDocument
build_raw_profile_document d = record {
  tunnel_enabled = some d.tunnel_enabled;
  active_profile_id = d.active_profile_id;
  profiles = map raw_profile d.profiles;
  server = record {
    port = some d.server.port;
    wan_interface = d.server.wan_interface;
    auth_token = d.server.auth_token;
  };
}

-- the loop of parseProfilesDocument
abbrev pub profile_of_raw : RawProfile → Profile
profile_of_raw r = record {
  id = r.id;
  name = r.name;
  config = record {
    tunnel = record {
      enabled = false;
      broker = r.config.tunnel.broker;
      remote_endpoint = r.config.tunnel.remote_endpoint;
      local_ipv6 = r.config.tunnel.local_ipv6;
      remote_ipv6 = r.config.tunnel.remote_ipv6;
      ttl = r.config.tunnel.ttl;
      mtu = r.config.tunnel.mtu;
    };
    lan = r.config.lan;
    health = r.config.health;
  };
  is_valid = false;
  validation_errors = [];
}
