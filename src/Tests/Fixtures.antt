-- ===== src/Tests/Fixtures.antt =====
-- A small platform to run the model on: a disk with the two files, a backend that obeys, and a
-- sample document with one profile whose tunnel can be switched on.
use unifi_6in.Prelude.{ℕ, ◌+◌, ◌-◌, pos, Bool, true, false, ◌&&◌, Option, none, some, [], ◌∷◌}
use unifi_6in.Text.{◌<>◌, has_colon}
use unifi_6in.Errors.{plain, not_exist, Result, ok, err}
use unifi_6in.Net.{v6, NetIp, Addr}
use unifi_6in.Ra.{RaPlatform}
use unifi_6in.Config.Types.{
  Config, Profile, Document, TunnelConfig, LanConfig, HealthConfig, ServerConfig,
}
use unifi_6in.Config.Raw.{RawProfileDocument, RawConfig, Json, Files}
use unifi_6in.Control.State.{StateDocument, default_state}
use unifi_6in.Control.Platform.{Backend, Platform}
use unifi_6in.Control.Reconcile.{Service}

-- the bytes of the files: what encoding/json has written
pub data Stored : Type 0 where
  legacy : Config → Stored
  profiles : RawProfileDocument → Stored
  observed : StateDocument → Stored

pub record Disk : Type 0 where
  pub config : Option Stored
  pub state : Option Stored
  pub connections : ℕ
  pub clock : ℕ
  pub tunnel : Bool

abbrev pub empty_disk : Disk
empty_disk = record { config = none; state = none; connections = 0; clock = 100; tunnel = false }

abbrev pub sample_addr : Addr
sample_addr = record { family = v6; number = 0x20010db8_00000000_00000000_00000000; zone = "" }

-- every text with a colon is read as one address
abbrev pub sample_net : NetIp
sample_net = record {
  parse_addr =
      λ s. elim (has_colon s) [ true ↦ ok sample_addr | false ↦ err (plain "bad address") ];
  parse_prefix = λ s. elim (has_colon s) [
    | true ↦ ok (record { addr = sample_addr; bits = 64 })
    | false ↦ err (plain "bad prefix")
  ];
  addr_string = λ _. "2001:db8::1";
  is_ip = λ _. true;
  quote = λ s. "\"" <> s <> "\"";
}

abbrev pub wrong : {A : Type 0} → Result A
wrong = err (plain "unexpected JSON")

abbrev pub raw_of : Config → RawConfig
raw_of c = record {
  tunnel = record {
    enabled = some c.tunnel.enabled;
    broker = c.tunnel.broker;
    remote_endpoint = c.tunnel.remote_endpoint;
    local_ipv6 = c.tunnel.local_ipv6;
    remote_ipv6 = c.tunnel.remote_ipv6;
    ttl = c.tunnel.ttl;
    mtu = c.tunnel.mtu;
  };
  lan = c.lan;
  health = c.health;
  server = record {
    port = some c.server.port;
    wan_interface = c.server.wan_interface;
    auth_token = c.server.auth_token;
  };
}

abbrev pub sample_json : Json Stored
sample_json = record {
  decode_probe = elim [
    | legacy _ ↦ ok (record { tunnel_enabled = none; active_profile_id = ""; profiles = false })
    | profiles raw ↦ ok (record {
      tunnel_enabled = raw.tunnel_enabled;
      active_profile_id = raw.active_profile_id;
      profiles = true;
    })
    | observed _ ↦ wrong
  ];
  decode_profiles = elim [ profiles raw ↦ ok raw | legacy _ ↦ wrong | observed _ ↦ wrong ];
  decode_raw = elim [ legacy c ↦ ok (raw_of c) | profiles _ ↦ wrong | observed _ ↦ wrong ];
  decode_config = λ _. elim [ legacy c ↦ ok c | profiles _ ↦ wrong | observed _ ↦ wrong ];
  encode_config = λ c. ok (legacy c);
  encode_profiles = λ raw. ok (profiles raw);
}

abbrev pub found : Option Stored → Result Stored
found none = err (not_exist "no such file")
found (some text) = ok text

abbrev pub sample_config_file : Files Stored Disk
sample_config_file = record {
  read_file = λ w. found w.config;
  write_atomically = λ text w. (none, record w { config = some text });
}

abbrev pub sample_state_file : Files Stored Disk
sample_state_file = record {
  read_file = λ w. found w.state;
  write_atomically = λ text w. (none, record w { state = some text });
}

abbrev pub sample_ra : RaPlatform Disk
sample_ra = record {
  interface_by_name = λ name w.
      (ok (record { name = name; hardware_addr = 2 ∷ 0 ∷ 0 ∷ 0 ∷ 0 ∷ 1 ∷ []; mtu = pos 1500 }), w);
  listen = λ _ w. (ok w.connections, record w { connections = w.connections + 1 });
  close = λ _ w. record w { connections = w.connections - 1 };
  quote = λ s. "\"" <> s <> "\"";
}

abbrev pub sample_backend : Backend Disk
sample_backend = record {
  reconcile =
      λ i w. ((none, i.config), record w { tunnel = i.config_valid && i.config.tunnel.enabled });
  observe = λ _ w. (
    (
      some
          (record { tunnel_up = w.tunnel; wan_ipv4 = "198.51.100.7"; missing_ipv6_addresses = [] }),
      none,
    ),
    w,
  );
  probe = λ _ w. (ok (record { ping_ok = w.tunnel; ping_ms = 12 }), w);
  repair_addresses = λ _ w. (none, w);
}

abbrev pub sample_platform : Platform Stored Disk
sample_platform = record {
  net = sample_net;
  json = sample_json;
  backend = sample_backend;
  ra = sample_ra;
  now = λ w. (w.clock, record w { clock = w.clock + 1 });
  config_file = sample_config_file;
  state_file = sample_state_file;
  encode_state = λ s. ok (observed s);
  decode_state = λ _. elim [ observed s ↦ ok s | legacy _ ↦ wrong | profiles _ ↦ wrong ];
}

abbrev pub sample_lan : LanConfig
sample_lan = record {
  enabled = true;
  dns = [];
  mode = "slaac";
  networks = record { interface = "br0"; prefix = "2001:db8:1::/64"; comment = "" } ∷ [];
}

abbrev pub sample_tunnel : TunnelConfig
sample_tunnel = record {
  enabled = false;
  broker = "he";
  remote_endpoint = "192.0.2.1";
  local_ipv6 = "2001:db8::2/64";
  remote_ipv6 = "2001:db8::1/64";
  ttl = pos 255;
  mtu = pos 1480;
}

abbrev pub sample_health : HealthConfig
sample_health = record {
  enabled = true;
  interval_sec = pos 30;
  target = "2001:4860:4860::8888";
  auto_restart = true;
}

abbrev pub sample_profile : Profile
sample_profile = record {
  id = "home";
  name = "Home";
  config = record { tunnel = sample_tunnel; lan = sample_lan; health = sample_health };
  is_valid = true;
  validation_errors = [];
}

abbrev pub sample_server : ServerConfig
sample_server = record { port = pos 9086; wan_interface = "ppp0"; auth_token = "" }

-- one profile, the tunnel switched on
abbrev pub sample_document : Document
sample_document = record {
  storage_format = "profiles";
  tunnel_enabled = true;
  active_profile_id = "home";
  profiles = sample_profile ∷ [];
  server = sample_server;
}

abbrev pub sample_config : Config
sample_config = record {
  tunnel = record sample_tunnel { enabled = true };
  lan = sample_lan;
  health = sample_health;
  server = sample_server;
}

-- a service that has just been created from the sample document
abbrev pub sample_service : Service Disk
sample_service = record {
  document = sample_document;
  config = sample_config;
  state = default_state;
  advertiser = none;
  world = empty_disk;
}
