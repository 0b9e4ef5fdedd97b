-- ===== src/Config/Defaults/Laws.antt =====
-- What the `applyDefaults` methods of internal/config/config.go establish.
use unifi_6in.Prelude.{
  ◌≡◌, refl, false, map, List, [], ◌∷◌, arith, is_zero, String, ℤ, if◌then◌else◌,
}
use unifi_6in.Text.{is_blank, trim_space}
use unifi_6in.Config.Types.{
  TunnelConfig, LanConfig, HealthConfig, ServerConfig, Config, ProfileConfig, Profile, Document,
  default_ttl, default_mtu, default_port, default_wan_interface, default_health_interval,
  default_health_target, default_lan_mode, default_broker, default_profile_id,
  storage_format_profiles,
}
use unifi_6in.Config.Defaults.{
  tunnel_defaults, lan_defaults, health_defaults, server_defaults, config_defaults,
  profile_config_defaults, profile_defaults, document_defaults,
}

-- A text with a default that is not blank is defaulted once.
text_default :
    (s d : String)
    → is_blank d ≡ false
    → (let t = if is_blank s then d else s in if is_blank t then d else t)
      ≡ (if is_blank s then d else s)
text_default s d h = ground arith

-- So is an integer, whatever its default.
int_default :
    (n d : ℤ)
    → (let m = if is_zero n then d else n in if is_zero m then d else m)
      ≡ (if is_zero n then d else n)
int_default n d = ground arith

pub tunnel_defaults_idem :
    (t : TunnelConfig) → tunnel_defaults (tunnel_defaults t) ≡ tunnel_defaults t
unfolding tunnel_defaults trim_space
tunnel_defaults_idem t = λ i. record t {
  broker = text_default t.broker default_broker refl i;
  ttl = int_default t.ttl default_ttl i;
  mtu = int_default t.mtu default_mtu i;
}

pub lan_defaults_idem : (l : LanConfig) → lan_defaults (lan_defaults l) ≡ lan_defaults l
unfolding lan_defaults trim_space
lan_defaults_idem l = λ i. record l { mode = text_default l.mode default_lan_mode refl i }

pub health_defaults_idem :
    (h : HealthConfig) → health_defaults (health_defaults h) ≡ health_defaults h
unfolding health_defaults trim_space
health_defaults_idem h = λ i. record h {
  interval_sec = int_default h.interval_sec default_health_interval i;
  target = text_default h.target default_health_target refl i;
}

pub server_defaults_idem :
    (s : ServerConfig) → server_defaults (server_defaults s) ≡ server_defaults s
unfolding server_defaults trim_space
server_defaults_idem s = λ i. record s {
  port = int_default s.port default_port i;
  wan_interface = text_default s.wan_interface default_wan_interface refl i;
}

-- Applying the defaults to a Config twice is applying them once.
config_defaults_idem : (c : Config) → config_defaults (config_defaults c) ≡ config_defaults c
unfolding config_defaults
config_defaults_idem c = λ i. record {
  tunnel = tunnel_defaults_idem c.tunnel i;
  lan = lan_defaults_idem c.lan i;
  health = health_defaults_idem c.health i;
  server = server_defaults_idem c.server i;
}

pub profile_config_defaults_idem :
    (c : ProfileConfig)
    → profile_config_defaults (profile_config_defaults c) ≡ profile_config_defaults c
unfolding profile_config_defaults
profile_config_defaults_idem c = λ i. record {
  tunnel = tunnel_defaults_idem c.tunnel i;
  lan = lan_defaults_idem c.lan i;
  health = health_defaults_idem c.health i;
}

profiles_defaults_idem :
    (ps : List Profile) → map profile_defaults (map profile_defaults ps) ≡ map profile_defaults ps
profiles_defaults_idem [] = refl
profiles_defaults_idem (p ∷ ps) =
    λ i. record p { config = profile_config_defaults_idem p.config i } ∷ profiles_defaults_idem ps i

-- Applying the defaults to a Document twice is applying them once.
pub document_defaults_idem :
    (d : Document) → document_defaults (document_defaults d) ≡ document_defaults d
unfolding document_defaults trim_space
document_defaults_idem d = λ i. record {
  storage_format = text_default d.storage_format storage_format_profiles refl i;
  tunnel_enabled = d.tunnel_enabled;
  active_profile_id = text_default d.active_profile_id default_profile_id refl i;
  profiles = profiles_defaults_idem d.profiles i;
  server = server_defaults_idem d.server i;
}
