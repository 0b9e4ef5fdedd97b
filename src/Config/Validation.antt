-- ===== src/Config/Validation.antt =====
-- The validation of internal/config/config.go: the reasons that a server configuration, a profile
-- configuration, an effective configuration and a document are refused for. The parsers of
-- net/netip are the parameter `net`.
use unifi_6in.Prelude.{
  ℕ, ◌+◌, String, is_positive, is_negative, Bool, true, false, not, ◌||◌, Option, none, some, List,
  [], ◌∷◌, ◌++◌, is_empty, if◌then◌else◌, ◌==◌,
}
use unifi_6in.Text.{◌<>◌, is_blank, trim_space, itoa, join, has_colon}
use unifi_6in.Errors.{Error, validation, ok, err}
use unifi_6in.Net.{NetIp, is6}
use unifi_6in.Config.Types.{
  NetworkConfig, LanConfig, HealthConfig, TunnelConfig, ServerConfig, Config, ProfileConfig,
  Profile, Document, supported_brokers,
}
use unifi_6in.Config.Defaults.{profile_config_defaults}

-- `if failed { reasons = append(reasons, text) }`
abbrev pub reason_if : Bool → String → List String
reason_if failed text = if failed then text ∷ [] else []

-- func containsString of internal/control/service.go, and the loop of isSupportedBroker
unfoldable pub contains_string : List String → String → Bool
contains_string [] target = false
contains_string (value ∷ values) target =
    if value == target then true else contains_string values target

unfoldable pub is_supported_broker : String → Bool
unfolding contains_string
is_supported_broker broker = contains_string supported_brokers broker

unfoldable pub validate_server_config : ServerConfig → List String
validate_server_config s =
    reason_if (not (is_positive s.port)) "server.port must be greater than zero"
    ++ reason_if (is_blank s.wan_interface) "server.wan_interface is required"

-- fmt.Sprintf("<before>[%d]<after>", index)
abbrev pub indexed : String → ℕ → String → String
indexed before index after = before <> "[" <> itoa index <> "]" <> after

-- `if len(reasons) == 0 { return nil }; return &ValidationError{Reasons: reasons}`
abbrev pub validation_error : List String → Option Error
validation_error [] = none
validation_error (reason ∷ reasons) = some (validation (reason ∷ reasons))

abbrev pub profile_part : Config → ProfileConfig
profile_part c = record { tunnel = c.tunnel; lan = c.lan; health = c.health }

module _ (net : NetIp) where
  unfoldable pub is_valid_ipv6_address : String → Bool
  is_valid_ipv6_address value = elim (net.parse_addr (trim_space value)) [
    | err _ ↦ false
    | ok address ↦ is6 address
  ]

  unfoldable pub is_valid_ipv6_prefix : String → Bool
  is_valid_ipv6_prefix value = elim (net.parse_prefix (trim_space value)) [
    | err _ ↦ false
    | ok prefix ↦ is6 prefix.addr
  ]

  -- what one round of the loop over `cfg.LAN.Networks` appends about the prefix
  unfoldable pub prefix_reasons : ℕ → String → List String
  prefix_reasons index prefix =
      if is_blank prefix
      then indexed "lan.networks" index ".prefix is required" ∷ []
      else elim (net.parse_prefix prefix) [
        | err _ ↦ indexed "lan.networks" index ".prefix must be a valid IPv6 prefix" ∷ []
        | ok p ↦ reason_if (not (is6 p.addr)) (indexed "lan.networks" index ".prefix must be IPv6")
      ]

  -- the loop over `cfg.LAN.Networks`
  unfoldable pub network_reasons : ℕ → List NetworkConfig → List String
  unfolding prefix_reasons
  network_reasons index [] = []
  network_reasons index (network ∷ networks) =
      reason_if (is_blank network.interface) (indexed "lan.networks" index ".interface is required")
      ++ (prefix_reasons index network.prefix ++ network_reasons (index + 1) networks)

  -- the loop over `cfg.LAN.DNS`
  unfoldable pub dns_reasons : ℕ → List String → List String
  unfolding is_valid_ipv6_address
  dns_reasons index [] = []
  dns_reasons index (server ∷ servers) =
      reason_if (not (is_valid_ipv6_address server))
        (indexed "lan.dns" index " must be a valid IPv6 address")
      ++ dns_reasons (index + 1) servers

  unfoldable pub health_reasons : HealthConfig → List String
  unfolding is_valid_ipv6_address
  health_reasons h =
      if h.enabled
      then reason_if (not (is_positive h.interval_sec))
          "health.interval_sec must be greater than zero"
        ++ (if is_blank h.target
            then "health.target is required when health checks are enabled" ∷ []
            else reason_if (not (is_valid_ipv6_address h.target))
                "health.target must be a valid IPv6 address")
      else []

  unfoldable pub lan_reasons : LanConfig → List String
  unfolding network_reasons dns_reasons
  lan_reasons l =
      if l.enabled
      then reason_if (is_empty l.networks)
          "lan.networks must contain at least one network when lan.enabled=true"
        ++ (network_reasons 0 l.networks ++ dns_reasons 0 l.dns)
      else []

  unfoldable pub endpoint_reasons : TunnelConfig → List String
  unfolding is_valid_ipv6_prefix
  endpoint_reasons t =
      (if is_blank t.remote_endpoint
        then "tunnel.remote_endpoint is required when tunnel_enabled=true" ∷ []
        else reason_if (not (net.is_ip t.remote_endpoint) || has_colon t.remote_endpoint)
            "tunnel.remote_endpoint must be a valid IPv4 address")
      ++ (if is_blank t.local_ipv6
          then "tunnel.local_ipv6 is required when tunnel_enabled=true" ∷ []
          else reason_if (not (is_valid_ipv6_prefix t.local_ipv6))
              "tunnel.local_ipv6 must be a valid IPv6 prefix")

  unfoldable pub tunnel_reasons : TunnelConfig → List String
  unfolding is_supported_broker
  tunnel_reasons t =
      reason_if (not (is_supported_broker t.broker))
        ("tunnel.broker must be one of: " <> join ", " supported_brokers)
      ++ (reason_if (not (is_positive t.ttl)) "tunnel.ttl must be greater than zero"
          ++ reason_if (is_negative t.mtu) "tunnel.mtu must be zero (auto) or greater than zero")

  -- func validateProfileConfig; its argument is a copy, so that the defaults stay local
  unfoldable pub validate_profile_config : ProfileConfig → Bool → List String
  unfolding tunnel_reasons health_reasons lan_reasons endpoint_reasons
  validate_profile_config given tunnel_enabled =
      let cfg = profile_config_defaults given in
      let reasons =
        tunnel_reasons cfg.tunnel ++ (health_reasons cfg.health ++ lan_reasons cfg.lan) in
      if not tunnel_enabled then reasons else reasons ++ endpoint_reasons cfg.tunnel

  -- func (c *Config) ValidationReasons, of a config that is not nil: validationReasonsForConfig
  unfoldable pub config_reasons : Config → List String
  config_reasons c =
      validate_server_config c.server ++ validate_profile_config (profile_part c) c.tunnel.enabled

  -- func (c *Config) Validate
  unfoldable pub validate_config : Config → Option Error
  validate_config c = validation_error (config_reasons c)

  -- one round of func (d *Document) refreshProfileValidation
  unfoldable pub refresh_profile : String → Bool → Profile → Profile
  refresh_profile active enabled p =
      let tunnel_enabled = if p.id == active then enabled else true in
      let reasons = validate_profile_config p.config tunnel_enabled in
      record p { is_valid = is_empty reasons; validation_errors = reasons }

  unfoldable pub refresh_profiles : String → Bool → List Profile → List Profile
  unfolding refresh_profile
  refresh_profiles active enabled [] = []
  refresh_profiles active enabled (p ∷ ps) =
      refresh_profile active enabled p ∷ refresh_profiles active enabled ps

  unfoldable pub refresh_profile_validation : Document → Document
  unfolding refresh_profiles
  refresh_profile_validation d = record d {
    profiles = refresh_profiles d.active_profile_id d.tunnel_enabled d.profiles;
  }
