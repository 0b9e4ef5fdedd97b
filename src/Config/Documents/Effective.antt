-- ===== src/Config/Documents/Effective.antt =====
-- The effective configuration of internal/config/config.go, and how the validator of documents
-- agrees with the validator of effective configurations.
use unifi_6in.Prelude.{
  String, ◌≡◌, refl, ◌∙◌, sym, ap, Bool, none, some, List, [], ◌∷◌, ◌++◌, arith,
}
use unifi_6in.Errors.{ok}
use unifi_6in.Net.{NetIp}
use unifi_6in.Config.Types.{Config, ProfileConfig, Profile, Document}
use unifi_6in.Config.Defaults.{
  tunnel_defaults, lan_defaults, health_defaults, server_defaults, config_defaults,
  profile_config_defaults, document_defaults,
}
use unifi_6in.Config.Defaults.Laws.{
  tunnel_defaults_idem, lan_defaults_idem, health_defaults_idem, server_defaults_idem,
}
use unifi_6in.Config.Validation.{
  validate_server_config, validate_profile_config, config_reasons, validation_error,
  validate_config, refresh_profiles, refresh_profile_validation,
}
use unifi_6in.Config.Documents.{
  first_with_id, settled, validate_document, active_profile, effective_config, active_config,
}
use unifi_6in.Config.Documents.Validity.{IsAcceptable, server_complete, validate_document_iff}

module _ (net : NetIp) where
  -- The switch and defaults that are in place already do not change a profile's reasons.
  reasons-defaults :
      (c : ProfileConfig) (e b : Bool)
      → validate_profile_config net
          (record {
            tunnel = tunnel_defaults (record (c.tunnel) { enabled = e });
            lan = lan_defaults c.lan;
            health = health_defaults c.health;
          })
          b
        ≡ validate_profile_config net c b
  unfolding validate_profile_config profile_config_defaults
  reasons-defaults c e b =
      rw (tunnel_defaults_idem, lan_defaults_idem, health_defaults_idem)
        (unfold tunnel_defaults in refl)

  -- The reasons for an effective configuration are those for the server, with its defaults, and
  -- those for the active profile under the document's switch.
  pub config_reasons-effective :
      (d : Document) (p : Profile)
      → config_reasons net (effective_config net d p)
        ≡ validate_server_config (server_defaults d.server)
          ++ validate_profile_config net p.config d.tunnel_enabled
  unfolding config_reasons effective_config config_defaults
  config_reasons-effective d p =
      rw (reasons-defaults p.config d.tunnel_enabled) (unfold tunnel_defaults in refl)

  refreshed_first :
      (active : String) (enabled : Bool) (ps : List Profile) (p : Profile)
      → first_with_id active (refresh_profiles net active enabled ps) ≡ some p
      → p.validation_errors ≡ validate_profile_config net p.config enabled
  unfolding first_with_id refresh_profiles
  refreshed_first active enabled [] p h = absurd (cc)
  refreshed_first active enabled (q ∷ qs) p h = ground (arith, refreshed_first active enabled qs p)

  -- The effective configuration of an acceptable document has no reasons.
  effective-valid :
      (d : Document)
      → IsAcceptable (settled net d)
      → (p : Profile)
      → first_with_id (settled net d).active_profile_id (settled net d).profiles ≡ some p
      → p.validation_errors ≡ []
      → config_reasons net (effective_config net (settled net d) p) ≡ []
  effective-valid d a p first valid =
      rw config_reasons-effective (rw (server_valid, profile_valid) refl)
    where
      server_valid : validate_server_config (server_defaults (settled net d).server) ≡ []
      server_valid =
          unfold refresh_profile_validation document_defaults in
          rw server_defaults_idem (server_complete (settled net d).server a.port a.wan)

      profile_valid : validate_profile_config net p.config (settled net d).tunnel_enabled ≡ []
      profile_valid =
          sym (
            refreshed_first (settled net d).active_profile_id (settled net d).tunnel_enabled
              (document_defaults d).profiles p (unfold refresh_profile_validation in first))
          ∙ valid

  -- ActiveConfig is the effective configuration of the profile that is found first.
  pub active_config-first :
      (d : Document) (p : Profile)
      → first_with_id d.active_profile_id d.profiles ≡ some p
      → active_config net d ≡ ok (effective_config net d p)
  unfolding active_config
  active_config-first d p h = rw (h, active_profile) refl

  -- Where Validate returns nil, ActiveConfig of the document that it leaves succeeds, with the
  -- document's switch, and Validate of the effective configuration returns nil too.
  pub validate-active_config :
      (d : Document)
      → (validate_document net d).0 ≡ none
      → (cfg : Config) × (active_config net (validate_document net d).1 ≡ ok cfg)
        × (validate_config net cfg ≡ none)
        × (cfg.tunnel.enabled ≡ d.tunnel_enabled)
  unfolding validate_document validate_config
  validate-active_config d h =
      let a = (validate_document_iff net d).0 h in
      (
        effective_config net (settled net d) a.active,
        active_config-first (settled net d) a.active a.active_found,
        ap validation_error (effective-valid d a a.active a.active_found a.active_valid),
        unfold effective_config config_defaults tunnel_defaults refresh_profile_validation
              document_defaults in
            refl,
      )
