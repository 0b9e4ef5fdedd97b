-- ===== src/Control/Service/Startup.antt =====
-- The start of internal/control/service.go: what `NewService` brings, and `Start` with its first
-- reconcile.
use unifi_6in.Prelude.{◌≡◌, refl, false, inl, inr, arith}
use unifi_6in.Errors.{ok, Result-cases}
use unifi_6in.Text.{trim_space}
use unifi_6in.Config.Types.{Config, Document, storage_format_legacy}
use unifi_6in.Config.Defaults.{
  default_config, config_defaults, tunnel_defaults, lan_defaults, health_defaults, server_defaults,
}
use unifi_6in.Config.Validation.{refresh_profile_validation}
use unifi_6in.Config.Documents.{active_config, document_from_config}
use unifi_6in.Control.Platform.{Platform}
use unifi_6in.Control.Reconcile.{Service}
use unifi_6in.Control.Service.{load_or_create, new_service, start}
use unifi_6in.Control.Service.Laws.{IsCoherent}
use unifi_6in.Control.Interleaving.Soundness.{KeepsSwitch, IsSound, reconcile_locked-IsSound}

module _ {D W : Type 0} (platform : Platform D W) where
  default_fits :
      active_config platform.net
        (document_from_config platform.net default_config storage_format_legacy)
      ≡ ok default_config
  unfolding document_from_config active_config refresh_profile_validation config_defaults
      tunnel_defaults lan_defaults health_defaults server_defaults trim_space
  default_fits = refl

  -- What load_or_create returns fits together.
  load_or_create-fits :
      (w : W) (document : Document) (cfg : Config)
      → (load_or_create platform w).0 ≡ ok (document, cfg)
      → active_config platform.net document ≡ ok cfg
  unfolding load_or_create
  load_or_create-fits w document cfg h = ground (arith, default_fits)

  new_service-IsCoherent :
      (w : W) (s : Service W) → (new_service platform w).0 ≡ ok s → IsCoherent platform s
  unfolding new_service
  new_service-IsCoherent w s h = elim (Result-cases (load_or_create platform w).0) [
    | inl ((document, cfg), e) ↦ ground (arith, load_or_create-fits w document cfg e)
    | inr (x, e) ↦ ground arith
  ]

  -- Where the backend does not switch the tunnel: a service that NewService has created, from
  -- whatever the two files hold, is sound once Start has reconciled it.
  pub start-IsSound :
      KeepsSwitch platform
      → (w : W) (s : Service W) → (new_service platform w).0 ≡ ok s
      → IsSound platform (start platform s).1
  unfolding start
  start-IsSound keeps w s h =
      reconcile_locked-IsSound platform keeps false s (new_service-IsCoherent w s h)
