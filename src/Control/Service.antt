-- ===== src/Control/Service.antt =====
-- The operations of internal/control/service.go that change the desired state: `UpdateConfig`,
-- `UpdateConfigDocument` with its rollback, `Up`, `Down`, `Restart`, `Stop`, and the ones that only
-- read.
pub mod Creation
pub mod Laws
pub mod Switch
pub mod Startup
pub mod Durability
use unifi_6in.Prelude.{String, is_zero, Bool, true, false, Option, none, some, if◌then◌else◌}
use unifi_6in.Errors.{Error, plain, wrapped, message, is_not_exist, Result, ok, err}
use unifi_6in.Text.{◌<>◌}
use unifi_6in.Config.Types.{Config, Document, storage_format_legacy}
use unifi_6in.Config.Defaults.{default_config}
use unifi_6in.Config.Documents.{
  validate_document, active_config, replace_active_config, document_from_config,
}
use unifi_6in.Config.Storage.{save, save_document, load_document}
use unifi_6in.Control.Platform.{Platform, save_state, load_state}
use unifi_6in.Control.Reconcile.{Service, stop_advertiser, reconcile_locked}

-- func preserveDocumentStartupFields
unfoldable pub preserve_startup_fields : Document → Document → Document
preserve_startup_fields next current =
    if is_zero next.server.port
    then record next { server = record (next.server) { port = current.server.port } }
    else next

-- the mutations of Up and Down
abbrev pub switch : Bool → Document → Document
switch enabled d = record d { tunnel_enabled = enabled }

module _ {D W : Type 0} (platform : Platform D W) where
  abbrev pub restore : Service W → Service W → Service W
  restore previous s = record s {
    document = previous.document;
    config = previous.config;
    state = previous.state;
  }

  -- rollbackConfigUpdateLocked after its SaveState
  unfoldable pub after_restore : Error → Error → Option Error → Service W → Option Error × Service W
  after_restore failure e none s =
      (some (wrapped "" failure ("; rollback failed: " <> message e)), s)
  after_restore failure e (some e') s = (
    some (
        wrapped "" failure
          ("; rollback failed: " <> message e <> "; restore state failed: " <> message e')),
    s,
  )

  -- rollbackConfigUpdateLocked after its reconcile
  unfoldable pub after_rollback :
      Service W → Error → Option Error → Service W → Option Error × Service W
  unfolding after_restore
  after_rollback previous failure none s = (some failure, s)
  after_rollback previous failure (some e) s =
      let restored = restore previous s in
      let (save_error, w) = save_state platform restored.state restored.world in
      after_restore failure e save_error (record restored { world = w })

  -- func (s *Service) rollbackConfigUpdateLocked; `previous` holds the document, the configuration
  -- and the state from before the update
  unfoldable pub rollback : Service W → Error → Service W → Option Error × Service W
  rollback previous failure s =
      let (again, s') = reconcile_locked platform true (restore previous s) in
      after_rollback previous failure again s'

  -- the end of UpdateConfigDocument, after SaveDocument has returned an error or nil
  unfoldable pub after_save : Service W → Option Error → Service W → Option Error × Service W
  after_save previous none s = (none, s)
  after_save previous (some e) s = rollback previous e s

  -- UpdateConfigDocument after reconcileLocked has returned an error or nil
  unfoldable pub after_reconcile :
      Service W → Document → Option Error → Service W → Option Error × Service W
  after_reconcile previous updated (some e) s = rollback previous e s
  after_reconcile previous updated none s =
      let (save_error, w) =
        save_document platform.net platform.json platform.config_file updated s.world in
      after_save previous save_error (record s { world = w })

  -- UpdateConfigDocument from its two assignments on
  unfoldable pub apply_document : Document → Config → Service W → Option Error × Service W
  apply_document updated cfg s =
      let (failure, s') =
        reconcile_locked platform false (record s { document = updated; config = cfg }) in
      after_reconcile s updated failure s'

  -- UpdateConfigDocument after ActiveConfig
  unfoldable pub after_active : Document → Result Config → Service W → Option Error × Service W
  after_active updated (err e) s = (some e, s)
  after_active updated (ok cfg) s = apply_document updated cfg s

  -- UpdateConfigDocument after Validate
  unfoldable pub after_validate : Document → Option Error → Service W → Option Error × Service W
  after_validate updated (some e) s = (some e, s)
  after_validate updated none s = after_active updated (active_config platform.net updated) s

  -- func (s *Service) UpdateConfigDocument
  unfoldable pub update_config_document : Option Document → Service W → Option Error × Service W
  update_config_document none s = (some (plain "config document is required"), s)
  update_config_document (some document) s =
      let (invalid, updated) =
        validate_document platform.net (preserve_startup_fields document s.document) in
      after_validate updated invalid s

  -- func replaceActiveProfileConfig, of which none is nil
  unfoldable pub replace_active_profile_config : Option Document → Option Config → Result Document
  replace_active_profile_config none _ = err (plain "config document is required")
  replace_active_profile_config (some d) none = err (plain "config is required")
  replace_active_profile_config (some d) (some cfg) = replace_active_config platform.net d cfg

  -- func (s *Service) UpdateConfig, where nothing comes between its two critical sections
  unfoldable pub update_config : Option Config → Service W → Option Error × Service W
  unfolding update_config_document replace_active_profile_config
  update_config none s = (some (plain "config is required"), s)
  update_config (some cfg) s =
      elim (replace_active_profile_config
        (some (record (s.document) { tunnel_enabled = cfg.tunnel.enabled; server = cfg.server }))
        (some cfg)) [ err e ↦ (some e, s) | ok document ↦ update_config_document (some document) s ]

  -- func (s *Service) mutateDocument: `snapshot` is the document that it has cloned before it took
  -- the lock again
  unfoldable pub mutate_from :
      (Document → Document) → Document → Service W → Option Error × Service W
  unfolding update_config_document
  mutate_from mutate snapshot s = update_config_document (some (mutate snapshot)) s

  -- func (s *Service) Up, with nothing between its two critical sections
  unfoldable pub up : Service W → Option Error × Service W
  unfolding mutate_from
  up s = mutate_from (switch true) s.document s

  -- func (s *Service) Down, likewise
  unfoldable pub down : Service W → Option Error × Service W
  unfolding mutate_from
  down s = mutate_from (switch false) s.document s

  -- func (s *Service) Restart
  unfoldable pub restart : Service W → Option Error × Service W
  restart s = reconcile_locked platform true s

  -- func (s *Service) Start: its reconcile
  unfoldable pub start : Service W → Option Error × Service W
  start s = reconcile_locked platform false s

  -- func (s *Service) Stop
  unfoldable pub stop_service : Service W → Service W
  stop_service s = stop_advertiser platform s

  -- func (s *Service) GetConfig
  abbrev pub get_config : Service W → Config
  get_config s = s.config

  -- func (s *Service) GetConfigDocument
  unfoldable pub get_config_document : Service W → Document
  get_config_document s = (validate_document platform.net s.document).1

  -- func (s *Service) CurrentToken
  abbrev pub current_token : Service W → String
  current_token s = s.document.server.auth_token

  -- func loadOrCreateConfigDocument
  unfoldable pub load_or_create : W → Result (Document × Config) × W
  load_or_create w = elim (load_document platform.net platform.json platform.config_file w) [
    | ok document ↦ elim (active_config platform.net document) [
      | err e ↦ (err e, w)
      | ok cfg ↦ (ok (document, cfg), w)
    ]
    | err e ↦
        if is_not_exist e
        then (let (failure, w') =
              save platform.net platform.json platform.config_file default_config w in
            elim failure [
              | some e' ↦ (err e', w')
              | none ↦ (
                ok (
                  document_from_config platform.net default_config storage_format_legacy,
                  default_config,
                ),
                w',
              )
            ])
        else (err e, w)
  ]

  -- func NewService, of paths that are not empty
  unfoldable pub new_service : W → Result (Service W) × W
  unfolding load_or_create
  new_service w =
      let (loaded, w') = load_or_create w in
      elim loaded [
        | err e ↦ (err e, w')
        | ok (document, cfg) ↦ elim (load_state platform w') [
          | err e ↦ (err e, w')
          | ok state ↦ (
            ok (record {
              document = document;
              config = cfg;
              state = state;
              advertiser = none;
              world = w';
            }),
            w',
          )
        ]
      ]
