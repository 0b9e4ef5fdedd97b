-- ===== src/Control/Service/Durability.antt =====
-- That an update of internal/control/service.go outlives the process: what it has saved is what
-- `loadOrCreateConfigDocument` loads at the next start.
use mathlib.Core.Path.{subst}
use unifi_6in.Prelude.{
  ◌≡◌, false, refl, ap, sym, ◌∙◌, Option, none, some, Option-cases, All, inl, inr, arith,
}
use unifi_6in.Errors.{Error, Result, ok, err}
use unifi_6in.Config.Types.{Config, Document, storage_format_profiles}
use unifi_6in.Config.Documents.{settled, validate_document, active_config}
use unifi_6in.Config.Storage.{save_document, load_document}
use unifi_6in.Config.Storage.Settling.{IsDisabled, settled_idem, settled-IsDisabled, format-settled}
use unifi_6in.Config.Storage.Roundtrip.{ReadsBack, Stores, load-save_document}
use unifi_6in.Control.Platform.{Platform}
use unifi_6in.Control.Reconcile.{Service, reconcile_locked}
use unifi_6in.Control.Reconcile.Laws.{reconcile_locked-desired}
use unifi_6in.Control.Service.{
  preserve_startup_fields, after_save, after_reconcile, apply_document, after_active,
  after_validate, update_config_document, load_or_create,
}
use unifi_6in.Control.Service.Laws.{rollback-desired, candidate}

module _ {D W : Type 0} (platform : Platform D W) where
  -- The result holds the document and the configuration, and its world is the one after a save of
  -- the document that returned nil.
  abbrev IsSaved : Document → Config → Service W → Type 0
  IsSaved document cfg t =
      (t.document ≡ document)
      × (t.config ≡ cfg)
      × (w : W) × ((save_document platform.net platform.json platform.config_file document w).0
          ≡ none)
      × (t.world ≡ (save_document platform.net platform.json platform.config_file document w).1)

  after_save-IsSaved :
      (previous : Service W) (document : Document) (cfg : Config) (s : Service W)
      → (s.document ≡ document) × (s.config ≡ cfg)
      → let r = save_document platform.net platform.json platform.config_file document s.world in
        (after_save platform previous r.0 (record s { world = r.1 })).0 ≡ none
        → IsSaved document cfg (after_save platform previous r.0 (record s { world = r.1 })).1
  unfolding after_save
  after_save-IsSaved previous document cfg s (same, same') h =
      let r = save_document platform.net platform.json platform.config_file document s.world in
      elim (Option-cases r.0) [
        | inl saved ↦ rw saved (same, same', s.world, saved, refl)
        | inr (e, failed) ↦
            let h' =
              subst (λ o. (after_save platform previous o (record s { world = r.1 })).0 ≡ none)
                failed h in
            absurd ((rollback-desired platform previous e (record s { world = r.1 })).0 h')
      ]

  after_reconcile-IsSaved :
      (previous : Service W) (document : Document) (cfg : Config) (failure : Option Error)
      (s : Service W)
      → (s.document ≡ document) × (s.config ≡ cfg)
      → (after_reconcile platform previous document failure s).0 ≡ none
      → IsSaved document cfg (after_reconcile platform previous document failure s).1
  unfolding after_reconcile
  after_reconcile-IsSaved previous document cfg none s same h =
      after_save-IsSaved previous document cfg s same h
  after_reconcile-IsSaved previous document cfg (some e) s same h =
      absurd ((rollback-desired platform previous e s).0 h)

  after_active-IsSaved :
      (document : Document) (active : Result Config) (s : Service W)
      → (after_active platform document active s).0 ≡ none
      → (cfg : Config) × (active ≡ ok cfg)
        × IsSaved document cfg (after_active platform document active s).1
  unfolding after_active apply_document
  after_active-IsSaved document (err e) s h = absurd (cc)
  after_active-IsSaved document (ok cfg) s h =
      let begun = record s { document = document; config = cfg } in
      (
        cfg,
        refl,
        after_reconcile-IsSaved s document cfg (reconcile_locked platform false begun).0
            (reconcile_locked platform false begun).1
            (reconcile_locked-desired platform false begun) h,
      )

  after_validate-IsSaved :
      (document : Document) (invalid : Option Error) (s : Service W)
      → (after_validate platform document invalid s).0 ≡ none
      → (cfg : Config) × (active_config platform.net document ≡ ok cfg)
        × IsSaved document cfg (after_validate platform document invalid s).1
  unfolding after_validate
  after_validate-IsSaved document none s h = after_active-IsSaved document _ s h
  after_validate-IsSaved document (some e) s h = absurd (cc)

  preserved :
      (d current : Document)
      → ((preserve_startup_fields d current).storage_format ≡ d.storage_format)
        × ((preserve_startup_fields d current).profiles ≡ d.profiles)
  unfolding preserve_startup_fields
  preserved d current = (ground arith, ground arith)

  loads :
      ReadsBack platform.json
      → Stores platform.config_file
      → (d : Document) (w : W) → d.storage_format ≡ storage_format_profiles
      → All IsDisabled d.profiles
      → let document = (validate_document platform.net d).1 in
        let r = save_document platform.net platform.json platform.config_file document w in
        r.0 ≡ none → load_document platform.net platform.json platform.config_file r.1 ≡ ok document
  unfolding validate_document
  loads back stores d w format disabled saved =
      load-save_document platform.net platform.json platform.config_file back stores
        (settled platform.net d) w (format-settled platform.net platform.json d format)
        (settled-IsDisabled platform.net platform.json d disabled) saved
      ∙ ap (λ (x : Document). ok x) (settled_idem platform.net platform.json d)

  load_or_create-at :
      (t : Service W)
      → load_document platform.net platform.json platform.config_file t.world ≡ ok t.document
      → active_config platform.net t.document ≡ ok t.config
      → load_or_create platform t.world ≡ (ok (t.document, t.config), t.world)
  unfolding load_or_create
  load_or_create-at t loaded active = rw (load_or_create, loaded, active) refl

  -- Where encoding/json reads back what it has written and the file stores what is written: once an
  -- update by a document in the profiles format, none of whose profiles has a switch of its own,
  -- returns nil, a start of the daemon on the machine that it leaves loads the document and the
  -- effective configuration that the service then holds.
  pub update_config_document-IsDurable :
      ReadsBack platform.json
      → Stores platform.config_file
      → (d : Document) (s : Service W) → d.storage_format ≡ storage_format_profiles
      → All IsDisabled d.profiles
      → (update_config_document platform (some d) s).0 ≡ none
      → let t : Service W = (update_config_document platform (some d) s).1 in
        load_or_create platform t.world ≡ (ok (t.document, t.config), t.world)
  unfolding update_config_document
  update_config_document-IsDurable back stores d s format disabled h =
      let next = preserve_startup_fields d s.document in
      let (same_format, same_profiles) = preserved d s.document in
      let document = candidate platform d s in
      let (cfg, active, (same, same', w, saved, at_world)) =
        after_validate-IsSaved document (validate_document platform.net next).0 s h in
      let loaded =
        loads back stores next w (same_format ∙ format)
          (subst (All IsDisabled) (sym same_profiles) disabled) saved in
      load_or_create-at (update_config_document platform (some d) s).1 (rw (same, at_world) loaded)
        (rw (same, same') active)
