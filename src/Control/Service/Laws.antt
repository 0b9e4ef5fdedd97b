-- ===== src/Control/Service/Laws.antt =====
-- What the updates of internal/control/service.go promise: all or nothing for the desired state,
-- and a desired state that validates and that fits the effective configuration.
use mathlib.Core.Path.{subst}
use unifi_6in.Prelude.{◌≡◌, refl, ◌≢◌, sym, true, false, Option, none, some, arith}
use unifi_6in.Errors.{Error, ok}
use unifi_6in.Config.Types.{Config, Document}
use unifi_6in.Config.Validation.{validate_config}
use unifi_6in.Config.Documents.{validate_document, active_config}
use unifi_6in.Config.Documents.Effective.{validate-active_config}
use unifi_6in.Config.Documents.Validity.{IsAcceptable, validate_document_iff}
use unifi_6in.Control.Platform.{Platform}
use unifi_6in.Control.Reconcile.{Service, reconcile_locked}
use unifi_6in.Control.Reconcile.Laws.{reconcile_locked-desired}
use unifi_6in.Control.Service.{
  preserve_startup_fields, restore, after_rollback, rollback, after_save, after_reconcile,
  apply_document, after_active, after_validate, update_config_document,
}

module _ {D W : Type 0} (platform : Platform D W) where
  abbrev pub KeepsDesired : Service W → Service W → Type 0
  KeepsDesired s t = (t.document ≡ s.document) × (t.config ≡ s.config)

  after_rollback-desired :
      (previous : Service W) (failure : Error) (again : Option Error) (s : Service W)
      → KeepsDesired previous s
      → ((after_rollback platform previous failure again s).0 ≢ none)
        × KeepsDesired previous (after_rollback platform previous failure again s).1
  unfolding after_rollback
  after_rollback-desired previous failure again s h = ground arith

  -- A rollback fails with an error, and brings back the document and the configuration.
  pub rollback-desired :
      (previous : Service W) (failure : Error) (s : Service W)
      → ((rollback platform previous failure s).0 ≢ none)
        × KeepsDesired previous (rollback platform previous failure s).1
  unfolding rollback
  rollback-desired previous failure s =
      after_rollback-desired previous failure _ _
        (reconcile_locked-desired platform true (restore platform previous s))

  -- What an update does to the service `s`, as a relation to its result: it succeeds and sets the
  -- document and the configuration, or it fails and leaves both.
  abbrev Applies : Document → Config → Service W → Option Error × Service W → Type 0
  Applies updated cfg s (none, t) = (t.document ≡ updated) × (t.config ≡ cfg)
  Applies updated cfg s (some _, t) = KeepsDesired s t

  rollback-Applies :
      (updated : Document) (cfg : Config) (s : Service W) (e : Error) (t : Service W)
      → Applies updated cfg s (rollback platform s e t)
  rollback-Applies updated cfg s e t = failed (rollback platform s e t) (rollback-desired s e t)
    where
      failed :
          (r : Option Error × Service W)
          → (r.0 ≢ none) × KeepsDesired s r.1
          → Applies updated cfg s r
      failed (none, t) (h, _) = absurd (h refl)
      failed (some e, t) (_, h) = h

  after_save-Applies :
      (updated : Document) (cfg : Config) (s : Service W) (failure : Option Error) (t : Service W)
      → (t.document ≡ updated) × (t.config ≡ cfg)
      → Applies updated cfg s (after_save platform s failure t)
  unfolding after_save
  after_save-Applies updated cfg s none t h = h
  after_save-Applies updated cfg s (some e) t h = rollback-Applies updated cfg s e t

  after_reconcile-Applies :
      (updated : Document) (cfg : Config) (s : Service W) (failure : Option Error) (t : Service W)
      → (t.document ≡ updated) × (t.config ≡ cfg)
      → Applies updated cfg s (after_reconcile platform s updated failure t)
  unfolding after_reconcile
  after_reconcile-Applies updated cfg s none t h = after_save-Applies updated cfg s _ _ h
  after_reconcile-Applies updated cfg s (some e) t h = rollback-Applies updated cfg s e t

  apply_document-Applies :
      (updated : Document) (cfg : Config) (s : Service W)
      → Applies updated cfg s (apply_document platform updated cfg s)
  unfolding apply_document
  apply_document-Applies updated cfg s =
      let started = record s { document = updated; config = cfg } in
      after_reconcile-Applies updated cfg s (reconcile_locked platform false started).0
        (reconcile_locked platform false started).1
        (reconcile_locked-desired platform false started)

  -- The document that an update of `s` by `d` validates, as Validate leaves it.
  abbrev pub candidate : Document → Service W → Document
  candidate d s = (validate_document platform.net (preserve_startup_fields d s.document)).1

  -- The desired state of a service fits together: the effective configuration is the active
  -- configuration of the document.
  abbrev pub IsCoherent : Service W → Type 0
  IsCoherent s = active_config platform.net s.document ≡ ok s.config

  -- What UpdateConfigDocument does, as a relation to its result.
  abbrev pub Updates : Document → Service W → Option Error × Service W → Type 0
  Updates d s (none, t) =
      (t.document ≡ candidate d s)
      × IsCoherent t
      × IsAcceptable t.document
      × (validate_config platform.net t.config ≡ none)
  Updates d s (some _, t) = KeepsDesired s t

  Updates-Applies :
      (d : Document) (cfg : Config) (s : Service W) (r : Option Error × Service W)
      → active_config platform.net (candidate d s) ≡ ok cfg
      → IsAcceptable (candidate d s)
      → validate_config platform.net cfg ≡ none
      → Applies (candidate d s) cfg s r
      → Updates d s r
  Updates-Applies d cfg s (some e, t) active accepted valid h = h
  Updates-Applies d cfg s (none, t) active accepted valid (document, config) = (
    document,
    rw (document, config) active,
    subst IsAcceptable (sym document) accepted,
    rw config valid,
  )

  after_active-Updates :
      (d : Document) (s : Service W)
      → (validate_document platform.net (preserve_startup_fields d s.document)).0 ≡ none
      → Updates d s (after_validate platform (candidate d s) none s)
  unfolding after_validate after_active
  after_active-Updates d s valid =
      let given = preserve_startup_fields d s.document in
      let (cfg, active, cfg_valid, _) = validate-active_config platform.net given valid in
      let accepted = (validate_document_iff platform.net given).0 valid in
      subst (λ r. Updates d s (after_active platform (candidate d s) r s)) (sym active)
        (Updates-Applies d cfg s (apply_document platform (candidate d s) cfg s) active accepted
          cfg_valid (apply_document-Applies (candidate d s) cfg s))

  after_validate-Updates :
      (d : Document) (s : Service W) (invalid : Option Error)
      → (validate_document platform.net (preserve_startup_fields d s.document)).0 ≡ invalid
      → Updates d s (after_validate platform (candidate d s) invalid s)
  unfolding after_validate
  after_validate-Updates d s none h = after_active-Updates d s h
  after_validate-Updates d s (some e) h = (refl, refl)

  -- An update with a document either succeeds, and then the service holds that document with its
  -- defaults and validations, which is acceptable, with its effective configuration, which
  -- validates too; or it fails, and then the document and the configuration are those from before.
  pub update_config_document-Updates :
      (d : Document) (s : Service W) → Updates d s (update_config_document platform (some d) s)
  unfolding update_config_document
  update_config_document-Updates d s =
      after_validate-Updates d s
        (validate_document platform.net (preserve_startup_fields d s.document)).0 refl
