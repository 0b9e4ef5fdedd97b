-- ===== src/Control/Service/Switch.antt =====
-- Switching the tunnel in internal/control/service.go: what `Up` and `Down` leave behind when they
-- succeed, and what an update with a stale document forgets.
use unifi_6in.Prelude.{
  ◌≡◌, refl, ◌∙◌, sym, ap, ℤ, Bool, false, Option, none, some, arith, is_zero, if◌then◌else◌,
}
use unifi_6in.Errors.{Error, Result, ok, err}
use unifi_6in.Tunnel.{reconcile_down}
use unifi_6in.Config.Types.{Config, Document}
use unifi_6in.Config.Defaults.{document_defaults}
use unifi_6in.Config.Validation.{refresh_profile_validation}
use unifi_6in.Config.Documents.{active_config, validate_document}
use unifi_6in.Config.Documents.Effective.{validate-active_config}
use unifi_6in.Control.State.{StateDocument, empty_applied_state}
use unifi_6in.Control.Platform.{Platform}
use unifi_6in.Control.Reconcile.{Service, reconcile_locked}
use unifi_6in.Control.Outcome.{conclude, settle}
use unifi_6in.Control.Reconcile.Laws.{outcome, state-reconcile_locked, reconcile_locked-desired}
use unifi_6in.Control.Service.{
  preserve_startup_fields, after_save, after_reconcile, apply_document, after_active,
  after_validate, update_config_document, mutate_from, switch, down,
}
use unifi_6in.Control.Service.Laws.{candidate, rollback-desired}
use unifi_6in.Control.Interleaving.Soundness.{KeepsSwitch, switch-outcome, reconcile_locked-quiet}

abbrev switch_of : Result Config → Bool
switch_of (ok cfg) = cfg.tunnel.enabled
switch_of (err _) = false

module _ {D W : Type 0} (platform : Platform D W) where
  -- `t` is the service that a successful update of `s` to the document and the configuration
  -- leaves: that of a reconcile, but for the world.
  record Reconciled (updated : Document) (cfg : Config) (s t : Service W) : Type 0 where
    started : Service W
    document : started.document ≡ updated
    config : started.config ≡ cfg
    same_state : t.state ≡ (reconcile_locked platform false started).1.state
    same_advertiser : t.advertiser ≡ (reconcile_locked platform false started).1.advertiser
    same_config : t.config ≡ cfg
    same_document : t.document ≡ updated

  after_save-success :
      (previous s : Service W) (failure : Option Error)
      → (after_save platform previous failure s).0 ≡ none
      → (after_save platform previous failure s).1 ≡ s
  unfolding after_save
  after_save-success previous s none h = refl
  after_save-success previous s (some e) h = absurd ((rollback-desired platform previous e s).0 h)

  after_reconcile-success :
      (previous s : Service W) (updated : Document) (failure : Option Error)
      → (after_reconcile platform previous updated failure s).0 ≡ none
      → ((after_reconcile platform previous updated failure s).1.state ≡ s.state)
        × ((after_reconcile platform previous updated failure s).1.advertiser ≡ s.advertiser)
        × ((after_reconcile platform previous updated failure s).1.config ≡ s.config)
        × ((after_reconcile platform previous updated failure s).1.document ≡ s.document)
  unfolding after_reconcile
  after_reconcile-success previous s updated none h =
      let same = after_save-success previous _ _ h in
      (
        ap (λ (t : Service W). t.state) same,
        ap (λ (t : Service W). t.advertiser) same,
        ap (λ (t : Service W). t.config) same,
        ap (λ (t : Service W). t.document) same,
      )
  after_reconcile-success previous s updated (some e) h =
      absurd ((rollback-desired platform previous e s).0 h)

  after_active-success :
      (updated : Document) (active : Result Config) (s : Service W)
      → (after_active platform updated active s).0 ≡ none
      → (cfg : Config) × (active ≡ ok cfg)
        × Reconciled updated cfg s (after_active platform updated active s).1
  unfolding after_active apply_document
  after_active-success updated (err e) s h = absurd (cc)
  after_active-success updated (ok cfg) s h =
      let started = record s { document = updated; config = cfg } in
      let (state, advertiser, config, document) = after_reconcile-success s _ updated _ h in
      let (kept_document, kept_config) = reconcile_locked-desired platform false started in
      (
        cfg,
        refl,
        record {
          started = started;
          document = refl;
          config = refl;
          same_state = state;
          same_advertiser = advertiser;
          same_config = config ∙ kept_config;
          same_document = document ∙ kept_document;
        },
      )

  after_validate-success :
      (updated : Document) (invalid : Option Error) (s : Service W)
      → (after_validate platform updated invalid s).0 ≡ none
      → (invalid ≡ none)
        × (cfg : Config) × (active_config platform.net updated ≡ ok cfg)
        × Reconciled updated cfg s (after_validate platform updated invalid s).1
  unfolding after_validate
  after_validate-success updated (some e) s h = absurd (cc)
  after_validate-success updated none s h =
      let (cfg, active, reconciled) = after_active-success updated _ s h in
      (refl, cfg, active, reconciled)

  switch-preserve :
      (d current : Document) → (preserve_startup_fields d current).tunnel_enabled ≡ d.tunnel_enabled
  unfolding preserve_startup_fields
  switch-preserve d current = ground arith

  switch-candidate :
      (d : Document) (s : Service W) → (candidate platform d s).tunnel_enabled ≡ d.tunnel_enabled
  unfolding validate_document refresh_profile_validation document_defaults
  switch-candidate d s = switch-preserve d s.document

  switch-eq :
      (cfg cfg' : Config) (active : Result Config)
      → active ≡ ok cfg
      → active ≡ ok cfg'
      → cfg.tunnel.enabled ≡ cfg'.tunnel.enabled
  switch-eq cfg cfg' active p q = ap switch_of (sym p ∙ q)

  -- A successful update leaves the switch of its document in the effective configuration, and the
  -- state and the advertiser of a reconcile of that configuration.
  update-success :
      (d : Document) (s : Service W)
      → (update_config_document platform (some d) s).0 ≡ none
      → (cfg : Config) × (cfg.tunnel.enabled ≡ d.tunnel_enabled)
        × Reconciled (candidate platform d s) cfg s (update_config_document platform (some d) s).1
  unfolding update_config_document
  update-success d s h =
      let given = preserve_startup_fields d s.document in
      let (valid, cfg, active, reconciled) =
        after_validate-success (candidate platform d s) (validate_document platform.net given).0 s
          h in
      let (cfg', active', _, enabled) = validate-active_config platform.net given valid in
      (
        cfg,
        switch-eq cfg cfg' (active_config platform.net (candidate platform d s)) active active'
            ∙ enabled
            ∙ switch-preserve d s.document,
        reconciled,
      )

  reconcile-down :
      KeepsSwitch platform
      → (s : Service W) → s.config.tunnel.enabled ≡ false
      → ((reconcile_locked platform false s).1.state.status.reconcile_state ≡ reconcile_down)
        × ((reconcile_locked platform false s).1.state.applied ≡ empty_applied_state)
  reconcile-down keeps s off =
      let off' = switch-outcome platform keeps false s ∙ off in
      rw (state-reconcile_locked platform false s)
        (unfold conclude settle in let o = (outcome platform false s).0 in ground arith)

  -- Where the backend does not switch the tunnel and `Down` returns nil, the tunnel is switched off
  -- in the document and in the effective configuration, the reconcile state is `down`, nothing is
  -- recorded as applied, and no advertiser runs.
  pub down-success :
      KeepsSwitch platform
      → (s : Service W) → (down platform s).0 ≡ none
      → ((down platform s).1.document.tunnel_enabled ≡ false)
        × ((down platform s).1.config.tunnel.enabled ≡ false)
        × ((down platform s).1.state.status.reconcile_state ≡ reconcile_down)
        × ((down platform s).1.state.applied ≡ empty_applied_state)
        × ((down platform s).1.advertiser ≡ none)
  unfolding down mutate_from
  down-success keeps s h =
      let d = switch false s.document in
      let (cfg, off, r) = update-success d s h in
      let off' = ap (λ (c : Config). c.tunnel.enabled) r.config ∙ off in
      let (state, applied) = reconcile-down keeps r.started off' in
      (
        ap (λ (x : Document). x.tunnel_enabled) r.same_document ∙ switch-candidate d s,
        ap (λ (c : Config). c.tunnel.enabled) r.same_config ∙ off,
        ap (λ (x : StateDocument). x.status.reconcile_state) r.same_state ∙ state,
        ap (λ (x : StateDocument). x.applied) r.same_state ∙ applied,
        r.same_advertiser ∙ reconcile_locked-quiet platform keeps false r.started off',
      )

  -- Two services with the same port: an update by a document that was read before, as Up, Down and
  -- UpdateConfig make it, leaves the same document in both where it succeeds, so that all else that
  -- was stored in between is lost.
  pub mutate_from-forgets :
      (mutate : Document → Document) (snapshot : Document) (s t : Service W)
      → s.document.server.port ≡ t.document.server.port
      → (mutate_from platform mutate snapshot s).0 ≡ none
      → (mutate_from platform mutate snapshot t).0 ≡ none
      → (mutate_from platform mutate snapshot s).1.document
        ≡ (mutate_from platform mutate snapshot t).1.document
  unfolding mutate_from preserve_startup_fields
  mutate_from-forgets mutate snapshot s t e h k =
      let (cfg, _, r) = update-success (mutate snapshot) s h in
      let (cfg', _, q) = update-success (mutate snapshot) t k in
      r.same_document
      ∙ ap (λ (p : ℤ). (validate_document platform.net (preserved (mutate snapshot) p)).1) e
      ∙ sym q.same_document
    where
      preserved : Document → ℤ → Document
      preserved d p =
          if is_zero d.server.port then record d { server = record (d.server) { port = p } } else d
