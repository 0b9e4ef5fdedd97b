-- ===== src/Control/Reconcile/Answers.antt =====
-- What reconcileLocked of internal/control/service.go makes of what its backend, its advertiser and
-- the probe answer, in the words of the backend's calls.
use unifi_6in.Prelude.{
  inl, inr, Bool-cases, String, ◌≡◌, refl, ◌↔◌, ◌∙◌, Bool, true, false, not, ◌&&◌, ◌||◌, Option,
  none, some, is_some, List, [], ◌∷◌, map, is_empty, if◌then◌else◌, arith, ◌==◌,
}
use unifi_6in.Text.{◌<>◌}
use unifi_6in.Errors.{Error, as_validation, ok, err}
use unifi_6in.Tunnel.{reconcile_ready}
use unifi_6in.Ra.{stop, Advertiser}
use unifi_6in.Config.Types.{Config}
use unifi_6in.Config.Validation.{contains_string, config_reasons, validate_config, validation_error}
use unifi_6in.Control.Reasons.{Observation, has_missing, managed_reasons, validation_reasons}
use unifi_6in.Control.Reasons.Laws.{has_error}
use unifi_6in.Control.Platform.{Platform}
use unifi_6in.Control.Outcome.{Outcome, build_observe_input, or_nothing}
use unifi_6in.Control.Reconcile.{
  Service, start_advertiser, stop_advertiser, maybe_start, call_reconcile, call_observe, call_probe,
  run_probe, drive, finish, current_reasons, reconcile_locked, wants_advertiser,
}
use unifi_6in.Control.Reconcile.Advertising.{IsStarted, start_advertiser_iff}
use unifi_6in.Control.Reconcile.Laws.{
  outcome, begun, ready-reconcile_locked, contains-reconcile_locked,
}

reasons-error : (rs : List String) → validation_reasons (validation_error rs) ≡ rs
unfolding validation_reasons as_validation
reasons-error [] = refl
reasons-error (r ∷ rs) = refl

error-none : (rs : List String) → (rs ≡ []) ↔ (validation_error rs ≡ none)
error-none [] = (λ h. refl, λ h. refl)
error-none (r ∷ rs) = (λ h. absurd (cc), λ h. absurd (cc))

-- an observation with the tunnel up is no empty one
seen_lem :
    (seen : Option Observation)
    → has_missing (or_nothing seen) ≡ false
    → (or_nothing seen).tunnel_up ≡ true
    → (o : Observation) × (seen ≡ some o) × (o.missing_ipv6_addresses ≡ []) × (o.tunnel_up ≡ true)
seen_lem none present up = absurd (cc)
seen_lem (some o) present up = (o, refl, ground arith, up)

is_empty-error : (rs : List String) → is_empty rs ≡ not (is_some (validation_error rs))
is_empty-error [] = refl
is_empty-error (r ∷ rs) = refl

module _ {D W : Type 0} (platform : Platform D W) (force : Bool) (s : Service W) where
  -- the configuration is valid
  abbrev pub is_valid : Bool
  is_valid = not (is_some (validate_config platform.net s.config))

  -- the world once the advertiser has been stopped
  abbrev pub stopped_world : W
  stopped_world = elim s.advertiser [ none ↦ s.world | some a ↦ stop platform.ra a s.world ]

  -- what the backend's Reconcile answers after that
  abbrev pub reconciled : (Option Error × Config) × W
  reconciled =
      platform.backend.reconcile
        (record {
          config = s.config;
          config_valid = is_valid;
          force = force;
          applied = s.state.applied;
        })
        stopped_world

  -- the configuration that the backend leaves
  abbrev pub left : Config
  left = reconciled.0.1

  -- an advertiser is to be started
  abbrev pub is_wanted : Bool
  is_wanted =
      not (is_some reconciled.0.0)
      && is_valid
      && left.tunnel.enabled
      && left.lan.enabled
      && not (is_empty left.lan.networks)

  -- what the start of an advertiser answers, where one is to be started
  abbrev pub advertised : Option Error × Service W
  advertised =
      let stopped = record (begun platform s) { advertiser = none; world = reconciled.1 } in
      if is_wanted then start_advertiser platform left stopped else (none, stopped)

  -- what the backend's Observe answers: it is asked about the tunnel where the configuration is
  -- valid and switches it on
  abbrev pub observed : (Option Observation × Option Error) × W
  observed =
      platform.backend.observe
        (record {
          wan_interface = left.server.wan_interface;
          config = if is_valid && left.tunnel.enabled then some left else none;
        })
        advertised.1.world

  -- the tunnel's target is probed and answers
  abbrev pub is_reached : Bool
  is_reached =
      is_valid
      && not (left.health.target == "")
      && elim (platform.backend.probe left.health.target observed.1).0 [
        | err _ ↦ false
        | ok result ↦ result.ping_ok
      ]

  -- the addresses that are observed to be missing
  abbrev pub missing : List String
  missing = (or_nothing observed.0.0).missing_ipv6_addresses

  stopped_lem :
      stop_advertiser platform (begun platform s)
      ≡ record (begun platform s) { advertiser = none; world = stopped_world }
  unfolding stop_advertiser
  stopped_lem = ground arith

  current_reasons_lem : current_reasons platform s.config ≡ config_reasons platform.net s.config
  unfolding validate_config
  current_reasons_lem = reasons-error (config_reasons platform.net s.config)

  valid_lem : is_empty (current_reasons platform s.config) ≡ is_valid
  unfolding validate_config
  valid_lem = rw current_reasons_lem (is_empty-error (config_reasons platform.net s.config))

  -- What the calls of reconcileLocked bring is what the backend and the advertiser answer.
  record IsOutcome (o : Outcome) : Type 0 where
    config : o.config ≡ left
    backend_error : o.backend_error ≡ reconciled.0.0
    advertiser_error : o.advertiser_error ≡ advertised.0
    observe_error : o.observe_error ≡ observed.0.1
    observation : o.observation ≡ or_nothing observed.0.0

  outcome-IsOutcome : IsOutcome (outcome platform force s).0
  unfolding drive call_reconcile call_observe call_probe maybe_start wants_advertiser
      build_observe_input
  outcome-IsOutcome =
      rw (stopped_lem, valid_lem)
        (record {
          config = refl;
          backend_error = refl;
          advertiser_error = refl;
          observe_error = refl;
          observation = refl;
        })

  outcome-is_reached :
      let o = (outcome platform force s).0 in
      (o.config.tunnel.enabled && o.config.health.enabled && not o.probe.ping_ok)
      ≡ (left.tunnel.enabled && left.health.enabled && not is_reached)
  unfolding drive call_reconcile call_observe call_probe run_probe maybe_start wants_advertiser
      build_observe_input
  outcome-is_reached = rw (stopped_lem, valid_lem) (ground arith)

  validate_config_lem :
      (current_reasons platform s.config ≡ []) ↔ (validate_config platform.net s.config ≡ none)
  unfolding validate_config
  validate_config_lem = rw current_reasons_lem (error-none (config_reasons platform.net s.config))

  -- After a reconcile the state is `ready` exactly if the backend's Reconcile has left a
  -- configuration with the tunnel switched on and returned nil, Validate of the configuration
  -- returns nil, an advertiser that was to be started has started without an error, and Observe has
  -- returned no error but an observation in which the tunnel is up and no managed address is
  -- missing.
  pub reconcile_locked-ready_iff :
      ((reconcile_locked platform force s).1.state.status.reconcile_state ≡ reconcile_ready) ↔ (
        (left.tunnel.enabled ≡ true)
        × (validate_config platform.net s.config ≡ none)
        × (reconciled.0.0 ≡ none)
        × (advertised.0 ≡ none)
        × (observed.0.1 ≡ none)
        × (o : Observation) × (observed.0.0 ≡ some o)
        × (o.missing_ipv6_addresses ≡ [])
        × (o.tunnel_up ≡ true))
  reconcile_locked-ready_iff =
      let same = outcome-IsOutcome in
      let (there, back) = ready-reconcile_locked platform force s in
      (
        λ h.
            let (on, valid, e1, e2, e3, present, up) = there h in
            let (o, e, present_o, up_o) =
              seen_lem observed.0.0 (rw (← same.observation) present)
                (rw (← same.observation) up) in
            (
              rw (← same.config) on,
              validate_config_lem.0 valid,
              rw (← same.backend_error) e1,
              rw (← same.advertiser_error) e2,
              rw (← same.observe_error) e3,
              o,
              e,
              present_o,
              up_o,
            ),
        λ (on, valid, e1, e2, e3, o, e, present, up). back (
          rw same.config on,
          validate_config_lem.1 valid,
          rw same.backend_error e1,
          rw same.advertiser_error e2,
          rw same.observe_error e3,
          rw (same.observation, e) (ground arith),
          rw (same.observation, e) up,
        ),
      )

  -- After a reconcile the degraded reasons are those of the validation, one for each address that is
  -- observed to be missing, the messages of the errors of the backend's Reconcile, of the
  -- advertiser and of Observe, and `health probe failed` where the tunnel is switched on and checked
  -- and its target is not reached, and no others.
  pub reconcile_locked-reasons :
      (t : String)
      → contains_string (reconcile_locked platform force s).1.state.status.degraded_reasons t
        ≡ contains_string (config_reasons platform.net s.config) t
          || contains_string
              (map (λ address. "managed IPv6 address missing: " <> address) missing)
              t
          || has_error reconciled.0.0 t
          || has_error advertised.0 t
          || has_error observed.0.1 t
          || (left.tunnel.enabled
              && left.health.enabled
              && not is_reached
              && "health probe failed" == t)
  unfolding managed_reasons
  reconcile_locked-reasons t =
      let same = outcome-IsOutcome in
      contains-reconcile_locked platform force s t
      ∙ rw
          (
            outcome-is_reached, same.backend_error, same.advertiser_error, same.observe_error,
            same.observation, current_reasons_lem,
          )
          refl

  advertiser-advertised : (reconcile_locked platform force s).1.advertiser ≡ advertised.1.advertiser
  unfolding reconcile_locked finish drive call_reconcile call_observe call_probe maybe_start
      wants_advertiser
  advertiser-advertised = rw (stopped_lem, valid_lem) refl

  wanted_iff : (is_wanted ≡ true) ↔ (
      (reconciled.0.0 ≡ none)
      × (validate_config platform.net s.config ≡ none)
      × (left.tunnel.enabled ≡ true)
      × (left.lan.enabled ≡ true)
      × (is_empty left.lan.networks ≡ false))
  wanted_iff = (λ h. ground arith, λ h. ground arith)

  -- After a reconcile the advertiser `a` runs exactly if the backend's Reconcile has returned nil,
  -- Validate of the configuration returns nil, the configuration that the backend leaves switches
  -- on the tunnel and the LAN and has a network, and `a` is what NewAdvertiser returns for that
  -- configuration without an error.
  pub reconcile_locked-advertiser_iff :
      (a : Advertiser)
      → ((reconcile_locked platform force s).1.advertiser ≡ some a) ↔ (
          (reconciled.0.0 ≡ none)
          × (validate_config platform.net s.config ≡ none)
          × (left.tunnel.enabled ≡ true)
          × (left.lan.enabled ≡ true)
          × (is_empty left.lan.networks ≡ false)
          × IsStarted platform left reconciled.1 a)
  reconcile_locked-advertiser_iff a =
      let stopped = record (begun platform s) { advertiser = none; world = reconciled.1 } in
      rw advertiser-advertised (elim (Bool-cases is_wanted) [
        | inl wanted ↦
            let starts = start_advertiser_iff platform left stopped a refl in
            let (e1, e2, e3, e4, e5) = wanted_iff.0 wanted in
            rw wanted (λ k. (e1, e2, e3, e4, e5, starts.0 k), λ (_, _, _, _, _, k). starts.1 k)
        | inr other ↦ rw other (
          λ k. absurd (cc),
          λ (e1, e2, e3, e4, e5, _). let wanted = wanted_iff.1 (e1, e2, e3, e4, e5) in absurd (cc),
        )
      ])
