-- ===== src/Control/Reconcile.antt =====
-- The reconcile of internal/control/service.go: `startAdvertiserLocked`, `stopAdvertiserLocked`
-- and `reconcileLocked`, with what they call. The service is the record
-- `Service`, which holds the world that the backend and the files change; the mutex is the sequence
-- of calls. Log lines are left out.
pub mod Advertising
pub mod Answers
pub mod Laws
use unifi_6in.Prelude.{
  ℕ, String, pos, is_positive, Bool, false, not, ◌&&◌, ◌||◌, Option, none, some, is_some, List, [],
  ◌∷◌, is_empty, if◌then◌else◌, ◌==◌,
}
use unifi_6in.Text.{◌<>◌}
use unifi_6in.Errors.{Error, Result, ok, err, ◌>>=◌, wrap}
use unifi_6in.Net.{Addr, network_addr, next}
use unifi_6in.Tunnel.{
  interface_name, reconcile_reconciling, reconcile_ready, reconcile_degraded, reconcile_down,
  reason_health_probe_failed,
}
use unifi_6in.Ra.{NetworkEntry, Advertiser, AdvertiserConfig, new_advertiser, stop}
use unifi_6in.Config.Types.{NetworkConfig, Config, Document}
use unifi_6in.Config.Validation.{contains_string, validate_config}
use unifi_6in.Config.Documents.{active_profile}
use unifi_6in.Control.State.{AppliedState, StateDocument, build_applied_state, empty_applied_state}
use unifi_6in.Control.Reasons.{
  Observation, no_observation, append_new, append_error_reason, append_managed_reasons, has_missing,
  first_reason, validation_reasons,
}
use unifi_6in.Control.Outcome.{
  build_observe_input, no_probe, Outcome, probe_failed_reason, outcome_reasons, settle,
  outcome_error, conclude, or_nothing,
}
use unifi_6in.Control.Platform.{Platform, ProbeResult, ObserveInput, save_state}

pub record Service (W : Type 0) : Type 0 where
  pub document : Document
  pub config : Config
  pub state : StateDocument
  pub advertiser : Option Advertiser
  pub world : W

module _ {D W : Type 0} (platform : Platform D W) where
  -- the assignments of reconcileLocked before its calls
  unfoldable pub begin : Document → List String → StateDocument → StateDocument
  begin document reasons state =
      let profile = active_profile platform.net document in
      record state {
        status = record (state.status) {
          interface = interface_name;
          desired_enabled = document.tunnel_enabled;
          active_profile_id = document.active_profile_id;
          active_profile_name = elim profile [ err _ ↦ "" | ok p ↦ p.name ];
          active_broker = elim profile [ err _ ↦ "" | ok p ↦ p.config.tunnel.broker ];
          config_valid = is_empty reasons;
          reconcile_state = reconcile_reconciling;
        };
      }

  -- the loop of startAdvertiserLocked
  unfoldable pub network_entries : List NetworkConfig → Result (List NetworkEntry)
  network_entries [] = ok []
  network_entries (network ∷ networks) = do
    prefix ←
        wrap ("parse RA prefix " <> platform.net.quote network.prefix <> ": ") ""
          (platform.net.parse_prefix network.prefix)
    entries ← network_entries networks
    ok (record { interface = network.interface; prefix = prefix } ∷ entries)

  -- the loop of resolveRADNSServers
  unfoldable pub parse_dns : List String → Result (List Addr)
  parse_dns [] = ok []
  parse_dns (value ∷ values) = do
    address ←
        wrap ("parse RA dns " <> platform.net.quote value <> ": ") ""
          (platform.net.parse_addr value)
    rest ← parse_dns values
    ok (address ∷ rest)

  -- func deriveRouterDNSServers, `seen` being the printed addresses so far
  unfoldable pub derive_router_dns : List String → List NetworkConfig → Result (List Addr)
  derive_router_dns seen [] = ok []
  derive_router_dns seen (network ∷ networks) = do
    prefix ←
        wrap ("parse auto RA dns prefix " <> platform.net.quote network.prefix <> ": ") ""
          (platform.net.parse_prefix network.prefix)
    let router = next (network_addr prefix)
    let key = platform.net.addr_string router
    let old = contains_string seen key
    rest ← derive_router_dns (if old then seen else key ∷ seen) networks
    ok (if old then rest else router ∷ rest)

  -- func resolveRADNSServers
  unfoldable pub resolve_ra_dns : Config → Result (List Addr)
  unfolding parse_dns derive_router_dns
  resolve_ra_dns cfg =
      if not (is_empty cfg.lan.dns)
      then parse_dns cfg.lan.dns
      else derive_router_dns [] cfg.lan.networks

  -- what startAdvertiserLocked passes to NewAdvertiser
  unfoldable pub advertiser_config : Config → Result AdvertiserConfig
  unfolding network_entries resolve_ra_dns
  advertiser_config cfg = do
    entries ← network_entries cfg.lan.networks
    dns ← resolve_ra_dns cfg
    ok (record { networks = entries; dns = dns; interval = 10; tunnel_mtu = cfg.tunnel.mtu })

  -- func (s *Service) startAdvertiserLocked
  unfoldable pub start_advertiser : Config → Service W → Option Error × Service W
  unfolding advertiser_config
  start_advertiser cfg s = elim (advertiser_config cfg) [
    | err e ↦ (some e, s)
    | ok given ↦
        let (started, w) = new_advertiser platform.ra given s.world in
        elim started [
          | err e ↦ (some e, record s { world = w })
          | ok a ↦ (none, record s { advertiser = some a; world = w })
        ]
  ]

  -- func (s *Service) stopAdvertiserLocked
  unfoldable pub stop_advertiser : Service W → Service W
  stop_advertiser s = elim s.advertiser [
    | none ↦ s
    | some a ↦ record s { advertiser = none; world = stop platform.ra a s.world }
  ]

  -- `if …Health.Target != "" { result, err := s.backend.Probe(…); if err == nil { … } }`
  unfoldable pub run_probe : Bool → String → W → (ProbeResult × Option ℕ) × W
  run_probe wanted target w =
      let (probed, w1) = platform.backend.probe target w in
      let (t, w2) = platform.now w1 in
      if wanted && not (target == "")
      then elim probed [ err _ ↦ ((no_probe, none), w1) | ok result ↦ ((result, some t), w2) ]
      else ((no_probe, none), w)

  -- the guard of the call of startAdvertiserLocked
  unfoldable pub wants_advertiser : Option Error → List String → Config → Bool
  wants_advertiser backend_error reasons cfg =
      not (is_some backend_error)
      && is_empty reasons
      && cfg.tunnel.enabled
      && cfg.lan.enabled
      && not (is_empty cfg.lan.networks)

  -- `s.backend.Reconcile(…)`: its error, and the configuration behind the pointer after it
  unfoldable pub call_reconcile :
      Bool → List String → AppliedState → Service W → (Option Error × Config) × Service W
  call_reconcile force reasons applied s =
      let (result, w) =
        platform.backend.reconcile
          (record {
            config = s.config;
            config_valid = is_empty reasons;
            force = force;
            applied = applied;
          })
          s.world in
      (result, record s { world = w })

  -- `if … { advertiserErr = s.startAdvertiserLocked(cfg) }`
  unfoldable pub maybe_start : Bool → Config → Service W → Option Error × Service W
  unfolding start_advertiser
  maybe_start wanted cfg s = if wanted then start_advertiser cfg s else (none, s)

  -- `s.backend.Observe(…)`, with the empty observation for nil
  unfoldable pub call_observe :
      Config → List String → Service W → (Observation × Option Error) × Service W
  call_observe cfg reasons s =
      let ((seen, failure), w) =
        platform.backend.observe (build_observe_input cfg reasons) s.world in
      ((or_nothing seen, failure), record s { world = w })

  -- the probe of reconcileLocked
  unfoldable pub call_probe :
      Config → List String → Service W → (ProbeResult × Option ℕ) × Service W
  unfolding run_probe
  call_probe cfg reasons s =
      let (result, w) =
        run_probe (is_empty reasons && cfg.tunnel.enabled && cfg.health.enabled) cfg.health.target
          s.world in
      (result, record s { world = w })

  -- the calls of reconcileLocked, from the backend's Reconcile to the probe
  unfoldable pub drive : Bool → List String → AppliedState → Service W → Outcome × Service W
  drive force reasons applied s =
      let ((backend_error, cfg), s1) = call_reconcile force reasons applied s in
      let (advertiser_error, s2) =
        maybe_start (wants_advertiser backend_error reasons cfg) cfg s1 in
      let ((observation, observe_error), s3) = call_observe cfg reasons s2 in
      let ((probe, probe_time), s4) = call_probe cfg reasons s3 in
      (
        record {
          config = cfg;
          reasons = reasons;
          backend_error = backend_error;
          advertiser_error = advertiser_error;
          observe_error = observe_error;
          observation = observation;
          probe = probe;
          probe_time = probe_time;
        },
        s4,
      )

  -- the validation reasons of the current configuration
  abbrev pub current_reasons : Config → List String
  current_reasons cfg = validation_reasons (validate_config platform.net cfg)

  -- the state after `conclude`, saved, and the error of the whole
  unfoldable pub finish : Outcome → Service W → Option Error × Service W
  unfolding outcome_error
  finish o s =
      let (finished, w) = platform.now s.world in
      let state = conclude o finished s.state in
      let (save_error, w') = save_state platform state w in
      (
        elim save_error [ some e ↦ some e | none ↦ outcome_error o ],
        record s { state = state; world = w' },
      )

  -- func (s *Service) reconcileLocked
  unfoldable pub reconcile_locked : Bool → Service W → Option Error × Service W
  reconcile_locked force s =
      let reasons = current_reasons s.config in
      let s1 = stop_advertiser (record s { state = begin s.document reasons s.state }) in
      let (o, s2) = drive force reasons s.state.applied s1 in finish o s2
