-- ===== src/Control/Reconcile/Advertising.antt =====
-- What startAdvertiserLocked of internal/control/service.go leaves running.
use unifi_6in.Prelude.{inl, inr, ◌≡◌, refl, ◌↔◌, none, some}
use unifi_6in.Errors.{ok, Result-cases}
use unifi_6in.Ra.{Advertiser, AdvertiserConfig, new_advertiser}
use unifi_6in.Config.Types.{Config}
use unifi_6in.Control.Platform.{Platform}
use unifi_6in.Control.Reconcile.{Service, start_advertiser, advertiser_config}

module _ {D W : Type 0} (platform : Platform D W) where
  -- The advertiser `a` is what NewAdvertiser makes, in the world `w`, of the parameters for the
  -- configuration.
  abbrev pub IsStarted : Config → W → Advertiser → Type 0
  IsStarted cfg w a =
      (given : AdvertiserConfig) × (advertiser_config platform cfg ≡ ok given)
      × ((new_advertiser platform.ra given w).0 ≡ ok a)

  -- Once it is started where none runs, that advertiser runs, and no other.
  pub start_advertiser_iff :
      (cfg : Config) (t : Service W) (a : Advertiser)
      → t.advertiser ≡ none
      → ((start_advertiser platform cfg t).1.advertiser ≡ some a) ↔ IsStarted cfg t.world a
  unfolding start_advertiser
  start_advertiser_iff cfg t a h = elim (Result-cases (advertiser_config platform cfg)) [
    | inr (e, bad) ↦
        let none_runs : (start_advertiser platform cfg t).1.advertiser ≡ none =
          rw (start_advertiser, bad) h in
        (λ k. absurd (cc), λ (given, k, _). absurd (cc))
    | inl (given, good) ↦ elim (Result-cases (new_advertiser platform.ra given t.world).0) [
      | inr (e, fails) ↦
          let none_runs : (start_advertiser platform cfg t).1.advertiser ≡ none =
            rw (start_advertiser, good, fails) h in
          (λ k. absurd (cc), λ (other, k, starts). absurd (cc))
      | inl (b, starts) ↦
          let runs : (start_advertiser platform cfg t).1.advertiser ≡ some b =
            rw (start_advertiser, good, starts) refl in
          (λ k. (given, good, cc), λ (other, k, begins). cc)
    ]
  ]
