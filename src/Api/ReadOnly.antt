-- ===== src/Api/ReadOnly.antt =====
-- What requests to internal/api that are neither PUT nor POST do to the daemon.
use unifi_6in.Prelude.{String, ◌≡◌, refl, ◌≢◌, true, false, Option, none, some, eq_iff, arith}
use unifi_6in.Errors.{Error, Result, err}
use unifi_6in.Tunnel.{Status}
use unifi_6in.Config.Types.{Config}
use unifi_6in.Control.Platform.{Platform}
use unifi_6in.Control.Reconcile.{Service}
use unifi_6in.Control.Health.{
  Checkup, examine, recover, save_checkup, commit_checkup, run_health_check,
}
use unifi_6in.Logging.Logger.{LogOs}
use unifi_6in.Api.Http.{Request, Response}
use unifi_6in.Api.Handler.{handle_get_status, handle_get_config, handle_get_health, handle_get_logs}
use unifi_6in.Api.Server.{matches_method, new_server}
use unifi_6in.Api.Daemon.{Daemon, controller_of, log_of}
use unifi_6in.Api.Keeping.{HandlersKeep, new_server-Keeps}

-- The service `t` has the document, the configuration and the advertiser of `s`, and as applied
-- what `s` has.
pub record SameService {W : Type 0} (s t : Service W) : Type 0 where
  pub document : t.document ≡ s.document
  pub config : t.config ≡ s.config
  pub advertiser : t.advertiser ≡ s.advertiser
  pub applied : t.state.applied ≡ s.state.applied

abbrev pub SameDaemon : {W V : Type 0} → Daemon W V → Daemon W V → Type 0
SameDaemon d e = SameService d.service e.service × (e.logger ≡ d.logger)

module _ {D W : Type 0} (platform : Platform D W) where
  save_checkup-same :
      (cfg : Config) (c : Checkup) (s : Service W) → SameService s (save_checkup platform cfg c s).1
  unfolding save_checkup
  save_checkup-same cfg c s = record {
    document = refl;
    config = refl;
    advertiser = refl;
    applied = refl;
  }

  recover-off :
      (cfg : Config) (c : Checkup) (s : Service W) → (recover platform false cfg c s).1 ≡ s
  unfolding recover
  recover-off cfg c s = refl

  commit_checkup-same :
      (cfg : Config) (c : Checkup) (s : Service W)
      → SameService s (commit_checkup platform false cfg c s).1
  unfolding commit_checkup
  commit_checkup-same cfg c s = saved (save_checkup platform cfg c s).0
    where
      saved :
          (failure : Option Error)
          → SameService s
              (elim failure as (λ _. Result Status × Service W) [
                | some e ↦ (err e, (save_checkup platform cfg c s).1)
                | none ↦ recover platform false cfg c (save_checkup platform cfg c s).1
              ]).1
      saved (some e) = save_checkup-same cfg c s
      saved none =
          rw (recover-off cfg c (save_checkup platform cfg c s).1) (save_checkup-same cfg c s)

  run_health_check-same : (s : Service W) → SameService s (run_health_check platform false s).1
  unfolding run_health_check
  run_health_check-same s =
      let (c, w) = examine platform s.config s.world in
      let same = commit_checkup-same s.config c (record s { world = w }) in
      record {
        document = same.document;
        config = same.config;
        advertiser = same.advertiser;
        applied = same.applied;
      }

  module _ {V : Type 0} (os : LogOs V) (r : Request D) (not_put : r.method ≢ "PUT")
      (not_post : r.method ≢ "POST") where
    same : (d : Daemon W V) → SameDaemon d d
    same d = (record { document = refl; config = refl; advertiser = refl; applied = refl }, refl)

    put-absurd : ¬ (matches_method "PUT" r.method ≡ true)
    put-absurd h = not_put (ground (arith, eq_iff "PUT" r.method))

    post-absurd : ¬ (matches_method "POST" r.method ≡ true)
    post-absurd h = not_post (ground (arith, eq_iff "POST" r.method))

    handlers :
        HandlersKeep SameDaemon same r platform.net platform.json
          (controller_of V platform)
          (log_of W os)
    unfolding handle_get_status handle_get_config handle_get_health handle_get_logs
    handlers = record {
      status = λ _ d. same d;
      get_config = λ _ d. same d;
      update_config = λ h _. absurd (put-absurd h);
      health = λ _ d. (run_health_check-same d.service, refl);
      logs = λ _ d. same d;
      up = λ h _. absurd (post-absurd h);
      down = λ h _. absurd (post-absurd h);
      restart = λ h _. absurd (post-absurd h);
    }

    -- A request whose method is neither PUT nor POST, whatever its path and its token are, leaves
    -- the daemon with the configuration document, the effective configuration, the advertiser, the
    -- applied state and the logger that it had.
    pub new_server-ReadOnly :
        (get_token : Daemon W V → String) (web : Option (Request D → Response)) (d : Daemon W V)
        → SameDaemon d
            (new_server platform.net platform.json
              (controller_of V platform)
              (log_of W os)
              get_token
              web
              r
              d).1
    new_server-ReadOnly get_token web d =
        new_server-Keeps SameDaemon same r platform.net platform.json (controller_of V platform)
          (log_of W os) handlers get_token web d
