-- ===== src/Tests/ApiTests.antt =====
-- The theorems about internal/api applied to the sample platform, a short log, and a client that
-- talks to the control server.
use package.text.Mathlib.TextLemmas.{nil-append, cons-append}
use unifi_6in.Prelude.{
  ◌∷◌, [], ℕ, ◌≤◌, ◌≡◌, refl, ap, ◌∙◌, ◌⊎◌, inr, String, true, false, none, some, ◌==◌,
  if◌then◌else◌,
}
use unifi_6in.Text.{◌<>◌}
use unifi_6in.Errors.{plain, Result, ok, err}
use unifi_6in.Tunnel.{Status}
use unifi_6in.Tunnel.Client.{Client, ClientRequest, Reply, Http, unix_base_url}
use unifi_6in.Api.Http.{
  write_json, Request, Response, Content, text, json, status_answer, no_content, done_answer,
  config_answer, log_answer,
}
use unifi_6in.Api.Limit.{tail_limit, max_log_tail_lines}
use unifi_6in.Api.Handler.{
  after_body, after_parse, answer_command, handle_get_config, Controller, handle_update_config,
  handle_get_logs, answer_lines,
}
use unifi_6in.Api.Server.{HandlerOf, new_server, new_control_server}
use unifi_6in.Api.Daemon.{Daemon, controller_of, log_of}
use unifi_6in.Api.ReadOnly.{SameDaemon, new_server-ReadOnly}
use unifi_6in.Api.Auth.{new_server-Refuses}
use unifi_6in.Api.Routes.{put_config, with_cors, new_server-Serves}
use unifi_6in.Api.Logs.{AtMost, handle_get_logs-bounds}
use unifi_6in.Api.Updates.{
  Answers, IsParsed, settled_for, handle_update_config-Answers, handle_get_config-Reads,
}
use unifi_6in.Config.Types.{Document}
use unifi_6in.Api.Local.{server_request, Connects}
use unifi_6in.Logging.Logger.{tail}
use unifi_6in.Server.{Paths, run_ctl}
use unifi_6in.Server.Ctl.{Serves, run_ctl-Serves}
use unifi_6in.Ra.{new_advertiser, open_conns}
use unifi_6in.Text.{trim_space, has_colon, itoa}
use unifi_6in.Config.Defaults.{
  config_defaults, document_defaults, profile_config_defaults, tunnel_defaults, lan_defaults,
  health_defaults, server_defaults,
}
use unifi_6in.Config.Validation.{
  validate_config, config_reasons, refresh_profile_validation, validate_profile_config,
  validate_server_config,
}
use unifi_6in.Config.Documents.{
  replace_active_config, replace_first, validate_document, active_config, active_profile,
  profiles_reasons,
}
use unifi_6in.Config.Storage.{
  parse_update_document, parse_legacy_update_document, parse_legacy_config,
  apply_legacy_tunnel_enabled, save_document, save_checked, save_profiles, write_profiles,
  write_data, should_save_legacy, is_profiles_format, has_profiles_key, validated,
}
use unifi_6in.Control.Platform.{save_state}
use unifi_6in.Control.Reasons.{validation_reasons}
use unifi_6in.Control.Reconcile.{
  wants_advertiser, reconcile_locked, stop_advertiser, begin, drive, call_reconcile, maybe_start,
  start_advertiser, advertiser_config, call_observe, call_probe, run_probe, finish, network_entries,
  resolve_ra_dns,
}
use unifi_6in.Control.Outcome.{build_observe_input, outcome_error, conclude}
use unifi_6in.Control.Service.{
  update_config_document, get_config_document, after_validate, after_active, apply_document,
  after_reconcile, after_save, preserve_startup_fields,
}
use unifi_6in.Tests.Fixtures.{
  Disk, Stored, legacy, sample_config, sample_net, sample_json, sample_platform, sample_service,
}
use unifi_6in.Tests.LoggingTests.{Table, sample_log_os}

abbrev sample_daemon : Daemon Disk Table
sample_daemon = record {
  service = sample_service;
  logger = record { current_path = "/data/daemon.log"; current_file = some 3; world = λ _. some 6 };
}

abbrev sample_controller : Controller (Daemon Disk Table)
sample_controller = controller_of Table sample_platform

-- a request of a stranger
abbrev pub put_request : Request Stored
put_request = record {
  method = "PUT";
  path = "/api/config";
  authorization = "Bearer guess";
  tail = "";
  body = ok (legacy sample_config);
}

abbrev logs_request : Request Stored
logs_request = record put_request { method = "GET"; path = "/api/logs"; tail = "5000" }

locked : ¬ (◌≡◌ {A = String} "secret" "")
locked h = cc

wrong_token : ¬ (◌≡◌ {A = String} "Bearer guess" "Bearer secret")
wrong_token h = cc

new_server-Refuses_example :
    let (response, d) =
      new_server sample_net sample_json sample_controller
        (log_of Disk sample_log_os)
        (λ _. "secret")
        none
        put_request
        sample_daemon in
    (d ≡ sample_daemon)
    × ((rest : String)
        → "/api/" <> rest ≡ "/api/config"
        → response.code ≡ (if "PUT" == "OPTIONS" then 204 else 401))
new_server-Refuses_example =
    new_server-Refuses sample_net sample_json sample_controller (log_of Disk sample_log_os)
      (λ _. "secret") none put_request sample_daemon locked wrong_token

-- a request that bears the token
abbrev friend_request : Request Stored
friend_request = record put_request { authorization = "Bearer secret" }

new_server-Serves_example :
    new_server sample_net sample_json sample_controller
      (log_of Disk sample_log_os)
      (λ _. "secret")
      none
      friend_request
      sample_daemon
    ≡ with_cors (
        handle_update_config sample_net sample_json sample_controller
          (log_of Disk sample_log_os)
          friend_request
          sample_daemon)
new_server-Serves_example =
    new_server-Serves sample_net sample_json sample_controller (log_of Disk sample_log_os)
      (λ _. "secret") none put_config friend_request sample_daemon refl refl (inr refl)

not_put : ¬ (◌≡◌ {A = String} "GET" "PUT")
not_put h = let same : true ≡ false = ap (λ method. method == "GET") h in absurd (cc)

not_post : ¬ (◌≡◌ {A = String} "GET" "POST")
not_post h = cc

abbrev health_request : Request Stored
health_request = record logs_request { path = "/api/health" }

new_server-ReadOnly_example :
    SameDaemon sample_daemon
      (new_server sample_net sample_json sample_controller
        (log_of Disk sample_log_os)
        (λ _. "")
        none
        health_request
        sample_daemon).1
new_server-ReadOnly_example =
    new_server-ReadOnly sample_platform sample_log_os health_request not_put not_post (λ _. "") none
      sample_daemon

handle_get_logs-bounds_example :
    ((handle_get_logs sample_net sample_json sample_controller
        (log_of Disk sample_log_os)
        logs_request
        sample_daemon).1
      ≡ sample_daemon)
    × (((tail_limit "5000" ≡ none)
          × ((handle_get_logs sample_net sample_json sample_controller
                (log_of Disk sample_log_os)
                logs_request
                sample_daemon).0.code
              ≡ 400))
        ⊎ ((limit : ℕ) × (tail_limit "5000" ≡ some limit)
            × (1 ≤ limit)
            × (limit ≤ max_log_tail_lines)
            × ((handle_get_logs sample_net sample_json sample_controller
                  (log_of Disk sample_log_os)
                  logs_request
                  sample_daemon).0
                ≡ answer_lines "/data/daemon.log" (tail sample_log_os limit sample_daemon.logger))
            × AtMost limit (tail sample_log_os limit sample_daemon.logger)))
handle_get_logs-bounds_example =
    handle_get_logs-bounds sample_net sample_json sample_controller sample_log_os logs_request
      sample_daemon

handle_update_config-Answers_example :
    Answers Table sample_platform (log_of Disk sample_log_os) put_request sample_daemon (
      handle_update_config sample_net sample_json sample_controller
        (log_of Disk sample_log_os)
        put_request
        sample_daemon)
handle_update_config-Answers_example =
    handle_update_config-Answers Table sample_platform (log_of Disk sample_log_os) put_request
      sample_daemon

-- what follows a text
strip : String → String → String
strip String.[] t = t
strip (String.◌∷◌ c s) String.[] = ""
strip (String.◌∷◌ c s) (String.◌∷◌ d t) = strip s t

strip-append : (s t : String) → strip s (s <> t) ≡ t
unfolding strip
strip-append String.[] t = nil-append t
strip-append (String.◌∷◌ c s) t = ap (strip (String.◌∷◌ c s)) (cons-append c s t) ∙ strip-append s t

abbrev control_server : HandlerOf Stored (Daemon Disk Table)
control_server =
    new_control_server sample_net sample_json sample_controller (log_of Disk sample_log_os)

abbrev reply_of : Response → Reply Response
reply_of r = record { status_code = r.code; body = ok r }

abbrev carried :
    String → ClientRequest → Daemon Disk Table → Result (Reply Response) × Daemon Disk Table
carried path r s =
    let (response, s') =
      control_server (server_request (legacy sample_config) r.method path r.authorization) s in
    (ok (reply_of response), s')

abbrev status_in : Content → Result Status
status_in (json (status_answer st)) = ok st
status_in (json done_answer) = err (plain "no status")
status_in (json (config_answer _)) = err (plain "no status")
status_in (json (log_answer _ _)) = err (plain "no status")
status_in (text _) = err (plain "no status")
status_in no_content = err (plain "no status")

-- a socket that hands requests to the control server
abbrev sample_http : Http Response (Daemon Disk Table)
sample_http = record {
  new_request = λ _ _. none;
  perform = λ r s. carried (strip unix_base_url r.url) r s;
  body_text = λ r. "body";
  decode_status = λ reply. elim (reply.body) [ ok r ↦ status_in r.content | err e ↦ err e ];
}

abbrev sample_socket : Connects sample_http control_server
sample_socket = record {
  empty = legacy sample_config;
  reply_of = reply_of;
  accepts = λ _ _. refl;
  carries = λ method path authorization s.
      ap
        (λ p.
          carried p
            (record { method = method; url = unix_base_url <> path; authorization = authorization })
            s)
        (strip-append unix_base_url path);
  keeps_code = λ _. refl;
  decodes = λ _. refl;
}

abbrev sample_client : Client
sample_client = record { base_url = unix_base_url; token = "" }

abbrev pub sample_paths : Paths
sample_paths = record {
  program = "/data/unifi";
  dir = λ _. "/data";
  base = λ _. "unifi";
  join = λ a b. a <> "/" <> b;
  parse_flags = λ args. ("", args);
  quote = λ s. "\"" <> s <> "\"";
}

some_path : ¬ (◌≡◌ {A = String} "/data/daemon.sock" "")
some_path h = cc

run_ctl-Serves_example :
    Serves sample_paths sample_http sample_net sample_json sample_controller
      (log_of Disk sample_log_os)
      sample_socket
      "down"
      sample_daemon
      (run_ctl sample_paths sample_http ("down" ∷ []) sample_daemon)
run_ctl-Serves_example =
    run_ctl-Serves sample_paths sample_http sample_net sample_json sample_controller
      (log_of Disk sample_log_os) sample_socket ("down" ∷ []) "" "down" [] sample_daemon refl
      some_path

sample_put :
    (handle_update_config sample_net sample_json sample_controller
      (log_of Disk sample_log_os)
      put_request
      sample_daemon).0.code
    ≡ 200
unfolding handle_update_config after_body after_parse answer_command update_config_document
    parse_update_document parse_legacy_update_document parse_legacy_config
    apply_legacy_tunnel_enabled validated replace_active_config replace_first get_config_document
    is_profiles_format has_profiles_key after_validate after_active apply_document reconcile_locked
    stop_advertiser begin drive call_reconcile maybe_start start_advertiser advertiser_config
    network_entries resolve_ra_dns call_observe call_probe run_probe finish outcome_error save_state
    after_reconcile after_save save_document save_checked save_profiles write_profiles write_data
    should_save_legacy validate_config new_advertiser open_conns wants_advertiser
    preserve_startup_fields build_observe_input conclude validation_reasons active_profile
    config_reasons validate_document refresh_profile_validation document_defaults server_defaults
    trim_space validate_server_config validate_profile_config profile_config_defaults
    tunnel_defaults health_defaults has_colon lan_defaults active_config itoa profiles_reasons
    config_defaults
sample_put = refl

handle_get_config-Reads_example :
    (document : Document) × IsParsed Table sample_platform
      (log_of Disk sample_log_os)
      put_request
      sample_daemon
      document
    × (handle_get_config sample_net sample_json sample_controller
          (log_of Disk sample_log_os)
          logs_request
          (handle_update_config sample_net sample_json sample_controller
            (log_of Disk sample_log_os)
            put_request
            sample_daemon).1
        ≡ (
          write_json 200 (
              config_answer (
                settled_for Table sample_platform
                  (log_of Disk sample_log_os)
                  sample_daemon
                  document)),
          (handle_update_config sample_net sample_json sample_controller
              (log_of Disk sample_log_os)
              put_request
              sample_daemon).1,
        ))
handle_get_config-Reads_example =
    handle_get_config-Reads Table sample_platform (log_of Disk sample_log_os) put_request
      logs_request sample_daemon sample_put
