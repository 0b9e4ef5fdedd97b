-- ===== src/Api/Updates.antt =====
-- What `PUT /api/config` of internal/api/handler.go does to the control service.
use unifi_6in.Prelude.{
  ◌≡◌, refl, ◌⊎◌, inl, inr, String, Option, none, some, List, ap, ◌∙◌, arith, is_zero, Bool-cases,
  if◌then◌else◌,
}
use unifi_6in.Errors.{Error, as_validation, Result, ok, err}
use unifi_6in.Config.Types.{Document}
use unifi_6in.Config.Documents.{validate_document}
use unifi_6in.Config.Storage.Settling.{settled_idem}
use unifi_6in.Config.Storage.{parse_update_document}
use unifi_6in.Control.Platform.{Platform}
use unifi_6in.Control.Reconcile.{Service}
use unifi_6in.Control.Service.{get_config_document, update_config_document, preserve_startup_fields}
use unifi_6in.Control.Service.Laws.{
  candidate, KeepsDesired, Updates, update_config_document-Updates,
}
use unifi_6in.Api.Http.{
  write_json, config_answer, Request, Response, control_error_of, write_control_error,
}
use unifi_6in.Api.Handler.{
  Log, answer_command, after_parse, after_body, handle_update_config, handle_get_config,
}
use unifi_6in.Api.Daemon.{Daemon, controller_of}

-- a response that tells of an error
abbrev pub IsRefusal : Response → Type 0
IsRefusal response = (response.code ≡ 400) ⊎ (response.code ≡ 500)

control_error_of-IsRefusal :
    (found : Option (List String)) (e : Error) → IsRefusal (control_error_of found e)
unfolding control_error_of
control_error_of-IsRefusal none e = inr refl
control_error_of-IsRefusal (some reasons) e = inl refl

write_control_error-IsRefusal : (e : Error) → IsRefusal (write_control_error e)
unfolding write_control_error
write_control_error-IsRefusal e = control_error_of-IsRefusal (as_validation e) e

module _ {D W : Type 0} (V : Type 0) (platform : Platform D W) (log : Log (Daemon W V)) where
  -- The body of the request, parsed as an update of the document of `d`.
  abbrev pub IsParsed : Request D → Daemon W V → Document → Type 0
  IsParsed r d document =
      (body : D) × (r.body ≡ ok body)
      × (parse_update_document platform.net platform.json body
            (get_config_document platform d.service)
          ≡ ok document)

  -- What PUT /api/config does, as a relation to its result: it answers 200 and the service holds
  -- the document of the body, or it answers with an error and the desired state is kept.
  abbrev pub Answers : Request D → Daemon W V → Response × Daemon W V → Type 0
  Answers r d result =
      (result.1.logger ≡ d.logger)
      × (((result.0.code ≡ 200)
            × (document : Document) × IsParsed r d document
            × Updates platform document d.service (none, result.1.service))
          ⊎ (IsRefusal result.0 × KeepsDesired platform d.service result.1.service))

  command-Answers :
      (r : Request D) (d : Daemon W V) (document : Document) (result : Option Error × Service W)
      → IsParsed r d document
      → Updates platform document d.service result
      → Answers r d (answer_command result.0, record d { service = result.1 })
  unfolding answer_command
  command-Answers r d document (none, s) p u = (refl, inl (refl, document, p, u))
  command-Answers r d document (some e, s) p u = (refl, inr (write_control_error-IsRefusal e, u))

  after_parse-Answers :
      (r : Request D) (d : Daemon W V) (next : Result Document)
      → ((document : Document) → next ≡ ok document → IsParsed r d document)
      → Answers r d (after_parse platform.net platform.json (controller_of V platform) log next d)
  unfolding after_parse
  after_parse-Answers r d (err e) p = (refl, inr (inl refl, (refl, refl)))
  after_parse-Answers r d (ok document) p =
      command-Answers r d document (update_config_document platform (some document) d.service)
        (p document refl) (update_config_document-Updates platform document d.service)

  after_body-Answers :
      (r : Request D) (d : Daemon W V) (body : Result D)
      → r.body ≡ body
      → Answers r d (after_body platform.net platform.json (controller_of V platform) log body d)
  unfolding after_body
  after_body-Answers r d (err e) h = (refl, inr (inl refl, (refl, refl)))
  after_body-Answers r d (ok body) h =
      after_parse-Answers r d
        (parse_update_document platform.net platform.json body
          (get_config_document platform d.service))
        (λ document e. (body, h, e))

  -- A `PUT /api/config` either answers 200, and then its body parses to a document that the service
  -- now holds with its defaults and validations, acceptable and with its effective configuration,
  -- which validates; or it answers 400 or 500, and then the document and the configuration are
  -- those from before. The logger is kept.
  pub handle_update_config-Answers :
      (r : Request D) (d : Daemon W V)
      → Answers r d
          (handle_update_config platform.net platform.json (controller_of V platform) log r d)
  unfolding handle_update_config
  handle_update_config-Answers r d = after_body-Answers r d r.body refl

  refused-absurd : (response : Response) → IsRefusal response → ¬ (response.code ≡ 200)
  refused-absurd response (inl bad) h = absurd (omega arith)
  refused-absurd response (inr failed) h = absurd (omega arith)

  get_config_document-candidate :
      (document : Document) (s t : Service W)
      → t.document ≡ candidate platform document s
      → get_config_document platform t ≡ candidate platform document s
  unfolding get_config_document validate_document
  get_config_document-candidate document s t same =
      rw same
        (settled_idem platform.net platform.json (preserve_startup_fields document s.document))

  -- the document with the port of the service where it has none, and then with its defaults and the
  -- validations of its profiles
  abbrev pub settled_for : Daemon W V → Document → Document
  settled_for d document =
      let port =
        if is_zero document.server.port
        then d.service.document.server.port
        else document.server.port in
      (validate_document platform.net
        (record document { server = record (document.server) { port = port } })).1

  candidate-settled_for :
      (document : Document) (d : Daemon W V)
      → candidate platform document d.service ≡ settled_for d document
  unfolding preserve_startup_fields validate_document
  candidate-settled_for document d = elim (Bool-cases (is_zero document.server.port)) [
    | inl absent ↦ rw absent refl
    | inr given ↦ rw given refl
  ]

  -- After a `PUT /api/config` that was answered with 200, a `GET /api/config` answers with 200 and
  -- the document that the body was parsed to, with the service's port where it had none, its
  -- defaults and its validations; and it changes nothing.
  pub handle_get_config-Reads :
      (r q : Request D) (d : Daemon W V)
      → let put = handle_update_config platform.net platform.json (controller_of V platform) log in
        let get = handle_get_config platform.net platform.json (controller_of V platform) log in
        (put r d).0.code ≡ 200
        → (document : Document) × IsParsed r d document
          × (get q (put r d).1
              ≡ (write_json 200 (config_answer (settled_for d document)), (put r d).1))
  unfolding handle_get_config
  handle_get_config-Reads r q d h =
      let put = handle_update_config platform.net platform.json (controller_of V platform) log in
      let (_, answered) = handle_update_config-Answers r d in
      elim answered [
        | inr (refused, _) ↦ absurd (refused-absurd (put r d).0 refused h)
        | inl (_, document, parsed, updates) ↦ (
          document,
          parsed,
          ap (λ (shown : Document). (write_json 200 (config_answer shown), (put r d).1))
              (get_config_document-candidate document d.service (put r d).1.service updates.0
                ∙ candidate-settled_for document d),
        )
      ]
