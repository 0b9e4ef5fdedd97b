-- ===== src/Config/Storage/Roundtrip.antt =====
-- What is saved is loaded again: the document that `SaveDocument` of internal/config/config.go
-- writes in the profiles format is the one that `LoadDocument` reads.
use unifi_6in.Prelude.{
  String, ◌≡◌, refl, ◌∙◌, sym, ap, Bool, true, false, Option, none, some, List, [], ◌∷◌, map, All,
  arith,
}
use unifi_6in.Text.{trim_space}
use unifi_6in.Errors.{Error, Result, ok, err}
use unifi_6in.Net.{NetIp}
use unifi_6in.Config.Types.{Profile, Document, storage_format_profiles}
use unifi_6in.Config.Defaults.{
  profile_config_defaults, profile_defaults, document_defaults, tunnel_defaults,
}
use unifi_6in.Config.Defaults.Laws.{document_defaults_idem}
use unifi_6in.Config.Validation.{refresh_profile_validation}
use unifi_6in.Config.Documents.{settled, validate_document}
use unifi_6in.Config.Storage.{
  should_save_legacy, has_profiles_key, document_of_raw, validated, parse_profiles_document,
  is_profiles_format, parse_document, write_data, write_profiles, save_profiles, save_checked,
  save_document, load_document,
}
use unifi_6in.Config.Raw.{RawProfileDocument, Json, Files, build_raw_profile_document}
use unifi_6in.Config.Storage.Settling.{IsDisabled, format-settled, validated-raw}

-- encoding/json reads back a profiles document that it has written, and its probe sees the keys.
pub record ReadsBack {D : Type 0} (json : Json D) : Type 0 where
  pub profiles :
      (raw : RawProfileDocument) (text : D)
      → json.encode_profiles raw ≡ ok text
      → json.decode_profiles text ≡ ok raw
  pub probe :
      (raw : RawProfileDocument) (text : D)
      → json.encode_profiles raw ≡ ok text
      → json.decode_probe text
        ≡ ok (record {
          tunnel_enabled = raw.tunnel_enabled;
          active_profile_id = raw.active_profile_id;
          profiles = true;
        })

-- What an atomic write without an error has written is what a read gives.
abbrev pub Stores : {D W : Type 0} → Files D W → Type 0
Stores {D} {W} files =
    (text : D) (w : W)
    → (files.write_atomically text w).0 ≡ none
    → files.read_file (files.write_atomically text w).1 ≡ ok text

module _ {D W : Type 0} (net : NetIp) (json : Json D) (files : Files D W) where
  write_data-none :
      (before : String) (text : D) (w : W)
      → (write_data net json files before text w).0 ≡ none
      → (files.write_atomically text w).0 ≡ none
  unfolding write_data
  write_data-none before text w h = ground arith

  write_profiles-reads :
      Stores files
      → (encoded : Result D) (w : W) → (write_profiles net json files encoded w).0 ≡ none
      → (text : D) × (encoded ≡ ok text)
        × (files.read_file (write_profiles net json files encoded w).1 ≡ ok text)
  unfolding write_profiles write_data
  write_profiles-reads stores (err e) w h = absurd (cc)
  write_profiles-reads stores (ok text) w h =
      (text, refl, stores text w (write_data-none "write config document: " text w h))

  not_legacy :
      (d : Document) → d.storage_format ≡ storage_format_profiles → should_save_legacy d ≡ false
  unfolding should_save_legacy
  not_legacy d h = rw h refl

  save_checked-none :
      (failure : Option Error) (d : Document) (w : W)
      → d.storage_format ≡ storage_format_profiles
      → (save_checked net json files failure d w).0 ≡ none
      → (failure ≡ none)
        × (save_checked net json files failure d w ≡ save_profiles net json files d w)
  unfolding save_checked
  save_checked-none none d w f h = (refl, rw (not_legacy d f) refl)
  save_checked-none (some e) d w f h = absurd (cc)

  format-defaults :
      (d : Document)
      → d.storage_format ≡ storage_format_profiles
      → (document_defaults d).storage_format ≡ storage_format_profiles
  unfolding document_defaults trim_space
  format-defaults d h = rw h refl

  defaults-IsDisabled :
      (ps : List Profile) → All IsDisabled ps → All IsDisabled (map profile_defaults ps)
  unfolding profile_config_defaults tunnel_defaults
  defaults-IsDisabled [] h = tt
  defaults-IsDisabled (p ∷ ps) (h, hs) = (h, defaults-IsDisabled ps hs)

  is_profiles_format-true :
      (text : D) (raw : RawProfileDocument) (enabled : Bool)
      → json.decode_probe text
        ≡ ok (record {
          tunnel_enabled = some enabled;
          active_profile_id = raw.active_profile_id;
          profiles = true;
        })
      → is_profiles_format net json text ≡ true
  unfolding is_profiles_format has_profiles_key
  is_profiles_format-true text raw enabled p = ap has_profiles_key p

  parse_document-raw :
      (text : D) (raw : RawProfileDocument) (enabled : Bool)
      → json.decode_probe text
        ≡ ok (record {
          tunnel_enabled = some enabled;
          active_profile_id = raw.active_profile_id;
          profiles = true;
        })
      → json.decode_profiles text ≡ ok raw
      → parse_document net json text
        ≡ validated net json (document_defaults (document_of_raw net json raw))
  unfolding parse_document parse_profiles_document
  parse_document-raw text raw enabled p q = rw (is_profiles_format-true text raw enabled p, q) refl

  -- Where encoding/json reads back what it has written and the file stores what is written: once
  -- SaveDocument of a document in the profiles format, none of whose profiles has a switch of its
  -- own, returns nil, LoadDocument returns that document with its defaults and validations.
  pub load-save_document :
      ReadsBack json
      → Stores files
      → (d : Document) (w : W) → d.storage_format ≡ storage_format_profiles
      → All IsDisabled d.profiles
      → (save_document net json files d w).0 ≡ none
      → load_document net json files (save_document net json files d w).1 ≡ ok (settled net d)
  unfolding save_document load_document save_profiles build_raw_profile_document
      refresh_profile_validation document_defaults validate_document
  load-save_document back stores d w f h saved =
      let d1 = document_defaults d in
      let clone = settled net d1 in
      let f1 = format-defaults d f in
      let (valid, same) =
        save_checked-none (validate_document net d1).0 (validate_document net d1).1 w
          (format-settled net json d1 f1) saved in
      let raw = build_raw_profile_document (validate_document net d1).1 in
      let (text, encoded, read) =
        write_profiles-reads stores (json.encode_profiles raw) w
          (ap (λ (r : Option Error × W). r.0) (sym same) ∙ saved) in
      let read' = ap (λ (r : Option Error × W). files.read_file r.1) same ∙ read in
      rw read' (
        parse_document-raw text raw d.tunnel_enabled (back.probe raw text encoded)
          (back.profiles raw text encoded)
        ∙ validated-raw net json d1 valid f1 (defaults-IsDisabled d.profiles h)
        ∙ ap (λ (x : Document). ok x)
            (ap (refresh_profile_validation net) (document_defaults_idem d)))
