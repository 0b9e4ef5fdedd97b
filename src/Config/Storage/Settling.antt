-- ===== src/Config/Storage/Settling.antt =====
-- The defaults and the validation of a document in internal/config/config.go, applied again and after
-- the document has been made from its raw document.
use mathlib.Core.Path.{subst}
use unifi_6in.Prelude.{
  String, ◌≡◌, not, refl, ◌∙◌, sym, ap, Bool, false, none, List, [], ◌∷◌, map, All, if◌then◌else◌,
}
use unifi_6in.Text.{is_blank, trim_space}
use unifi_6in.Errors.{ok}
use unifi_6in.Net.{NetIp}
use unifi_6in.Config.Types.{Profile, Document, storage_format_profiles, default_profile_id}
use unifi_6in.Config.Defaults.{
  profile_config_defaults, profile_defaults, document_defaults, tunnel_defaults,
}
use unifi_6in.Config.Defaults.Laws.{document_defaults_idem}
use unifi_6in.Config.Validation.{
  refresh_profile, refresh_profiles, refresh_profile_validation, validation_error,
}
use unifi_6in.Config.Documents.{settled, validate_document, checked_reasons, default_document}
use unifi_6in.Config.Documents.Validity.{validate_document_iff}
use unifi_6in.Config.Storage.{result_of, document_of_raw, validated}
use unifi_6in.Config.Raw.{Json, raw_profile, build_raw_profile_document, profile_of_raw}

-- No profile carries the switch of its own, which the document holds.
abbrev pub IsDisabled : Profile → Type 0
IsDisabled p = p.config.tunnel.enabled ≡ false

module _ {D : Type 0} (net : NetIp) (json : Json D) where
  refresh_twice :
      (a b : String) (e f : Bool) (ps : List Profile)
      → refresh_profiles net a e (map profile_defaults (refresh_profiles net b f ps))
        ≡ refresh_profiles net a e (map profile_defaults ps)
  unfolding refresh_profiles refresh_profile
  refresh_twice a b e f [] = refl
  refresh_twice a b e f (p ∷ ps) =
      λ i. refresh_profile net a e (profile_defaults p) ∷ refresh_twice a b e f ps i

  settled-settled :
      (d : Document)
      → settled net (settled net d)
        ≡ refresh_profile_validation net (document_defaults (document_defaults d))
  unfolding refresh_profile_validation document_defaults
  settled-settled d = λ i. record (settled net (document_defaults d)) {
    profiles =
        refresh_twice (document_defaults (document_defaults d)).active_profile_id
          (document_defaults d).active_profile_id d.tunnel_enabled d.tunnel_enabled
          (document_defaults d).profiles i;
  }

  -- A document that is settled stays as it is when it is settled again.
  pub settled_idem : (d : Document) → settled net (settled net d) ≡ settled net d
  settled_idem d =
      settled-settled d ∙ ap (refresh_profile_validation net) (document_defaults_idem d)

  refresh_stripped :
      (a : String) (e : Bool) (ps : List Profile)
      → All IsDisabled ps
      → refresh_profiles net a e (map profile_defaults (map profile_of_raw (map raw_profile ps)))
        ≡ refresh_profiles net a e (map profile_defaults ps)
  unfolding refresh_profiles refresh_profile
  refresh_stripped a e [] h = refl
  refresh_stripped a e (p ∷ ps) (h, hs) = λ i.
      refresh_profile net a e (
        profile_defaults (record p {
          config = record (p.config) { tunnel = record (p.config.tunnel) { enabled = sym h i } };
        }))
      ∷ refresh_stripped a e ps hs i

  -- The raw document keeps all of a document that its validation does not make anew.
  settled-raw :
      (d : Document)
      → d.storage_format ≡ storage_format_profiles
      → is_blank d.active_profile_id ≡ false
      → All IsDisabled d.profiles
      → settled net (document_of_raw net json (build_raw_profile_document d)) ≡ settled net d
  unfolding document_of_raw build_raw_profile_document refresh_profile_validation document_defaults
  settled-raw d f a h = λ i. record (settled net d) {
    storage_format = (let s = sym f i in if is_blank s then storage_format_profiles else s);
    active_profile_id = (let s = named i in if is_blank s then default_profile_id else s);
    profiles =
        refresh_stripped (let s = named i in if is_blank s then default_profile_id else s)
          d.tunnel_enabled d.profiles h i;
  }
    where
      named :
          (if not (is_blank d.active_profile_id)
            then d.active_profile_id
            else (default_document net).active_profile_id)
          ≡ d.active_profile_id
      named = rw a refl

  kept_switch : (p : Profile) → IsDisabled p → IsDisabled (profile_defaults p)
  kept_switch p h = unfold profile_config_defaults tunnel_defaults in h

  refresh-IsDisabled :
      (a : String) (e : Bool) (ps : List Profile)
      → All IsDisabled ps
      → All IsDisabled (refresh_profiles net a e (map profile_defaults ps))
  unfolding refresh_profiles refresh_profile profile_config_defaults tunnel_defaults
  refresh-IsDisabled a e [] h = tt
  refresh-IsDisabled a e (p ∷ ps) (h, hs) = (h, refresh-IsDisabled a e ps hs)

  pub settled-IsDisabled :
      (d : Document) → All IsDisabled d.profiles → All IsDisabled (settled net d).profiles
  unfolding refresh_profile_validation document_defaults
  settled-IsDisabled d h = refresh-IsDisabled _ _ d.profiles h

  pub format-settled :
      (d : Document)
      → d.storage_format ≡ storage_format_profiles
      → (settled net d).storage_format ≡ storage_format_profiles
  unfolding refresh_profile_validation document_defaults trim_space
  format-settled d h = rw h refl

  -- An acceptable document in the profiles format is read back from its raw document.
  pub validated-raw :
      (d : Document)
      → (validate_document net d).0 ≡ none
      → d.storage_format ≡ storage_format_profiles
      → All IsDisabled d.profiles
      → validated net json (
          document_defaults
            (document_of_raw net json (build_raw_profile_document (validate_document net d).1)))
        ≡ ok (validate_document net d).1
  unfolding validated validate_document
  validated-raw d valid f h =
      let a = (validate_document_iff net d).0 valid in
      let stored = settled net d in
      let raw = document_of_raw net json (build_raw_profile_document stored) in
      let same : settled net (document_defaults raw) ≡ stored =
        ap (refresh_profile_validation net) (document_defaults_idem raw)
        ∙ settled-raw stored (format-settled d f) a.active_named (settled-IsDisabled d h)
        ∙ settled_idem d in
      subst (λ z. result_of (validation_error (checked_reasons z)) z ≡ ok stored) (sym same)
        (ap (λ e. result_of e stored) valid)
