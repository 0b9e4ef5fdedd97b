-- ===== src/Config/Storage/Updating.antt =====
-- What an update in the legacy format does to a document: `ParseUpdateDocument` of
-- internal/config/config.go on a body that has no profiles.
use mathlib.Core.Path.{subst}
use unifi_6in.Prelude.{
  String, ◌≡◌, refl, sym, ap, ◌∙◌, Bool, true, false, Option, none, some, is_some, List, [], ◌∷◌,
  map, ◌==◌, if◌then◌else◌,
}
use unifi_6in.Errors.{Error, Result, ok, err, ◌>>=◌, wrap}
use unifi_6in.Net.{NetIp}
use unifi_6in.Config.Types.{Config, ProfileConfig, Profile, Document}
use unifi_6in.Config.Defaults.{profile_defaults, document_defaults}
use unifi_6in.Config.Validation.{
  profile_part, refresh_profile, refresh_profiles, refresh_profile_validation,
}
use unifi_6in.Config.Documents.{
  settled, not_found, validate_document, document_reasons, replace_first, replace_active_config,
  disabled,
}
use unifi_6in.Config.Raw.{RawConfig, Json}
use unifi_6in.Config.Storage.{
  result_of, validated, parse_legacy_config, parse_legacy_update_document, parse_update_document,
  is_profiles_format,
}

-- Two lists of profiles with the same identifiers and names, and with the same configurations, but
-- for defaults and profiles with the identifier `active`.
abbrev pub KeepsOthers : String → List Profile → List Profile → Type 0
KeepsOthers active [] [] = Unit
KeepsOthers active [] (_ ∷ _) = ⊥
KeepsOthers active (_ ∷ _) [] = ⊥
KeepsOthers active (p ∷ ps) (q ∷ qs) =
    (q.id ≡ p.id)
    × (q.name ≡ p.name)
    × (p.id == active ≡ false → q.config ≡ (profile_defaults p).config)
    × KeepsOthers active ps qs

settled-KeepsOthers :
    (net : NetIp) (active enabled_id : String) (enabled : Bool) (ps : List Profile)
    → KeepsOthers active ps (refresh_profiles net enabled_id enabled (map profile_defaults ps))
unfolding refresh_profiles refresh_profile
settled-KeepsOthers net active enabled_id enabled [] = tt
settled-KeepsOthers net active enabled_id enabled (p ∷ ps) =
    (refl, refl, λ _. refl, settled-KeepsOthers net active enabled_id enabled ps)

replaced-KeepsOthers :
    (net : NetIp) (active enabled_id : String) (enabled : Bool) (config : ProfileConfig)
    (ps qs : List Profile)
    → replace_first active config ps ≡ some qs
    → KeepsOthers active ps (refresh_profiles net enabled_id enabled (map profile_defaults qs))
unfolding replace_first refresh_profiles
replaced-KeepsOthers net active enabled_id enabled config [] qs h = absurd (cc)
replaced-KeepsOthers net active enabled_id enabled config (p ∷ ps) qs h =
    by_test (p.id == active) refl (replace_first active config ps) refl h
      (λ rest r. replaced-KeepsOthers net active enabled_id enabled config ps rest r)
  where
    kept : List Profile → Type 0
    kept qs =
        KeepsOthers active (p ∷ ps)
          (refresh_profiles net enabled_id enabled (map profile_defaults qs))

    by_test :
        (b : Bool)
        → p.id == active ≡ b
        → (rest : Option (List Profile)) → replace_first active config ps ≡ rest
        → (if b
            then some (record p { config = config } ∷ ps)
            else elim rest [ none ↦ none | some qs ↦ some (p ∷ qs) ])
          ≡ some qs
        → ((qs' : List Profile)
            → replace_first active config ps ≡ some qs'
            → KeepsOthers active ps
                (refresh_profiles net enabled_id enabled (map profile_defaults qs')))
        → kept qs
    by_test true e rest r h others =
        let same : ◌≡◌ {A = List Profile} (record p { config = config } ∷ ps) qs = cc in
        subst kept same
          (refl, refl, λ ne. absurd (cc), settled-KeepsOthers net active enabled_id enabled ps)
    by_test false e none r h others = absurd (cc)
    by_test false e (some qs') r h others =
        let same : ◌≡◌ {A = List Profile} (p ∷ qs') qs = cc in
        subst kept same (refl, refl, λ _. refl, others qs' r)

module _ {D : Type 0} (net : NetIp) (json : Json D) where
  result_of-ok : (failure : Option Error) (d e : Document) → result_of failure d ≡ ok e → e ≡ d
  result_of-ok none d e h = cc
  result_of-ok (some x) d e h = absurd (cc)

  validated-settled : (d e : Document) → validated net json d ≡ ok e → e ≡ settled net d
  unfolding validated validate_document document_reasons
  validated-settled d e h = result_of-ok _ (settled net d) e h

  bind-ok :
      {A B : Type 0}
      → (r : Result A) (f : A → Result B) (b : B) → (r >>= f) ≡ ok b
      → (a : A) × (r ≡ ok a) × (f a ≡ ok b)
  bind-ok (ok a) f b h = (a, refl, h)
  bind-ok (err e) f b h = absurd (cc)

  replace_active_config-ok :
      (d e : Document) (cfg : Config)
      → replace_active_config net d cfg ≡ ok e
      → (ps : List Profile) × (replace_first d.active_profile_id
            (disabled (profile_part cfg))
            d.profiles
          ≡ some ps)
        × (e ≡ record d { profiles = ps })
  unfolding replace_active_config
  replace_active_config-ok d e cfg h =
      found (replace_first d.active_profile_id (disabled (profile_part cfg)) d.profiles) h
    where
      found :
          (o : Option (List Profile))
          → ◌≡◌ {A = Result Document}
              (elim o [
                | none ↦ err (not_found net d.active_profile_id)
                | some ps ↦ ok (record d { profiles = ps })
              ])
              (ok e)
          → (ps : List Profile) × (o ≡ some ps) × (e ≡ record d { profiles = ps })
      found none h = absurd (cc)
      found (some ps) h = (ps, refl, cc)

  wrap-ok :
      {A : Type 0}
      → (before after : String) (r : Result A) (a : A) → wrap before after r ≡ ok a
      → r ≡ ok a
  wrap-ok before after (ok b) a h = h
  wrap-ok before after (err e) a h = absurd (cc)

  -- Where the body is not in the profiles format and ParseUpdateDocument returns a document: the
  -- profiles of the current document are there with their identifiers and names, in their order,
  -- and all but those with the active identifier have their configurations, up to defaults; where
  -- the body does not say whether the tunnel is enabled, the switch is that of the current
  -- document.
  pub parse_update_document-KeepsOthers :
      (text : D) (current d : Document)
      → is_profiles_format net json text ≡ false
      → parse_update_document net json text current ≡ ok d
      → KeepsOthers current.active_profile_id current.profiles d.profiles
        × (raw : RawConfig) × (json.decode_raw text ≡ ok raw)
        × (is_some raw.tunnel.enabled ≡ false → d.tunnel_enabled ≡ current.tunnel_enabled)
  unfolding parse_update_document parse_legacy_update_document refresh_profile_validation
      document_defaults
  parse_update_document-KeepsOthers text current d legacy h =
      let step : parse_update_document net json text current
          ≡ parse_legacy_update_document net json text current =
        rw legacy refl in
      let (cfg, _, h1) = bind-ok (parse_legacy_config net json text) _ d (sym step ∙ h) in
      let (raw, decoded, h2) =
        bind-ok (wrap "parse config for update migration: " "" (json.decode_raw text)) _ d h1 in
      let (next, replaced, h3) = bind-ok _ (λ next. validated net json next) d h2 in
      let (ps, found, e) = replace_active_config-ok _ next cfg replaced in
      let same = validated-settled next d h3 ∙ ap (settled net) e in
      (
        subst (λ (x : Document). KeepsOthers current.active_profile_id current.profiles x.profiles)
            (sym same)
            (replaced-KeepsOthers net current.active_profile_id _ _ (disabled (profile_part cfg))
              current.profiles ps found),
        raw,
        wrap-ok _ _ (json.decode_raw text) raw decoded,
        λ absent. ap (λ (x : Document). x.tunnel_enabled) same ∙ rw absent refl,
      )
