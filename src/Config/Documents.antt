-- ===== src/Config/Documents.antt =====
-- The document operations of internal/config/config.go: its validation, the profile that is active
-- and the effective configuration, documents made from a configuration, and the replacement of the
-- active profile's configuration. The proofs stand in the modules below.
pub mod Effective
pub mod Uniqueness
pub mod Validity
use unifi_6in.Prelude.{
  ℕ, ◌+◌, String, false, Option, none, some, List, [], ◌∷◌, ◌++◌, map, if◌then◌else◌, ◌==◌,
}
use unifi_6in.Text.{◌<>◌, is_blank}
use unifi_6in.Errors.{Error, plain, Result, ok, err, ◌>>=◌}
use unifi_6in.Net.{NetIp}
use unifi_6in.Config.Types.{
  ServerConfig, Config, ProfileConfig, Profile, Document, default_port, default_wan_interface,
  default_profile_id, default_profile_name, storage_format_legacy,
}
use unifi_6in.Config.Defaults.{config_defaults, document_defaults, default_profile_config}
use unifi_6in.Config.Validation.{
  indexed, validate_server_config, validation_error, profile_part, refresh_profile_validation,
}

-- seenIDs and seenNames: a map from a text to the index of its profile
abbrev pub Seen : Type 0
Seen = List (String × ℕ)

unfoldable pub lookup : String → Seen → Option ℕ
lookup key [] = none
lookup key ((k, v) ∷ seen) = if k == key then some v else lookup key seen

-- One of the two ladders in the loop of ValidationReasons: the reasons that it appends about the
-- text `value` of the field `field`, and the map after it.
unfoldable pub check_unique : String → ℕ → String → Seen → List String × Seen
unfolding lookup
check_unique field index value seen =
    if is_blank value
    then (indexed "profiles" index ("." <> field <> " is required") ∷ [], seen)
    else elim (lookup value seen) [
      | some previous ↦ (
        indexed "profiles" index ("." <> field <> " must be unique")
            ∷ (indexed "profiles" index ("." <> field <> " conflicts with ")
                <> indexed "profiles" previous ("." <> field))
            ∷ [],
        seen,
      )
      | none ↦ ([], (value, index) ∷ seen)
    ]

-- The loop of ValidationReasons. `found` is `activeIndex` with the profile at that index.
unfoldable pub scan_profiles :
    String
    → ℕ
    → List Profile
    → Seen
    → Seen
    → Option (ℕ × Profile)
    → List String × Option (ℕ × Profile)
unfolding check_unique
scan_profiles active index [] ids names found = ([], found)
scan_profiles active index (p ∷ ps) ids names found =
    let (id_reasons, ids') = check_unique "id" index p.id ids in
    let (name_reasons, names') = check_unique "name" index p.name names in
    let (rest, last) =
      scan_profiles active (index + 1) ps ids' names'
        (if p.id == active then some (index, p) else found) in
    (id_reasons ++ (name_reasons ++ rest), last)

-- what ValidationReasons appends about `active_profile_id`
unfoldable pub active_reasons : String → Option (ℕ × Profile) → List String
active_reasons active found =
    if is_blank active then "active_profile_id is required" ∷ [] else elim found [
      | none ↦ "active_profile_id must reference an existing profile" ∷ []
      | some _ ↦ []
    ]

-- the last loop of ValidationReasons
unfoldable pub config_errors : Option (ℕ × Profile) → List String
config_errors none = []
config_errors (some (index, p)) =
    map (λ reason. indexed "profiles" index (".config." <> reason)) p.validation_errors

-- the rest of ValidationReasons: the reasons for a document whose defaults and profile validations
-- are in place, from its server, its active identifier and its profiles
unfoldable pub profiles_reasons : ServerConfig → String → List Profile → List String
unfolding scan_profiles active_reasons config_errors
profiles_reasons server active [] =
    validate_server_config server ++ "profiles must contain at least one profile" ∷ []
profiles_reasons server active (p ∷ ps) =
    let (reasons, found) = scan_profiles active 0 (p ∷ ps) [] [] none in
    validate_server_config server
    ++ (reasons ++ (active_reasons active found ++ config_errors found))

abbrev pub checked_reasons : Document → List String
checked_reasons d = profiles_reasons d.server d.active_profile_id d.profiles

-- the loop of func (d *Document) ActiveProfile, over a deep copy
unfoldable pub first_with_id : String → List Profile → Option Profile
first_with_id active [] = none
first_with_id active (p ∷ ps) = if p.id == active then some p else first_with_id active ps

-- the loop of func replaceDocumentActiveProfileConfig
unfoldable pub replace_first : String → ProfileConfig → List Profile → Option (List Profile)
replace_first active config [] = none
replace_first active config (p ∷ ps) =
    let rest = replace_first active config ps in
    if p.id == active
    then some (record p { config = config } ∷ ps)
    else elim rest [ none ↦ none | some qs ↦ some (p ∷ qs) ]

-- a profile's own `Tunnel.Enabled` is always off: the document holds the switch
abbrev pub disabled : ProfileConfig → ProfileConfig
disabled c = record c { tunnel = record (c.tunnel) { enabled = false } }

module _ (net : NetIp) where
  -- ValidationReasons first applies the defaults to the document and validates its profiles anew.
  abbrev pub settled : Document → Document
  settled d = refresh_profile_validation net (document_defaults d)

  -- func (d *Document) ValidationReasons: the reasons, and the document that it leaves
  unfoldable pub document_reasons : Document → List String × Document
  unfolding profiles_reasons
  document_reasons d = (checked_reasons (settled d), settled d)

  -- func (d *Document) Validate
  unfoldable pub validate_document : Document → Option Error × Document
  unfolding document_reasons
  validate_document d = let (reasons, d') = document_reasons d in (validation_error reasons, d')

  abbrev pub not_found : String → Error
  not_found active = plain ("active profile " <> net.quote active <> " not found")

  -- func (d *Document) ActiveProfile
  unfoldable pub active_profile : Document → Result Profile
  unfolding first_with_id
  active_profile d = elim (first_with_id d.active_profile_id d.profiles) [
    | none ↦ err (not_found d.active_profile_id)
    | some p ↦ ok p
  ]

  -- the effective configuration of a document whose active profile is `p`
  unfoldable pub effective_config : Document → Profile → Config
  effective_config d p = config_defaults (record {
    tunnel = record (p.config.tunnel) { enabled = d.tunnel_enabled };
    lan = p.config.lan;
    health = p.config.health;
    server = d.server;
  })

  -- func (d *Document) ActiveConfig
  unfoldable pub active_config : Document → Result Config
  unfolding active_profile effective_config
  active_config d = do p ← active_profile d; ok (effective_config d p)

  -- func replaceDocumentActiveProfileConfig, and replaceActiveProfileConfig of
  -- internal/control/service.go, which has the same text
  unfoldable pub replace_active_config : Document → Config → Result Document
  unfolding replace_first
  replace_active_config d cfg =
      elim (replace_first d.active_profile_id (disabled (profile_part cfg)) d.profiles) [
        | none ↦ err (not_found d.active_profile_id)
        | some ps ↦ ok (record d { profiles = ps })
      ]

  -- func DocumentFromConfig, of a config that is not nil
  unfoldable pub document_from_config : Config → String → Document
  document_from_config cfg format =
      let clone = config_defaults cfg in
      refresh_profile_validation net (record {
        storage_format = format;
        tunnel_enabled = clone.tunnel.enabled;
        active_profile_id = default_profile_id;
        profiles =
            record {
              id = default_profile_id;
              name = default_profile_name;
              config = disabled (profile_part clone);
              is_valid = false;
              validation_errors = [];
            }
            ∷ [];
        server = clone.server;
      })

  -- func DefaultDocument
  unfoldable pub default_document : Document
  default_document = refresh_profile_validation net (record {
    storage_format = storage_format_legacy;
    tunnel_enabled = false;
    active_profile_id = default_profile_id;
    profiles =
        record {
          id = default_profile_id;
          name = default_profile_name;
          config = default_profile_config;
          is_valid = false;
          validation_errors = [];
        }
        ∷ [];
    server = record { port = default_port; wan_interface = default_wan_interface; auth_token = "" };
  })
