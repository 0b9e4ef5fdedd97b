-- ===== src/Config/Storage.antt =====
-- The storage of internal/config/config.go: the parsing of the JSON documents, the migration of the
-- legacy format, and `Save`, `SaveDocument`, `ParseDocument` and
-- `ParseUpdateDocument`. encoding/json and the file are the parameters `json` and `files`.
pub mod Settling
pub mod Roundtrip
pub mod Updating
use unifi_6in.Prelude.{
  String, ℤ, pos, Bool, false, not, ◌&&◌, ◌||◌, Option, none, some, is_some, List, [], ◌∷◌, map,
  if◌then◌else◌, ◌==◌,
}
use unifi_6in.Text.{is_blank}
use unifi_6in.Errors.{Error, wrapped, Result, ok, err, ◌>>=◌, wrap}
use unifi_6in.Net.{NetIp}
use unifi_6in.Config.Types.{
  LanConfig, HealthConfig, Config, Profile, Document, default_profile_id, default_profile_name,
  storage_format_legacy, storage_format_profiles,
}
use unifi_6in.Config.Defaults.{default_config, config_defaults, document_defaults}
use unifi_6in.Config.Validation.{validate_config, refresh_profile_validation}
use unifi_6in.Config.Documents.{
  validate_document, active_config, replace_active_config, document_from_config, default_document,
}
use unifi_6in.Config.Raw.{
  RawTunnelConfig, RawServerConfig, RawConfig, RawProfileTunnelConfig, RawProfileConfig, RawProfile,
  RawProfileDocument, DocumentFormatProbe, Json, Files, raw_profile, build_raw_profile_document,
  profile_of_raw,
}

abbrev pub or_else {ℓ} : {A : Type ℓ} → Option A → A → A
or_else none a = a
or_else (some b) a = b

-- `len(d.Profiles) == 1`, and the profile has the default identifier and name
unfoldable pub is_single_default : List Profile → Bool
is_single_default [] = false
is_single_default (p ∷ []) = p.id == default_profile_id && p.name == default_profile_name
is_single_default (_ ∷ _ ∷ _) = false

-- func (d *Document) shouldSaveLegacy
unfoldable pub should_save_legacy : Document → Bool
unfolding is_single_default
should_save_legacy d =
    d.storage_format == storage_format_legacy
    && d.active_profile_id == default_profile_id
    && is_single_default d.profiles

-- isProfilesFormat after its Unmarshal
unfoldable pub has_profiles_key : Result DocumentFormatProbe → Bool
has_profiles_key (err _) = false
has_profiles_key (ok probe) =
    is_some probe.tunnel_enabled || not (is_blank probe.active_profile_id) || probe.profiles

abbrev pub result_of {ℓ} : {A : Type ℓ} → Option Error → A → Result A
result_of none a = ok a
result_of (some e) a = err e

module _ {D : Type 0} (net : NetIp) (json : Json D) where
  -- parseProfilesDocument up to the defaults: what the raw document says, over DefaultDocument
  unfoldable pub document_of_raw : RawProfileDocument → Document
  document_of_raw raw =
      let base = default_document net in
      record {
        storage_format = storage_format_profiles;
        tunnel_enabled = or_else raw.tunnel_enabled base.tunnel_enabled;
        active_profile_id =
            if not (is_blank raw.active_profile_id)
            then raw.active_profile_id
            else base.active_profile_id;
        profiles = map profile_of_raw raw.profiles;
        server = record {
          port = or_else raw.server.port (pos 0);
          wan_interface = raw.server.wan_interface;
          auth_token = raw.server.auth_token;
        };
      }

  -- `if err := document.Validate(); err != nil { return nil, err }; return document, nil`
  unfoldable pub validated : Document → Result Document
  validated d = let (failure, d') = validate_document net d in result_of failure d'

  -- func parseProfilesDocument
  unfoldable pub parse_profiles_document : D → Result Document
  unfolding document_of_raw validated
  parse_profiles_document text = do
    raw ← wrap "parse config document: " "" (json.decode_profiles text)
    validated (document_defaults (document_of_raw raw))

  -- func (c *Config) applyLegacyTunnelEnabled
  unfoldable pub apply_legacy_tunnel_enabled : D → Config → Result Config
  apply_legacy_tunnel_enabled text c = do
    raw ← wrap "parse config for migration: " "" (json.decode_raw text)
    ok (record c {
      tunnel = record (c.tunnel) {
        enabled =
            or_else raw.tunnel.enabled
              (not (is_blank c.tunnel.remote_endpoint) && not (is_blank c.tunnel.local_ipv6));
      };
    })

  -- func parseLegacyConfig
  unfoldable pub parse_legacy_config : D → Result Config
  unfolding apply_legacy_tunnel_enabled
  parse_legacy_config text = do
    cfg ← wrap "parse config: " "" (json.decode_config default_config text)
    migrated ← apply_legacy_tunnel_enabled text cfg
    ok (config_defaults migrated)

  -- func isProfilesFormat
  unfoldable pub is_profiles_format : D → Bool
  is_profiles_format text = has_profiles_key (json.decode_probe text)

  -- func ParseDocument
  unfoldable pub parse_document : D → Result Document
  unfolding parse_profiles_document parse_legacy_config
  parse_document text = if is_profiles_format text then parse_profiles_document text else do
    cfg ← parse_legacy_config text
    ok (refresh_profile_validation net (document_from_config net cfg storage_format_legacy))

  -- func parseLegacyUpdateDocument, of a current document that is not nil
  unfoldable pub parse_legacy_update_document : D → Document → Result Document
  unfolding parse_legacy_config validated
  parse_legacy_update_document text current = do
    cfg ← parse_legacy_config text
    raw ← wrap "parse config for update migration: " "" (json.decode_raw text)
    let enabled = if is_some raw.tunnel.enabled then cfg.tunnel.enabled else current.tunnel_enabled
    let port = if is_some raw.server.port then cfg.server.port else current.server.port
    next ←
        replace_active_config net
          (record current {
            tunnel_enabled = enabled;
            server = record (cfg.server) { port = port };
          })
          cfg
    validated next

  -- func ParseUpdateDocument
  unfoldable pub parse_update_document : D → Document → Result Document
  unfolding parse_profiles_document parse_legacy_update_document
  parse_update_document text current =
      if is_profiles_format text
      then parse_profiles_document text
      else parse_legacy_update_document text current

  -- func Parse
  unfoldable pub parse : D → Result Config
  unfolding parse_document
  parse text = do document ← parse_document text; active_config net document

  -- the branch of ParseUpdate for the profiles format, and the other one
  unfoldable pub parse_profiles_update : D → Config → Result Config
  unfolding parse_update_document
  parse_profiles_update text current = do
    document ← parse_update_document text (document_from_config net current storage_format_profiles)
    active_config net document

  unfoldable pub parse_legacy_update : D → Config → Result Config
  unfolding parse_legacy_config
  parse_legacy_update text current = do
    cfg ← parse_legacy_config text
    raw ← wrap "parse config for update migration: " "" (json.decode_raw text)
    ok (record cfg {
      tunnel = record (cfg.tunnel) {
        enabled = if is_some raw.tunnel.enabled then cfg.tunnel.enabled else current.tunnel.enabled;
      };
      server = record (cfg.server) {
        port = if is_some raw.server.port then cfg.server.port else current.server.port;
      };
    })

  -- func ParseUpdate, of a current configuration that is not nil
  unfoldable pub parse_update : D → Config → Result Config
  unfolding parse_profiles_update parse_legacy_update
  parse_update text current =
      if is_profiles_format text
      then parse_profiles_update text current
      else parse_legacy_update text current

module _ {D W : Type 0} (net : NetIp) (json : Json D) (files : Files D W) where
  -- `if err := fileutil.WriteAtomically(path, data); err != nil { return fmt.Errorf(…) }`
  unfoldable pub write_data : String → D → W → Option Error × W
  write_data before text w =
      let (failure, w') = files.write_atomically text w in
      (elim failure [ none ↦ none | some e ↦ some (wrapped before e "") ], w')

  -- func Save, of a config that is not nil
  unfoldable pub save : Config → W → Option Error × W
  unfolding write_data
  save cfg w =
      let clone = config_defaults cfg in
      elim (validate_config net clone) [
        | some e ↦ (some e, w)
        | none ↦ elim (json.encode_config clone) [
          | err e ↦ (some (wrapped "marshal config: " e ""), w)
          | ok text ↦ write_data "write config: " text w
        ]
      ]

  unfoldable pub write_profiles : Result D → W → Option Error × W
  write_profiles (err e) w = (some (wrapped "marshal config document: " e ""), w)
  write_profiles (ok text) w = write_data "write config document: " text w

  -- the end of SaveDocument
  unfoldable pub save_profiles : Document → W → Option Error × W
  save_profiles d w = write_profiles (json.encode_profiles (build_raw_profile_document d)) w

  unfoldable pub save_legacy : Document → W → Option Error × W
  unfolding save
  save_legacy d w = elim (active_config net d) [ err e ↦ (some e, w) | ok cfg ↦ save cfg w ]

  -- SaveDocument after Validate
  unfoldable pub save_checked : Option Error → Document → W → Option Error × W
  save_checked (some e) d w = (some e, w)
  save_checked none d w = if should_save_legacy d then save_legacy d w else save_profiles d w

  -- func SaveDocument, of a document that is not nil
  unfoldable pub save_document : Document → W → Option Error × W
  save_document d w =
      let (failure, clone) = validate_document net (document_defaults d) in
      save_checked failure clone w

  -- func LoadDocument
  unfoldable pub load_document : W → Result Document
  load_document w = do
    text ← wrap "read config: " "" (files.read_file w)
    parse_document net json text

  -- func Load
  unfoldable pub load : W → Result Config
  unfolding load_document
  load w = do document ← load_document w; active_config net document
