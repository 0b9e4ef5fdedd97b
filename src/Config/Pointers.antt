-- ===== src/Config/Pointers.antt =====
-- The functions of internal/config/config.go on pointers that may be nil: `none` is nil.
use unifi_6in.Prelude.{String, Option, none, some, List, [], ◌∷◌, if◌then◌else◌}
use unifi_6in.Errors.{Error, plain, Result, ok, err, ◌>>=◌}
use unifi_6in.Net.{NetIp}
use unifi_6in.Config.Types.{Config, Profile, Document, storage_format_legacy}
use unifi_6in.Config.Validation.{config_reasons, validation_error, refresh_profile_validation}
use unifi_6in.Config.Documents.{
  document_reasons, active_profile, active_config, replace_active_config, document_from_config,
  default_document,
}
use unifi_6in.Config.Raw.{Json, Files}
use unifi_6in.Config.Storage.{
  is_profiles_format, parse_profiles_document, parse_legacy_config, parse_legacy_update_document,
  save, save_document,
}

abbrev no_config : Error
no_config = plain "config is required"

abbrev no_document : Error
no_document = plain "config document is required"

module _ (net : NetIp) where
  -- func (c *Config) ValidationReasons, and Validate
  unfoldable pub config_reasons_at : Option Config → List String
  config_reasons_at none = "config is required" ∷ []
  config_reasons_at (some c) = config_reasons net c

  unfoldable pub validate_config_at : Option Config → Option Error
  unfolding config_reasons_at
  validate_config_at c = validation_error (config_reasons_at c)

  -- func (d *Document) ValidationReasons, and Validate: what they return, and the document that
  -- they leave
  unfoldable pub document_reasons_at : Option Document → List String × Option Document
  document_reasons_at none = ("config document is required" ∷ [], none)
  document_reasons_at (some d) = let (reasons, d') = document_reasons net d in (reasons, some d')

  unfoldable pub validate_document_at : Option Document → Option Error × Option Document
  unfolding document_reasons_at
  validate_document_at d =
      let (reasons, d') = document_reasons_at d in (validation_error reasons, d')

  -- func (d *Document) ActiveProfile
  unfoldable pub active_profile_at : Option Document → Result Profile
  active_profile_at none = err no_document
  active_profile_at (some d) = active_profile net d

  -- func (d *Document) ActiveConfig
  unfoldable pub active_config_at : Option Document → Result Config
  active_config_at none = err no_document
  active_config_at (some d) = active_config net d

  -- func DocumentFromConfig
  unfoldable pub document_from_config_at : Option Config → String → Document
  document_from_config_at none format = default_document net
  document_from_config_at (some cfg) format = document_from_config net cfg format

  -- func replaceDocumentActiveProfileConfig
  unfoldable pub replace_active_config_at : Option Document → Option Config → Result Document
  replace_active_config_at none _ = err no_document
  replace_active_config_at (some d) none = err no_config
  replace_active_config_at (some d) (some cfg) = replace_active_config net d cfg

module _ {D : Type 0} (net : NetIp) (json : Json D) where
  -- func parseLegacyUpdateDocument
  unfoldable pub parse_legacy_update_document_at : D → Option Document → Result Document
  parse_legacy_update_document_at text (some current) =
      parse_legacy_update_document net json text current
  parse_legacy_update_document_at text none = do
    cfg ← parse_legacy_config net json text
    ok (refresh_profile_validation net (document_from_config net cfg storage_format_legacy))

  -- func ParseUpdateDocument
  unfoldable pub parse_update_document_at : D → Option Document → Result Document
  unfolding parse_legacy_update_document_at
  parse_update_document_at text current =
      if is_profiles_format net json text
      then parse_profiles_document net json text
      else parse_legacy_update_document_at text current

module _ {D W : Type 0} (net : NetIp) (json : Json D) (files : Files D W) where
  -- func Save
  unfoldable pub save_at : Option Config → W → Option Error × W
  save_at none w = (some no_config, w)
  save_at (some cfg) w = save net json files cfg w

  -- func SaveDocument
  unfoldable pub save_document_at : Option Document → W → Option Error × W
  save_document_at none w = (some no_document, w)
  save_document_at (some d) w = save_document net json files d w
