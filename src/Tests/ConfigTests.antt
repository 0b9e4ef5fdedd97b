-- ===== src/Tests/ConfigTests.antt =====
-- The theorems about internal/config applied to sample documents.
use unifi_6in.Prelude.{◌≡◌, true, false, refl, ap, sym, none, is_some, [], ◌∷◌}
use unifi_6in.Errors.{Result, ok, err}
use unifi_6in.Text.{trim_space, has_colon, itoa}
use unifi_6in.Config.Types.{Document}
use unifi_6in.Config.Defaults.{
  config_defaults, document_defaults, profile_config_defaults, tunnel_defaults, lan_defaults,
  health_defaults, server_defaults,
}
use unifi_6in.Config.Validation.{
  refresh_profile_validation, validate_profile_config, validate_server_config,
}
use unifi_6in.Config.Documents.{replace_active_config, settled, validate_document, profiles_reasons}
use unifi_6in.Config.Storage.{
  save_document, load_document, save_checked, save_profiles, write_profiles, write_data,
  should_save_legacy, parse_update_document, is_profiles_format, has_profiles_key,
}
use unifi_6in.Config.Storage.Roundtrip.{ReadsBack, load-save_document}
use unifi_6in.Config.Storage.Updating.{KeepsOthers, parse_update_document-KeepsOthers}
use unifi_6in.Config.Raw.{RawConfig}
use unifi_6in.Tests.Fixtures.{
  sample_net, sample_json, sample_config_file, sample_document, sample_config, empty_disk,
  sample_profile, legacy, raw_of,
}

-- the sample document passes its validation
pub sample_valid : (validate_document sample_net sample_document).0 ≡ none
unfolding validate_document refresh_profile_validation document_defaults trim_space has_colon itoa
    validate_profile_config profile_config_defaults tunnel_defaults lan_defaults health_defaults
    server_defaults validate_server_config profiles_reasons
sample_valid = refl

sample_saved :
    (save_document sample_net sample_json sample_config_file sample_document empty_disk).0 ≡ none
unfolding save_document save_checked save_profiles write_profiles write_data should_save_legacy
    validate_document refresh_profile_validation document_defaults trim_space has_colon itoa
    validate_profile_config profile_config_defaults tunnel_defaults lan_defaults health_defaults
    server_defaults validate_server_config profiles_reasons
sample_saved = refl

-- what a result holds, or a given value
abbrev held {ℓ} : {A : Type ℓ} → A → Result A → A
held a (ok b) = b
held a (err _) = a

pub sample_ReadsBack : ReadsBack sample_json
sample_ReadsBack = record {
  profiles = λ raw text e. ap sample_json.decode_profiles (sym (ap (held text) e));
  probe = λ raw text e. ap sample_json.decode_probe (sym (ap (held text) e));
}

load-save_document_example :
    load_document sample_net sample_json sample_config_file
      (save_document sample_net sample_json sample_config_file sample_document empty_disk).1
    ≡ ok (settled sample_net sample_document)
load-save_document_example =
    load-save_document sample_net sample_json sample_config_file sample_ReadsBack (λ text w e. refl)
      sample_document empty_disk refl (refl, tt) sample_saved

-- the sample document with a second profile, and a body in the legacy format
abbrev two_profiles : Document
two_profiles = record sample_document {
  profiles = sample_profile ∷ record sample_profile { id = "work"; name = "Work" } ∷ [];
}

abbrev document_of : Result Document → Document
document_of (ok d) = d
document_of (err _) = two_profiles

abbrev updated : Document
updated =
    document_of (parse_update_document sample_net sample_json (legacy sample_config) two_profiles)

updated-parsed :
    parse_update_document sample_net sample_json (legacy sample_config) two_profiles ≡ ok updated
unfolding parse_update_document is_profiles_format has_profiles_key trim_space replace_active_config
    validate_document refresh_profile_validation document_defaults validate_server_config
    server_defaults config_defaults validate_profile_config tunnel_defaults profile_config_defaults
    health_defaults has_colon lan_defaults
updated-parsed = refl

parse_update_document-KeepsOthers_example :
    KeepsOthers "home" two_profiles.profiles updated.profiles
    × (raw : RawConfig) × (ok (raw_of sample_config) ≡ ok raw)
    × (is_some raw.tunnel.enabled ≡ false → updated.tunnel_enabled ≡ true)
unfolding is_profiles_format has_profiles_key trim_space
parse_update_document-KeepsOthers_example =
    parse_update_document-KeepsOthers sample_net sample_json (legacy sample_config) two_profiles
      updated refl updated-parsed
