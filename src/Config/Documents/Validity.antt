-- ===== src/Config/Documents/Validity.antt =====
-- What `Validate` of internal/config/config.go accepts: the validator of documents decides an
-- independent description.
use unifi_6in.Prelude.{
  ℕ, String, ◌≡◌, refl, ◌↔◌, ◌∙◌, ap, is_positive, true, false, Option, none, some, List, [], ◌∷◌,
  ◌++◌, map, All, append-eq_nil, arith, inl, inr, Option-cases,
}
use unifi_6in.Text.{is_blank}
use unifi_6in.Net.{NetIp}
use unifi_6in.Config.Types.{ServerConfig, Profile, Document}
use unifi_6in.Config.Validation.{validate_server_config, validation_error}
use unifi_6in.Config.Documents.{
  lookup, scan_profiles, active_reasons, config_errors, profiles_reasons, checked_reasons,
  first_with_id, settled, validate_document,
}
use unifi_6in.Config.Documents.Uniqueness.{
  HasDistinct, id_of, name_of, scan_sound, scan_complete, scan_keeps, scan_finds,
}

-- A document, its defaults and its profiles' validations in place, that the daemon may run.
pub record IsAcceptable (d : Document) : Type 0 where
  pub port : is_positive d.server.port ≡ true
  pub wan : is_blank d.server.wan_interface ≡ false
  pub ids : HasDistinct id_of d.profiles
  pub names : HasDistinct name_of d.profiles
  pub active_named : is_blank d.active_profile_id ≡ false
  pub active : Profile
  pub active_found : first_with_id d.active_profile_id d.profiles ≡ some active
  pub active_valid : active.validation_errors ≡ []

server_sound :
    (s : ServerConfig)
    → validate_server_config s ≡ []
    → (is_positive s.port ≡ true) × (is_blank s.wan_interface ≡ false)
unfolding validate_server_config
server_sound s h = ground arith

pub server_complete :
    (s : ServerConfig)
    → is_positive s.port ≡ true
    → is_blank s.wan_interface ≡ false
    → validate_server_config s ≡ []
unfolding validate_server_config
server_complete s p w = ground arith

nothing_seen : (f : Profile → String) (ps : List Profile) → All (λ q. lookup (f q) [] ≡ none) ps
unfolding lookup
nothing_seen f [] = tt
nothing_seen f (p ∷ ps) = (refl, nothing_seen f ps)

map-eq_nil : (f : String → String) (xs : List String) → map f xs ≡ [] → xs ≡ []
map-eq_nil f [] h = refl
map-eq_nil f (x ∷ xs) h = absurd (cc)

active_sound :
    (active : String) (found : Option (ℕ × Profile))
    → active_reasons active found ++ config_errors found ≡ []
    → (is_blank active ≡ false)
      × (k : ℕ) × (p : Profile) × (found ≡ some (k, p))
      × (p.validation_errors ≡ [])
unfolding active_reasons config_errors
active_sound active none h = absurd (ground arith)
active_sound active (some (k, p)) h =
    let (e1, e2) = append-eq_nil (active_reasons active (some (k, p))) _ h in
    (named active k p e1, k, p, refl, map-eq_nil _ p.validation_errors e2)
  where
    named :
        (active : String) (k : ℕ) (p : Profile)
        → active_reasons active (some (k, p)) ≡ []
        → is_blank active ≡ false
    named active k p h = ground arith

first_of_scan :
    (active : String) (ps : List Profile) (k : ℕ) (p : Profile)
    → HasDistinct id_of ps
    → (scan_profiles active 0 ps [] [] none).1 ≡ some (k, p)
    → first_with_id active ps ≡ some p
first_of_scan active ps k p d h = elim (Option-cases (first_with_id active ps)) [
  | inl absent ↦ absurd (cc (scan_keeps active 0 ps [] [] none absent))
  | inr (q, first) ↦ let (j, same) = scan_finds active 0 ps [] [] none q d first in first ∙ cc
]

profiles_sound :
    (s : ServerConfig) (active : String) (ps : List Profile)
    → profiles_reasons s active ps ≡ []
    → (validate_server_config s ≡ [])
      × HasDistinct id_of ps
      × HasDistinct name_of ps
      × (is_blank active ≡ false)
      × (p : Profile) × (first_with_id active ps ≡ some p)
      × (p.validation_errors ≡ [])
unfolding profiles_reasons
profiles_sound s active [] h = absurd (cc ((append-eq_nil (validate_server_config s) _ h).1))
profiles_sound s active (p ∷ ps) h =
    let (e1, e234) = append-eq_nil (validate_server_config s) _ h in
    let (e2, e34) = append-eq_nil _ _ e234 in
    let ((ids, _), (names, _)) = scan_sound active 0 (p ∷ ps) [] [] none e2 in
    let (named, k, q, found, valid) = active_sound active _ e34 in
    (e1, ids, names, named, q, first_of_scan active (p ∷ ps) k q ids found, valid)

profiles_complete :
    (s : ServerConfig) (active : String) (ps : List Profile) (p : Profile)
    → validate_server_config s ≡ []
    → HasDistinct id_of ps
    → HasDistinct name_of ps
    → is_blank active ≡ false
    → first_with_id active ps ≡ some p
    → p.validation_errors ≡ []
    → profiles_reasons s active ps ≡ []
unfolding profiles_reasons active_reasons config_errors first_with_id
profiles_complete s active [] p e ids names named first valid = absurd (cc)
profiles_complete s active (q ∷ ps) p e ids names named first valid =
    let (k, found) = scan_finds active 0 (q ∷ ps) [] [] none p ids first in
    rw
      (
        e,
        found,
        scan_complete active 0 (q ∷ ps) [] [] none (ids, nothing_seen id_of (q ∷ ps))
            (names, nothing_seen name_of (q ∷ ps)),
      )
      (rw (named, valid))

checked_sound : (d : Document) → checked_reasons d ≡ [] → IsAcceptable d
checked_sound d h =
    let (e, ids, names, named, p, first, valid) =
      profiles_sound d.server d.active_profile_id d.profiles h in
    let (port, wan) = server_sound d.server e in
    record {
      port = port;
      wan = wan;
      ids = ids;
      names = names;
      active_named = named;
      active = p;
      active_found = first;
      active_valid = valid;
    }

checked_complete : (d : Document) → IsAcceptable d → checked_reasons d ≡ []
checked_complete d a =
    profiles_complete d.server d.active_profile_id d.profiles a.active
      (server_complete d.server a.port a.wan) a.ids a.names a.active_named a.active_found
      a.active_valid

no_error : (reasons : List String) → validation_error reasons ≡ none → reasons ≡ []
no_error [] h = refl
no_error (r ∷ rs) h = absurd (cc)

module _ (net : NetIp) (d : Document) where
  pub validate_document_iff :
      ((validate_document net d).0 ≡ none) ↔ IsAcceptable (validate_document net d).1
  unfolding validate_document
  validate_document_iff = (
    λ h. checked_sound (settled net d) (no_error (checked_reasons (settled net d)) h),
    λ a. ap validation_error (checked_complete (settled net d) a),
  )
