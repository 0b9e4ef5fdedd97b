-- ===== src/Control/Reasons.antt =====
-- The degraded reasons of internal/control/service.go: lists of texts to which the service appends
-- what is not there yet, and from which it takes a reason or a family of reasons out.
pub mod Laws
use unifi_6in.Prelude.{
  String, Bool, false, Option, none, some, List, [], ◌∷◌, ◌++◌, map, is_empty, not, if◌then◌else◌,
  ◌==◌, starts_with,
}
use unifi_6in.Text.{◌<>◌}
use unifi_6in.Errors.{Error, message, as_validation}
use unifi_6in.Config.Validation.{contains_string}

abbrev pub managed_prefix : String
managed_prefix = "managed IPv6 address missing: "

pub record Observation : Type 0 where
  pub tunnel_up : Bool
  pub wan_ipv4 : String
  pub missing_ipv6_addresses : List String

abbrev pub no_observation : Observation
no_observation = record { tunnel_up = false; wan_ipv4 = ""; missing_ipv6_addresses = [] }

-- `if !containsString(reasons, reason) { reasons = append(reasons, reason) }`
unfoldable pub append_new : List String → String → List String
append_new reasons reason =
    if contains_string reasons reason then reasons else reasons ++ reason ∷ []

unfoldable pub append_all_new : List String → List String → List String
append_all_new reasons [] = reasons
append_all_new reasons (r ∷ rs) = append_all_new (append_new reasons r) rs

-- func appendErrorReason
unfoldable pub append_error_reason : List String → Option Error → List String
append_error_reason reasons none = reasons
append_error_reason reasons (some e) = append_new reasons (message e)

-- func managedIPv6AddressReasons
unfoldable pub managed_reasons : Observation → List String
managed_reasons o = map (λ address. managed_prefix <> address) o.missing_ipv6_addresses

-- func appendManagedIPv6AddressReasons
unfoldable pub append_managed_reasons : List String → Observation → List String
append_managed_reasons reasons o = append_all_new reasons (managed_reasons o)

-- func hasMissingManagedIPv6Addresses
abbrev pub has_missing : Observation → Bool
has_missing o = not (is_empty o.missing_ipv6_addresses)

-- func removeDegradedReasonLocked, on the list
unfoldable pub remove_reason : String → List String → List String
remove_reason reason [] = []
remove_reason reason (r ∷ rs) =
    let rest = remove_reason reason rs in if r == reason then rest else r ∷ rest

-- the first loop of replaceManagedIPv6AddressReasonsLocked
unfoldable pub without_managed : List String → List String
without_managed [] = []
without_managed (r ∷ rs) =
    let rest = without_managed rs in if starts_with r managed_prefix then rest else r ∷ rest

-- func replaceManagedIPv6AddressReasonsLocked, on the list
unfoldable pub replace_managed : List String → List String → List String
unfolding append_all_new without_managed
replace_managed reasons old = append_all_new (without_managed old) reasons

-- func firstReason
unfoldable pub first_reason : List String → String
first_reason [] = ""
first_reason (r ∷ _) = r

-- func validationReasons
unfoldable pub validation_reasons : Option Error → List String
validation_reasons none = []
validation_reasons (some e) = elim (as_validation e) [
  | some reasons ↦ reasons
  | none ↦ message e ∷ []
]
