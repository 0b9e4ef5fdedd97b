-- ===== src/Control/Reasons/Laws.antt =====
-- The degraded reasons of internal/control/service.go as sets: what each list operation leaves in.
use unifi_6in.Prelude.{
  String, ◌≡◌, refl, Bool, false, not, ◌&&◌, ◌||◌, Option, none, some, List, [], ◌∷◌, ◌++◌, arith,
  eq_iff, starts_with, ◌==◌, Bool-cases, inl, inr,
}
use unifi_6in.Errors.{Error, message}
use unifi_6in.Config.Validation.{contains_string}
use unifi_6in.Control.Reasons.{
  managed_prefix, append_new, append_all_new, append_error_reason, remove_reason, without_managed,
  replace_managed,
}

pub contains-append :
    (xs ys : List String) (t : String)
    → contains_string (xs ++ ys) t ≡ contains_string xs t || contains_string ys t
unfolding contains_string
contains-append [] ys t = refl
contains-append (x ∷ xs) ys t = ground (arith, contains-append xs ys t)

-- Appending a reason that may be there already adds it to the set.
pub contains-append_new :
    (xs : List String) (r t : String)
    → contains_string (append_new xs r) t ≡ contains_string xs t || r == t
unfolding append_new contains_string
contains-append_new xs r t = elim (Bool-cases (contains_string xs r)) [
  | inl old ↦ elim (Bool-cases (r == t)) [
    | inl same ↦ ground (arith, eq_iff r t)
    | inr other ↦ ground (arith, eq_iff r t)
  ]
  | inr new ↦ ground (arith, contains-append xs (r ∷ []) t)
]

pub contains-append_all_new :
    (xs rs : List String) (t : String)
    → contains_string (append_all_new xs rs) t ≡ contains_string xs t || contains_string rs t
unfolding append_all_new contains_string
contains-append_all_new xs [] t = ground arith
contains-append_all_new xs (r ∷ rs) t =
    ground (arith, contains-append_all_new (append_new xs r) rs t, contains-append_new xs r t)

-- Taking a reason out leaves every other reason, and not that one.
pub contains-remove_reason :
    (r : String) (xs : List String) (t : String)
    → contains_string (remove_reason r xs) t ≡ contains_string xs t && not (r == t)
unfolding remove_reason contains_string
contains-remove_reason r [] t = refl
contains-remove_reason r (x ∷ xs) t =
    ground (arith, contains-remove_reason r xs t, eq_iff x r, eq_iff x t, eq_iff r t)

pub contains-without_managed :
    (xs : List String) (t : String)
    → contains_string (without_managed xs) t
      ≡ contains_string xs t && not (starts_with t managed_prefix)
unfolding without_managed contains_string
contains-without_managed [] t = refl
contains-without_managed (x ∷ xs) t = ground (arith, contains-without_managed xs t, eq_iff x t)

-- After the address reasons are replaced, a reason is there exactly if it is one of the new ones,
-- or was there and is no address reason.
pub contains-replace_managed :
    (reasons old : List String) (t : String)
    → contains_string (replace_managed reasons old) t
      ≡ contains_string old t && not (starts_with t managed_prefix) || contains_string reasons t
unfolding replace_managed
contains-replace_managed reasons old t =
    ground (
      arith,
      contains-append_all_new (without_managed old) reasons t,
      contains-without_managed old t,
    )

abbrev pub has_error : Option Error → String → Bool
has_error none t = false
has_error (some e) t = message e == t

pub contains-append_error :
    (xs : List String) (e : Option Error) (t : String)
    → contains_string (append_error_reason xs e) t ≡ contains_string xs t || has_error e t
unfolding append_error_reason
contains-append_error xs none t = ground arith
contains-append_error xs (some e) t = contains-append_new xs (message e) t
