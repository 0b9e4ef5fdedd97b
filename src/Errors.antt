-- ===== src/Errors.antt =====
-- Go's error values as far as the program looks into them: their text, and whether
-- `errors.As(err, *config.ValidationError)` or `errors.Is(err, os.ErrNotExist)` finds something in
-- the chain that `%w` builds.
use unifi_6in.Prelude.{
  ◌⊎◌, inl, inr, String, ◌≡◌, refl, Bool, true, false, Option, none, some, List,
}
use unifi_6in.Text.{◌<>◌, join}

pub data Error : Type 0 where
  -- an error with a text and nothing to unwrap
  plain : String → Error
  -- an error of package os for which errors.Is(err, os.ErrNotExist) holds
  not_exist : String → Error
  -- *config.ValidationError
  validation : List String → Error
  -- fmt.Errorf("<before>%w<after>", err)
  wrapped : String → Error → String → Error

-- err.Error()
unfoldable pub message : Error → String
message (plain text) = text
message (not_exist text) = text
message (validation reasons) = join "; " reasons
message (wrapped before e after) = before <> message e <> after

-- errors.As(err, &validationErr)
unfoldable pub as_validation : Error → Option (List String)
as_validation (plain _) = none
as_validation (not_exist _) = none
as_validation (validation reasons) = some reasons
as_validation (wrapped _ e _) = as_validation e

-- errors.Is(err, os.ErrNotExist)
unfoldable pub is_not_exist : Error → Bool
is_not_exist (plain _) = false
is_not_exist (not_exist _) = true
is_not_exist (validation _) = false
is_not_exist (wrapped _ e _) = is_not_exist e

-- The result of a call that returns (value, error).
pub data Result {ℓ} (A : Type ℓ) : Type ℓ where
  ok : A → Result A
  err : Error → Result A

pub Result-cases {ℓ} :
    {A : Type ℓ} (r : Result A) → ((a : A) × (r ≡ ok a)) ⊎ ((e : Error) × (r ≡ err e))
Result-cases (ok a) = inl (a, refl)
Result-cases (err e) = inr (e, refl)

-- `value, err := …; if err != nil { return err }`, and then the rest
infixl 5 ◌>>=◌
abbrev pub ◌>>=◌ {ℓ κ} :
    {Value : Type ℓ} {Next : Type κ} → Result Value → (Value → Result Next) → Result Next
err failure >>= rest = err failure
ok value >>= rest = rest value

-- `return fmt.Errorf("<before>%w<after>", err)` on the error path.
abbrev pub wrap {ℓ} : {A : Type ℓ} → String → String → Result A → Result A
wrap before after (ok a) = ok a
wrap before after (err e) = err (wrapped before e after)

message_runs : message (wrapped "a: " (plain "b") "") ≡ "a: b"
unfolding message
message_runs = refl
