-- ===== src/Prelude/Lists.antt =====
-- Lists measured by native numbers, and list predicates by recursion.
use Prim.Native.Nat.{ℕ, zero, suc, ◌+◌, ◌-◌}
use mathlib.Core.Path.{◌≡◌, refl, ap}
use mathlib.Core.Bool.{Bool, true, false}
use mathlib.Core.List.{List, [], ◌∷◌, ◌++◌}
use native.Mathlib.Omega.{arith}

module _ {ℓ} {A : Type ℓ} where
  abbrev pub length : List A → ℕ
  length [] = 0
  length (x ∷ xs) = suc (length xs)

  abbrev pub is_empty : List A → Bool
  is_empty [] = true
  is_empty (_ ∷ _) = false

  abbrev pub take : ℕ → List A → List A
  take zero xs = []
  take (suc n) [] = []
  take (suc n) (x ∷ xs) = x ∷ take n xs

  abbrev pub drop : ℕ → List A → List A
  drop zero xs = xs
  drop (suc n) [] = []
  drop (suc n) (x ∷ xs) = drop n xs

  -- Two neighbouring slices are one.
  pub take-drop :
      (k j m : ℕ) (xs : List A) → m ≡ k + j → take k (drop j xs) ++ drop m xs ≡ drop j xs
  take-drop zero j m xs e = let same : m ≡ j = omega arith in ap (λ n. drop n xs) same
  take-drop (suc k) j zero xs e = absurd (omega arith)
  take-drop (suc k) zero (suc m) [] e = refl
  take-drop (suc k) zero (suc m) (x ∷ xs) e =
      ap (λ ys. x ∷ ys) (take-drop k zero m xs (omega arith))
  take-drop (suc k) (suc j) (suc m) [] e = refl
  take-drop (suc k) (suc j) (suc m) (x ∷ xs) e = take-drop (suc k) j m xs (omega arith)

  pub drop-append : (xs ys : List A) (k m : ℕ) → m ≡ length xs + k → drop m (xs ++ ys) ≡ drop k ys
  drop-append [] ys k m e = let same : m ≡ k = omega arith in ap (λ n. drop n ys) same
  drop-append (x ∷ xs) ys k zero e = absurd (omega arith)
  drop-append (x ∷ xs) ys k (suc m) e = drop-append xs ys k m (omega arith)

  pub length-drop : (n : ℕ) (xs : List A) → length (drop n xs) ≡ length xs - n
  length-drop zero xs = omega arith
  length-drop (suc n) [] = omega arith
  length-drop (suc n) (x ∷ xs) = omega (arith, length-drop n xs)

  pub drop-length : (xs : List A) → drop (length xs) xs ≡ []
  drop-length [] = refl
  drop-length (x ∷ xs) = drop-length xs

  pub length-append : (xs ys : List A) → length (xs ++ ys) ≡ length xs + length ys
  length-append [] ys = omega arith
  length-append (x ∷ xs) ys = omega (arith, length-append xs ys)

  pub append-nil : (xs : List A) → xs ++ [] ≡ xs
  append-nil [] = refl
  append-nil (x ∷ xs) = ap (λ ys. x ∷ ys) (append-nil xs)

  -- A concatenation is empty only if both of its parts are.
  pub append-eq_nil : (xs ys : List A) → xs ++ ys ≡ [] → (xs ≡ []) × (ys ≡ [])
  append-eq_nil [] ys h = (refl, h)
  append-eq_nil (x ∷ xs) ys h = ground arith

module _ {ℓ κ} {A : Type ℓ} (P : A → Type κ) where
  abbrev pub All : List A → Type κ
  All [] = Unit
  All (x ∷ xs) = P x × All xs
