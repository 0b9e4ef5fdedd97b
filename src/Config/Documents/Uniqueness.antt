-- ===== src/Config/Documents/Uniqueness.antt =====
-- The loop of ValidationReasons in internal/config/config.go decides that identifiers and names
-- are present and distinct, and finds the active profile.
use mathlib.Core.Path.{subst}
use unifi_6in.Prelude.{
  Bool-cases, inl, inr, refl, ◌∙◌, ℕ, ◌+◌, String, ◌≡◌, ◌≢◌, false, Option, none, some, List, [],
  ◌∷◌, All, append-eq_nil, arith, eq_iff, if◌then◌else◌, ◌==◌,
}
use unifi_6in.Text.{is_blank}
use unifi_6in.Config.Types.{Profile}
use unifi_6in.Config.Documents.{Seen, lookup, check_unique, scan_profiles, first_with_id}

-- The texts `f p` of the profiles are present and distinct.
abbrev pub HasDistinct : (Profile → String) → List Profile → Type 0
HasDistinct f [] = Unit
HasDistinct f (p ∷ ps) = (is_blank (f p) ≡ false) × All (λ q. f q ≢ f p) ps × HasDistinct f ps

abbrev pub Unseen : (Profile → String) → Seen → List Profile → Type 0
Unseen f seen ps = All (λ q. lookup (f q) seen ≡ none) ps

module _ (field : String) (index : ℕ) (value : String) (seen : Seen) where
  check_unique-nil :
      (check_unique field index value seen).0 ≡ []
      → (is_blank value ≡ false)
        × (lookup value seen ≡ none)
        × ((check_unique field index value seen).1 ≡ (value, index) ∷ seen)
  unfolding check_unique
  check_unique-nil h = ground arith

  check_unique_fresh :
      is_blank value ≡ false
      → lookup value seen ≡ none
      → check_unique field index value seen ≡ ([], (value, index) ∷ seen)
  unfolding check_unique
  check_unique_fresh b h = ground arith

module _ (f : Profile → String) (p : Profile) (index : ℕ) (seen : Seen) where
  Unseen-split :
      (ps : List Profile)
      → Unseen f ((f p, index) ∷ seen) ps
      → All (λ q. f q ≢ f p) ps × Unseen f seen ps
  unfolding lookup
  Unseen-split [] h = (tt, tt)
  Unseen-split (q ∷ qs) (h, hs) =
      let (apart, unseen) = Unseen-split qs hs in
      ((ground (arith, eq_iff (f p) (f q)), apart), (ground (arith, eq_iff (f p) (f q)), unseen))

  Unseen-join :
      (ps : List Profile)
      → All (λ q. f q ≢ f p) ps
      → Unseen f seen ps
      → Unseen f ((f p, index) ∷ seen) ps
  unfolding lookup
  Unseen-join [] a h = tt
  Unseen-join (q ∷ qs) (a, as') (h, hs) =
      (ground (arith, eq_iff (f p) (f q)), Unseen-join qs as' hs)

abbrev pub id_of : Profile → String
id_of p = p.id

abbrev pub name_of : Profile → String
name_of p = p.name

module _ (active : String) where
  -- A scan without reasons has seen only new and distinct texts.
  pub scan_sound :
      (index : ℕ) (ps : List Profile) (ids names : Seen) (found : Option (ℕ × Profile))
      → (scan_profiles active index ps ids names found).0 ≡ []
      → (HasDistinct id_of ps × Unseen id_of ids ps)
        × (HasDistinct name_of ps × Unseen name_of names ps)
  unfolding scan_profiles
  scan_sound index [] ids names found h = ((tt, tt), (tt, tt))
  scan_sound index (p ∷ ps) ids names found h =
      let (e1, e23) = append-eq_nil _ _ h in
      let (e2, e3) = append-eq_nil _ _ e23 in
      let (b1, l1, s1) = check_unique-nil "id" index p.id ids e1 in
      let (b2, l2, s2) = check_unique-nil "name" index p.name names e2 in
      let ((d1, u1), (d2, u2)) =
        scan_sound (index + 1) ps ((p.id, index) ∷ ids) ((p.name, index) ∷ names)
          (if p.id == active then some (index, p) else found) (rw (s1, s2) at e3) in
      let (a1, v1) = Unseen-split id_of p index ids ps u1 in
      let (a2, v2) = Unseen-split name_of p index names ps u2 in
      (((b1, a1, d1), (l1, v1)), ((b2, a2, d2), (l2, v2)))

  -- Where the texts are new and distinct, the scan has no reasons.
  pub scan_complete :
      (index : ℕ) (ps : List Profile) (ids names : Seen) (found : Option (ℕ × Profile))
      → HasDistinct id_of ps × Unseen id_of ids ps
      → HasDistinct name_of ps × Unseen name_of names ps
      → (scan_profiles active index ps ids names found).0 ≡ []
  unfolding scan_profiles
  scan_complete index [] ids names found d e = refl
  scan_complete index (p ∷ ps) ids names found ((b1, a1, d1), (l1, u1)) ((b2, a2, d2), (l2, u2)) =
      rw
        (
          check_unique_fresh "id" index p.id ids b1 l1,
          check_unique_fresh "name" index p.name names b2 l2,
        )
        (scan_complete (index + 1) ps ((p.id, index) ∷ ids) ((p.name, index) ∷ names)
          (if p.id == active then some (index, p) else found)
          (d1, Unseen-join id_of p index ids ps a1 u1)
          (d2, Unseen-join name_of p index names ps a2 u2))

  first_absent : (ps : List Profile) → All (λ q. q.id ≢ active) ps → first_with_id active ps ≡ none
  unfolding first_with_id
  first_absent [] h = refl
  first_absent (q ∷ qs) (h, hs) = ground (arith, eq_iff q.id active, first_absent qs hs)

  -- Without a profile of that identifier the scan keeps what it had found.
  pub scan_keeps :
      (index : ℕ) (ps : List Profile) (ids names : Seen) (found : Option (ℕ × Profile))
      → first_with_id active ps ≡ none
      → (scan_profiles active index ps ids names found).1 ≡ found
  unfolding scan_profiles first_with_id
  scan_keeps index [] ids names found h = refl
  scan_keeps index (p ∷ ps) ids names found h = elim (Bool-cases (p.id == active)) [
    | inl same ↦ ground arith
    | inr other ↦ rw other (scan_keeps (index + 1) ps _ _ found (ground arith))
  ]

  -- Among distinct identifiers the scan, which keeps the last match, finds the first one.
  pub scan_finds :
      (index : ℕ) (ps : List Profile) (ids names : Seen) (found : Option (ℕ × Profile))
      (p : Profile)
      → HasDistinct id_of ps
      → first_with_id active ps ≡ some p
      → (k : ℕ) × ((scan_profiles active index ps ids names found).1 ≡ some (k, p))
  unfolding scan_profiles first_with_id
  scan_finds index [] ids names found p d h = absurd (cc)
  scan_finds index (q ∷ qs) ids names found p (b, apart, d) h = elim (Bool-cases (q.id == active)) [
    | inl same ↦
        let e : q.id ≡ active = (eq_iff q.id active).0 same in
        let none_left = first_absent qs (subst (λ a. All (λ r. r.id ≢ a) qs) e apart) in
        (index, rw same (scan_keeps (index + 1) qs _ _ (some (index, q)) none_left ∙ ground arith))
    | inr other ↦ rw other (scan_finds (index + 1) qs _ _ found p d (ground arith))
  ]
