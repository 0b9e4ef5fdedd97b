-- ===== src/Control/Backend/States.antt =====
-- What `findIPv6PrefixState` of internal/control/backend.go reads from the output of
-- `ip -6 addr show`.
use unifi_6in.Prelude.{
  ℕ, String, ◌≡◌, refl, ap, ◌∙◌, Bool, true, false, ◌||◌, Option, none, some, List, [], ◌∷◌, ◌++◌,
  All, arith, if◌then◌else◌, inl, inr, Bool-cases, ◌==◌, eq_iff, eq_refl,
}
use unifi_6in.Text.{lines, fields}
use unifi_6in.Errors.{Result-cases, ok}
use unifi_6in.Net.{Family, invalid, v4, v6, Prefix}
use unifi_6in.Config.Validation.{contains_string}
use unifi_6in.Control.Backend.Exec.{System}
use unifi_6in.Control.Backend.Addresses.{
  address_missing, address_healthy, address_unhealthy, same_family, same_prefix, is_unusable,
  address_line, read_line, find_state, find_ipv6_prefix_state,
}

same_family-eq : (f g : Family) → same_family f g ≡ true → f ≡ g
same_family-eq invalid invalid h = refl
same_family-eq invalid v4 h = absurd (cc)
same_family-eq invalid v6 h = absurd (cc)
same_family-eq v4 v4 h = refl
same_family-eq v4 invalid h = absurd (cc)
same_family-eq v4 v6 h = absurd (cc)
same_family-eq v6 v6 h = refl
same_family-eq v6 invalid h = absurd (cc)
same_family-eq v6 v4 h = absurd (cc)

same_family_refl : (f : Family) → same_family f f ≡ true
same_family_refl invalid = refl
same_family_refl v4 = refl
same_family_refl v6 = refl

Prefix-eq :
    (f g : Family) (m n : ℕ) (y z : String) (a b : ℕ)
    → f ≡ g
    → m ≡ n
    → y ≡ z
    → a ≡ b
    → ◌≡◌ {A = Prefix}
        (record { addr = record { family = f; number = m; zone = y }; bits = a })
        (record { addr = record { family = g; number = n; zone = z }; bits = b })
Prefix-eq f g m n y z a b e1 e2 e3 e4 = rw (e1, e2, e3, e4) refl

-- Two prefixes are the same by `==` only if they are equal.
same_prefix-eq : (p q : Prefix) → same_prefix p q ≡ true → p ≡ q
unfolding same_prefix
same_prefix-eq p q h =
    Prefix-eq _ _ _ _ _ _ _ _ (same_family-eq p.addr.family q.addr.family (ground arith))
      (ground arith) ((eq_iff p.addr.zone q.addr.zone).0 (ground arith)) (ground arith)

same_prefix_refl : (p : Prefix) → same_prefix p p ≡ true
unfolding same_prefix
same_prefix_refl p = rw (same_family_refl p.addr.family, eq_refl p.addr.zone) (ground arith)

module _ {W : Type 0} (system : System W) (desired : Prefix) where
  -- The line is one of the address, with these flags: its fields are `inet6`, a text that netip
  -- reads as the address with its length, and the flags.
  abbrev pub IsAddress : String → List String → Type 0
  IsAddress line flags =
      (text : String) × (fields line ≡ "inet6" ∷ text ∷ flags)
      × (system.net.parse_prefix text ≡ ok desired)

  -- The line is not one of the address.
  abbrev pub IsOther : String → Type 0
  IsOther line = (flags : List String) → ¬ IsAddress line flags

  -- whether what was read from a line is the address
  abbrev is_same : Option (Prefix × List String) → Bool
  is_same none = false
  is_same (some (p, _)) = same_prefix p desired

  read_line-here :
      (line : String) (flags : List String)
      → IsAddress line flags
      → read_line system line ≡ some (desired, flags)
  unfolding read_line address_line
  read_line-here line flags (text, e, parsed) = rw (read_line, e, address_line, parsed) refl

  read_line-other : (line : String) → IsOther line → is_same (read_line system line) ≡ false
  unfolding read_line address_line
  read_line-other line other = go (fields line) refl
    where
      go : (fs : List String) → fields line ≡ fs → is_same (read_line system line) ≡ false
      go [] e = rw (is_same, read_line, e, address_line) refl
      go (_ ∷ []) e = rw (is_same, read_line, e, address_line) refl
      go (kind ∷ text ∷ flags) e = elim (Bool-cases (kind == "inet6")) [
        | inr elsewise ↦ rw (is_same, read_line, e, address_line, elsewise) refl
        | inl inet6 ↦ elim (Result-cases (system.net.parse_prefix text)) [
          | inr (x, unread) ↦ rw (is_same, read_line, e, address_line, inet6, unread) refl
          | inl (p, reads) ↦ elim (Bool-cases (same_prefix p desired)) [
            | inr differs ↦ rw (is_same, read_line, e, address_line, inet6, reads) differs
            | inl same ↦ absurd (
                other flags (
                  text,
                  e ∙ ap (λ k. k ∷ text ∷ flags) ((eq_iff kind "inet6").0 inet6),
                  reads ∙ ap ok (same_prefix-eq p desired same),
                ))
          ]
        ]
      ]

  find_state-others :
      (ls rest : List String)
      → All IsOther ls
      → find_state system (ls ++ rest) desired ≡ find_state system rest desired
  unfolding find_state
  find_state-others [] rest h = refl
  find_state-others (l ∷ ls) rest (h, hs) =
      ground (arith, read_line-other l h, find_state-others ls rest hs)

  find_state-none :
      (ls : List String) → All IsOther ls → find_state system ls desired ≡ address_missing
  unfolding find_state
  find_state-none [] h = refl
  find_state-none (l ∷ ls) (h, hs) = ground (arith, read_line-other l h, find_state-none ls hs)

  -- The first line with the fields `inet6` and a text that netip reads as the address decides on
  -- its state: it is unhealthy if one of the fields after them is `dadfailed` or `tentative`, and
  -- healthy if not. Without such a line it is missing.
  pub find_ipv6_prefix_state-first :
      (output : String)
      → (All IsOther (lines output)
          → find_ipv6_prefix_state system output desired ≡ address_missing)
        × ((before : List String) (line : String) (after flags : List String)
            → lines output ≡ before ++ line ∷ after
            → All IsOther before
            → IsAddress line flags
            → find_ipv6_prefix_state system output desired ≡ (
                if contains_string flags "dadfailed" || contains_string flags "tentative"
                then address_unhealthy
                else address_healthy))
  unfolding find_ipv6_prefix_state find_state is_unusable
  find_ipv6_prefix_state-first output = (
    λ h. find_state-none (lines output) h,
    λ before line after flags e h here.
        ap (λ ls. find_state system ls desired) e
        ∙ find_state-others before (line ∷ after) h
        ∙ rw (find_state, read_line-here line flags here, same_prefix_refl desired) refl,
  )
