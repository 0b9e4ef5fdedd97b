-- ===== src/Logging/Reading.antt =====
-- What `tailFile` of internal/logging/logging.go returns of a file.
use mathlib.Core.Logic.{dif_pos, dif_neg}
use mathlib.Core.WellFounded.{Acc}
use native.Mathlib.Decide.{dec_lt}
use native.Mathlib.Bridge.{le_prop}
use mathlib.Core.Path.{subst}
use unifi_6in.Prelude.{
  ℕ, ◌+◌, ◌-◌, ◌≤◌, ◌<◌, ◌≡◌, refl, sym, ap, ◌∙◌, Bool, true, false, List, [], ◌∷◌, ◌++◌, length,
  take, drop, take-drop, drop-length, ltb, nat_eq, if◌then◌else◌, arith, Bool-cases, inl, inr,
}
use unifi_6in.Prelude.Order.{lt_wf}
use unifi_6in.Errors.{Result, ok}
use unifi_6in.Logging.Lines.{Bytes, count_newlines, split_lines, last_lines}
use unifi_6in.Logging.Suffix.{EndsInLine, last_lines-suffix}
use unifi_6in.Logging.Tail.{offset_falls, read_size, after_read, read_back, tail_bytes}

-- ReadAt gives the bytes of the file.
abbrev pub Reads : (ℕ → ℕ → Result Bytes) → Bytes → Type 0
Reads read text =
    (size offset : ℕ)
    → size + offset ≤ length text
    → read size offset ≡ ok (take size (drop offset text))

no_lines : (n : ℕ) (t : Bytes) → nat_eq (length t) 0 ≡ true → [] ≡ last_lines n (split_lines t)
unfolding split_lines last_lines
no_lines n [] e = ground arith
no_lines n (b ∷ t) e = absurd (ground arith)

module _ (read : ℕ → ℕ → Result Bytes) (text : Bytes) (reads : Reads read text) (n : ℕ) where
  -- what the loop may end with: a suffix of the text with more than `n` newlines, or all of it
  abbrev IsEnough : Bytes → Type 0
  IsEnough buffer =
      (p : Bytes) × (text ≡ p ++ buffer)
      × (if ltb n (count_newlines buffer) then Unit {0} else (p ≡ []))

  read_back-IsEnough :
      (offset : ℕ) (w : Acc ◌<◌ offset) (buffer : Bytes)
      → offset ≤ length text
      → buffer ≡ drop offset text
      → (result : Bytes) × (read_back read n offset w buffer ≡ ok result) × IsEnough result
  unfolding read_back
  read_back-IsEnough offset (Acc.intro _ smaller) buffer h e = elim (dec_lt 0 offset) [
    | no done ↦
        let zero_offset : offset ≡ 0 = omega arith in
        (
          buffer,
          dif_neg (dec_lt 0 offset) done _ _,
          ([], sym (e ∙ ap (λ k. drop k text) zero_offset), kept (ltb n (count_newlines buffer))),
        )
    | yes more ↦
        let size = read_size offset in
        let left = offset - size in
        let chunk = take size (drop left text) in
        let fits : size ≤ offset = ground arith in
        let e' : chunk ++ buffer ≡ drop left text =
          ap (λ b. chunk ++ b) e ∙ take-drop size left offset text (omega arith) in
        let w = smaller left (offset_falls offset more) in
        let step : read_back read n offset (Acc.intro offset smaller) buffer
            ≡ after_read n buffer (λ b. read_back read n left w b) (ok chunk) =
          dif_pos (dec_lt 0 offset) le_prop more _ _
          ∙ ap (after_read n buffer (λ b. read_back read n left w b))
              (reads size left (omega arith)) in
        elim (Bool-cases (ltb n (count_newlines (chunk ++ buffer)))) [
          | inl enough ↦ (
            chunk ++ buffer,
            step ∙ rw enough refl,
            (
              take left text,
              sym (take-drop left 0 left text (omega arith))
                  ∙ ap (λ b. take left text ++ b) (sym e'),
              rw enough tt,
            ),
          )
          | inr few ↦
              let (result, same, rest) =
                read_back-IsEnough left (smaller left (offset_falls offset more)) (chunk ++ buffer)
                  (omega arith) e' in
              (result, step ∙ rw few same, rest)
        ]
  ]
    where
      kept : (b : Bool) → (if b then Unit {0} else ◌≡◌ {A = Bytes} [] [])
      kept true = tt
      kept false = refl

  IsEnough-last_lines :
      0 < n
      → EndsInLine text
      → (buffer : Bytes) → IsEnough buffer
      → last_lines n (split_lines buffer) ≡ last_lines n (split_lines text)
  IsEnough-last_lines pos_n h buffer (p, whole, enough) =
      by_test (ltb n (count_newlines buffer)) refl enough
    where
      by_test :
          (b : Bool)
          → ltb n (count_newlines buffer) ≡ b
          → (if b then Unit {0} else (p ≡ []))
          → last_lines n (split_lines buffer) ≡ last_lines n (split_lines text)
      by_test true more _ =
          let ends : EndsInLine (p ++ buffer) = subst EndsInLine whole h in
          sym (last_lines-suffix n p buffer pos_n (ground arith) ends)
          ∙ sym (ap (λ t. last_lines n (split_lines t)) whole)
      by_test false few all =
          ap (λ t. last_lines n (split_lines t)) (sym (whole ∙ ap (λ q. q ++ buffer) all))

  tail_bytes-full :
      0 < n
      → EndsInLine text
      → nat_eq (length text) 0 ≡ false
      → tail_bytes read n (length text) ≡ ok (last_lines n (split_lines text))
  unfolding tail_bytes
  tail_bytes-full pos_n h full =
      let (buffer, e, enough) =
        read_back-IsEnough (length text) (lt_wf.apply (length text)) [] (omega arith)
          (sym (drop-length text)) in
      rw full (rw e (ap (λ (ls : List Bytes). ok ls) (IsEnough-last_lines pos_n h buffer enough)))

  -- Where ReadAt gives the bytes of the file, and the file does not end with an empty line:
  -- tailFile returns the last `n` of the lines of the whole file, though it stops after as many
  -- chunks from the end as have more than `n` newlines.
  pub tail_bytes-last_lines :
      0 < n
      → EndsInLine text
      → tail_bytes read n (length text) ≡ ok (last_lines n (split_lines text))
  unfolding tail_bytes
  tail_bytes-last_lines pos_n h = elim (Bool-cases (nat_eq (length text) 0)) [
    | inr full ↦ tail_bytes-full pos_n h full
    | inl none_left ↦ rw none_left (ap (λ (ls : List Bytes). ok ls) (no_lines n text none_left))
  ]
