-- ===== src/Logging/Suffix.antt =====
-- The last lines of a text are those of a suffix of it that has enough newlines: what lets
-- `tailFile` of internal/logging/logging.go stop before it has read the whole file.
use unifi_6in.Prelude.{
  ℕ, ◌+◌, ◌-◌, ◌≤◌, ◌<◌, ◌≡◌, refl, sym, ap, ◌∙◌, Bool, true, false, List, [], ◌∷◌, ◌++◌, length,
  drop, is_empty, ltb, nat_eq, if◌then◌else◌, arith, length-append, drop-append, Bool-cases, inl,
  inr,
}
use unifi_6in.Logging.Lines.{
  Bytes, newline, count_newlines, trim_newlines, onto_first, split_newlines, split_lines,
  last_lines,
}

-- the lines after the first newline
others : Bytes → List Bytes
others [] = []
others (b ∷ bs) = let rest = others bs in if nat_eq b newline then split_newlines bs else rest

first_line : Bytes → Bytes
first_line [] = []
first_line (b ∷ bs) = let rest = first_line bs in if nat_eq b newline then [] else b ∷ rest

split-others : (bs : Bytes) → split_newlines bs ≡ first_line bs ∷ others bs
unfolding split_newlines others first_line
split-others [] = refl
split-others (b ∷ bs) = ground (arith, split-others bs)

length-others : (bs : Bytes) → length (others bs) ≡ count_newlines bs
unfolding others count_newlines
length-others [] = refl
length-others (b ∷ bs) = ground (arith, length-others bs, split-others bs)

-- The lines of a concatenation end with those after the first newline of its second part.
split-append :
    (p s : Bytes)
    → (l : Bytes) × (ls : List Bytes) × (split_newlines (p ++ s) ≡ (l ∷ ls) ++ others s)
unfolding split_newlines
split-append [] s = (first_line s, [], split-others s)
split-append (b ∷ p) s = let (l, ls, e) = split-append p s in joined (nat_eq b newline) l ls e
  where
    joined :
        (at_end : Bool) (l : Bytes) (ls : List Bytes)
        → split_newlines (p ++ s) ≡ (l ∷ ls) ++ others s
        → (l' : Bytes) × (ls' : List Bytes) × ((if at_end
              then [] ∷ split_newlines (p ++ s)
              else onto_first b (split_newlines (p ++ s)))
            ≡ (l' ∷ ls') ++ others s)
    joined true l ls e = ([], l ∷ ls, ap (λ r. [] ∷ r) e)
    joined false l ls e = (b ∷ l, ls, ap (onto_first b) e)

is_empty-append : (p s : Bytes) → is_empty s ≡ false → is_empty (p ++ s) ≡ false
is_empty-append [] s h = h
is_empty-append (b ∷ p) s h = refl

trim-append :
    (p s : Bytes)
    → is_empty (trim_newlines s) ≡ false
    → trim_newlines (p ++ s) ≡ p ++ trim_newlines s
unfolding trim_newlines
trim-append [] s h = refl
trim-append (b ∷ p) s h = ground (arith, trim-append p s h, is_empty-append p (trim_newlines s) h)

length-trim-append :
    (p s : Bytes) → is_empty (trim_newlines s) ≡ true → length (trim_newlines (p ++ s)) ≤ length p
unfolding trim_newlines
length-trim-append [] s h = ground arith
length-trim-append (b ∷ p) s h = ground (arith, length-trim-append p s h)

count-trim :
    (s : Bytes)
    → count_newlines s + length (trim_newlines s) ≡ count_newlines (trim_newlines s) + length s
unfolding trim_newlines count_newlines
count-trim [] = refl
count-trim (b ∷ s) = ground (arith, count-trim s)

count-le-length : (s : Bytes) → count_newlines s ≤ length s
unfolding count_newlines
count-le-length [] = omega arith
count-le-length (b ∷ s) = ground (arith, count-le-length s)

length-ne_zero : (s : Bytes) → is_empty s ≡ true → length s ≡ 0
length-ne_zero [] h = refl
length-ne_zero (b ∷ s) h = cc

-- The text does not end with an empty line: it has one newline at its end at most.
abbrev pub EndsInLine : Bytes → Type 0
EndsInLine text = length text ≤ length (trim_newlines text) + 1

last_lines-drop : (n : ℕ) (xs : List Bytes) → last_lines n xs ≡ drop (length xs - n) xs
unfolding last_lines
last_lines-drop n xs = elim (Bool-cases (ltb n (length xs))) [
  | inl more ↦ rw more refl
  | inr few ↦ let e : length xs - n ≡ 0 = ground arith in rw few (sym (ap (λ k. drop k xs) e))
]

last_lines-append :
    (n : ℕ) (xs ys : List Bytes) → n ≤ length ys → last_lines n (xs ++ ys) ≡ last_lines n ys
last_lines-append n xs ys h =
    last_lines-drop n (xs ++ ys)
    ∙ drop-append xs ys (length ys - n) (length (xs ++ ys) - n) (omega (arith, length-append xs ys))
    ∙ sym (last_lines-drop n ys)

module _ (n : ℕ) (p s : Bytes) (n_pos : 0 < n) (enough : n < count_newlines s)
    (h : EndsInLine (p ++ s)) where
  trim-ne_nil : is_empty (trim_newlines s) ≡ false
  trim-ne_nil = elim (Bool-cases (is_empty (trim_newlines s))) [
    | inr full ↦ full
    | inl all_newlines ↦
        absurd
          (omega (arith, length-trim-append p s all_newlines, length-append p s, count-le-length s))
  ]

  count-trim-ge : n ≤ count_newlines (trim_newlines s)
  count-trim-ge =
      let same = ap length (trim-append p s trim-ne_nil) in
      omega (arith, count-trim s, length-append p s, length-append p (trim_newlines s), same)

  split_lines-trim :
      (q : Bytes)
      → is_empty (trim_newlines q) ≡ false
      → split_lines q ≡ split_newlines (trim_newlines q)
  unfolding split_lines
  split_lines-trim q full = rw full refl

  -- With more than `n` newlines in a suffix, the last `n` lines are those of the suffix.
  pub last_lines-suffix : last_lines n (split_lines (p ++ s)) ≡ last_lines n (split_lines s)
  last_lines-suffix =
      let t = trim_newlines s in
      let whole = trim-append p s trim-ne_nil in
      let (l, ls, e) = split-append p t in
      let few : n ≤ length (others t) = omega (arith, length-others t, count-trim-ge) in
      ap (last_lines n) (
        split_lines-trim (p ++ s) (rw whole (is_empty-append p t trim-ne_nil))
        ∙ ap split_newlines whole
        ∙ e)
      ∙ last_lines-append n (l ∷ ls) (others t) few
      ∙ sym (last_lines-append n (first_line t ∷ []) (others t) few)
      ∙ sym (ap (last_lines n) (split_lines-trim s trim-ne_nil ∙ split-others t))
