-- ===== src/Logging/Lines.antt =====
-- The lines of internal/logging/logging.go: `countNewlines` and `splitLines`, on texts as lists of
-- bytes, and the last lines of a list.
use unifi_6in.Prelude.{
  ℕ, suc, ◌-◌, ◌&&◌, List, [], ◌∷◌, length, drop, is_empty, ltb, nat_eq, if◌then◌else◌,
}

abbrev pub Bytes : Type 0
Bytes = List ℕ

abbrev pub newline : ℕ
newline = 10

-- func countNewlines
unfoldable pub count_newlines : Bytes → ℕ
count_newlines [] = 0
count_newlines (b ∷ bs) =
    let rest = count_newlines bs in if nat_eq b newline then suc rest else rest

-- strings.TrimRight(s, "\n")
unfoldable pub trim_newlines : Bytes → Bytes
trim_newlines [] = []
trim_newlines (b ∷ bs) =
    let rest = trim_newlines bs in if is_empty rest && nat_eq b newline then [] else b ∷ rest

abbrev pub onto_first : ℕ → List Bytes → List Bytes
onto_first b [] = (b ∷ []) ∷ []
onto_first b (l ∷ ls) = (b ∷ l) ∷ ls

-- strings.Split(s, "\n")
unfoldable pub split_newlines : Bytes → List Bytes
split_newlines [] = [] ∷ []
split_newlines (b ∷ bs) =
    let rest = split_newlines bs in if nat_eq b newline then [] ∷ rest else onto_first b rest

-- func splitLines
unfoldable pub split_lines : Bytes → List Bytes
unfolding trim_newlines split_newlines
split_lines text =
    let trimmed = trim_newlines text in if is_empty trimmed then [] else split_newlines trimmed

-- `if len(lines) > n { lines = lines[len(lines)-n:] }`
unfoldable pub last_lines : ℕ → List Bytes → List Bytes
last_lines n ls = if ltb n (length ls) then drop (length ls - n) ls else ls
