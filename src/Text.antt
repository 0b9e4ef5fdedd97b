-- ===== src/Text.antt =====
-- What the program uses of the packages strings, strconv and fmt on texts: `strings.TrimSpace`,
-- `strings.HasPrefix`, `strings.Join`, `strconv.Itoa` and the verb `%d` of an index. A text is its
-- sequence of code points.
use Prim.Native.Char.{Char, code}
use Prim.Native.String
use unifi_6in.Prelude.{
  ℕ, zero, suc, ◌+◌, ◌/◌, ◌%◌, String, ◌≡◌, refl, Bool, false, ◌&&◌, ◌||◌, List, [], ◌∷◌, ltb, leb,
  nat_eq, if◌then◌else◌, ◌==◌,
}

infixr 66 ◌<>◌
-- s + t
abbrev pub ◌<>◌ : String → String → String
s <> t = String.◌++◌ s t

-- unicode.IsSpace
is_space : ℕ → Bool
is_space c =
    (leb 9 c && leb c 13)
    || nat_eq c 32
    || nat_eq c 0x85
    || nat_eq c 0xa0
    || nat_eq c 0x1680
    || (leb 0x2000 c && leb c 0x200a)
    || nat_eq c 0x2028
    || nat_eq c 0x2029
    || nat_eq c 0x202f
    || nat_eq c 0x205f
    || nat_eq c 0x3000

trim_left : String → String
trim_left String.[] = ""
trim_left (String.◌∷◌ c s) = if is_space (code c) then trim_left s else String.◌∷◌ c s

trim_right : String → String
trim_right String.[] = ""
trim_right (String.◌∷◌ c s) =
    let rest = trim_right s in if is_space (code c) && rest == "" then "" else String.◌∷◌ c rest

-- strings.TrimSpace
unfoldable pub trim_space : String → String
unfolding trim_left trim_right is_space
trim_space s = trim_right (trim_left s)

-- strings.TrimSpace(s) == ""
abbrev pub is_blank : String → Bool
is_blank s = trim_space s == ""

-- strings.Join
unfoldable pub join : String → List String → String
join sep [] = ""
join sep (x ∷ []) = x
join sep (x ∷ y ∷ xs) = x <> sep <> join sep (y ∷ xs)

-- strings.Contains(s, ":")
unfoldable pub has_colon : String → Bool
has_colon String.[] = false
has_colon (String.◌∷◌ c s) = nat_eq (code c) b':' || has_colon s

digit : ℕ → String
digit n =
    if nat_eq n 0
    then "0"
    else if nat_eq n 1
    then "1"
    else if nat_eq n 2
    then "2"
    else if nat_eq n 3
    then "3"
    else if nat_eq n 4
    then "4"
    else if nat_eq n 5
    then "5"
    else if nat_eq n 6
    then "6"
    else if nat_eq n 7
    then "7"
    else if nat_eq n 8
    then "8"
    else "9"

-- the digits of a number below 10 ^ fuel
digits_of : ℕ → ℕ → String
digits_of zero n = ""
digits_of (suc fuel) n =
    let more = digits_of fuel (n / 10) <> digit (n % 10) in if ltb n 10 then digit n else more

-- strconv.Itoa of a number that is not negative
unfoldable pub itoa : ℕ → String
unfolding digits_of digit
itoa n = digits_of (n + 1) n

trim_space_runs : trim_space "  a b\t\n" ≡ "a b"
unfolding trim_space
trim_space_runs = refl

itoa_runs : itoa 1280 ≡ "1280"
unfolding itoa
itoa_runs = refl

join_runs : join ", " ("a" ∷ "b" ∷ "c" ∷ []) ≡ "a, b, c"
unfolding join
join_runs = refl

push : Char → List String → List String
push c [] = String.◌∷◌ c "" ∷ []
push c (l ∷ ls) = String.◌∷◌ c l ∷ ls

-- the parts of a text between the code points of which `splits` holds
split_at : (ℕ → Bool) → String → List String
split_at splits String.[] = "" ∷ []
split_at splits (String.◌∷◌ c s) =
    let rest = split_at splits s in if splits (code c) then "" ∷ rest else push c rest

without_empty : List String → List String
without_empty [] = []
without_empty (x ∷ xs) = let rest = without_empty xs in if x == "" then rest else x ∷ rest

-- strings.Split(s, "\n")
unfoldable pub lines : String → List String
unfolding split_at push
lines s = split_at (nat_eq 10) s

-- strings.Fields
unfoldable pub fields : String → List String
unfolding split_at push without_empty is_space
fields s = without_empty (split_at is_space s)

fields_runs : fields "  inet6 fe80::1/64  scope\n" ≡ "inet6" ∷ "fe80::1/64" ∷ "scope" ∷ []
unfolding fields
fields_runs = refl

lines_runs : lines "a\n\nb" ≡ "a" ∷ "" ∷ "b" ∷ []
unfolding lines
lines_runs = refl
