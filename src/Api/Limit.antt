-- ===== src/Api/Limit.antt =====
-- The query parameter `tail` of `HandleGetLogs` in internal/api/handler.go, read by strconv.Atoi.
use Prim.Native.Char.{code}
use unifi_6in.Prelude.{
  ℕ, zero, suc, ◌+◌, ◌-◌, ◌*◌, ◌^◌, ◌≤◌, String, ◌≡◌, refl, ℤ, pos, negsuc, ◌&&◌, Option, none,
  some, ltb, leb, nat_eq, if◌then◌else◌, ◌==◌, arith, Bool-cases, inl, inr,
}

abbrev pub default_log_tail_lines : ℕ
default_log_tail_lines = 200

abbrev pub max_log_tail_lines : ℕ
max_log_tail_lines = 2000

-- the number that a text of digits continues, `n` being what the digits before it say
digits_value : ℕ → String → Option ℕ
digits_value n String.[] = some n
digits_value n (String.◌∷◌ c s) =
    let rest = digits_value (n * 10 + (code c - 48)) s in
    if leb 48 (code c) && leb (code c) 57 then rest else none

unsigned : String → Option ℕ
unfolding digits_value
unsigned String.[] = none
unsigned (String.◌∷◌ c s) = digits_value 0 (String.◌∷◌ c s)

negative : ℕ → ℤ
negative zero = pos 0
negative (suc n) = negsuc n

-- strconv.Atoi, of 64 bits; none is its error
unfoldable pub atoi : String → Option ℤ
unfolding unsigned negative
atoi String.[] = none
atoi (String.◌∷◌ c s) =
    let minus = unsigned s in
    let whole = unsigned (String.◌∷◌ c s) in
    if nat_eq (code c) 45
    then elim minus [ none ↦ none | some n ↦ if leb n (2 ^ 63) then some (negative n) else none ]
    else elim (if nat_eq (code c) 43 then minus else whole) [
      | none ↦ none
      | some n ↦ if ltb n (2 ^ 63) then some (pos n) else none
    ]

-- HandleGetLogs after strconv.Atoi; none is the answer 400
unfoldable pub limit_of : Option ℤ → Option ℕ
limit_of none = none
limit_of (some (negsuc _)) = none
limit_of (some (pos n)) =
    if nat_eq n 0 then none else some (if ltb max_log_tail_lines n then max_log_tail_lines else n)

-- the `limit` of HandleGetLogs
unfoldable pub tail_limit : String → Option ℕ
unfolding limit_of
tail_limit raw = if raw == "" then some default_log_tail_lines else limit_of (atoi raw)

-- the limits that HandleGetLogs lets through
abbrev pub InRange : Option ℕ → Type 0
InRange none = Unit
InRange (some n) = (1 ≤ n) × (n ≤ max_log_tail_lines)

limit_of-InRange : (parsed : Option ℤ) → InRange (limit_of parsed)
unfolding limit_of
limit_of-InRange none = tt
limit_of-InRange (some (negsuc n)) = tt
limit_of-InRange (some (pos n)) = elim (Bool-cases (nat_eq n 0)) [
  | inl none_asked ↦ rw none_asked tt
  | inr asked ↦ elim (Bool-cases (ltb max_log_tail_lines n)) [
    | inl many ↦ rw (asked, many) (omega arith, omega arith)
    | inr few ↦ rw (asked, few) (ground arith, ground arith)
  ]
]

pub tail_limit-InRange : (raw : String) → InRange (tail_limit raw)
unfolding tail_limit
tail_limit-InRange raw = elim (Bool-cases (raw == "")) [
  | inl missing ↦ rw missing (omega arith, omega arith)
  | inr given ↦ rw given (limit_of-InRange (atoi raw))
]

atoi_runs : atoi "250" ≡ some (pos 250)
unfolding atoi
atoi_runs = refl

atoi_signs : atoi "-12" ≡ some (negsuc 11)
unfolding atoi
atoi_signs = refl

atoi_refuses : atoi "12a" ≡ none
unfolding atoi
atoi_refuses = refl
