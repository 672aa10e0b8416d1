-- ===== src/Prelude/Decimal.antt =====
-- Go's `strconv.FormatInt` and `strconv.ParseInt` in base 10, and the cut of a text at a byte.
use Prim.Native.Nat.{ℕ, zero, suc, ◌+◌, ◌-◌, ◌*◌, ◌/◌, ◌%◌, ◌≤◌, ◌<◌}
use mathlib.Core.Path.{◌≡◌, refl, sym, ap, ◌∙◌, subst}
use mathlib.Core.Logic.{inl, inr}
use mathlib.Core.Bool.{◌&&◌}
use mathlib.Core.Option.{Option, none, some}
use mathlib.Core.List.{List, [], ◌∷◌, ◌++◌}
use native.Mathlib.Omega.{arith}
use realtime_chat_platform.Prelude.Int.{ℤ, pos, negsuc}
use realtime_chat_platform.Prelude.Lists.{All}
use realtime_chat_platform.Prelude.Tests.{ltb, leb, ◌==◌, if◌then◌else◌, Bool-cases}
use realtime_chat_platform.Prelude.Text.{decimal, decimal_from}

abbrev pub int64_limit : ℕ
int64_limit = 0x8000000000000000

-- What an int64 can hold.
abbrev pub InInt64 : ℤ → Type 0
InInt64 (pos n) = n < int64_limit
InInt64 (negsuc n) = n < int64_limit

unfoldable pub format_int : ℤ → List ℕ
format_int (pos n) = decimal n
format_int (negsuc n) = b'-' ∷ decimal (suc n)

unfoldable pub parse_digits : List ℕ → ℕ → Option ℕ
parse_digits [] acc = some acc
parse_digits (c ∷ cs) acc =
    let rest = parse_digits cs (acc * 10 + (c - b'0')) in
    if leb b'0' c && leb c b'9' then rest else none

-- The number after its sign; a text without digits is an error.
unfoldable pub parse_uint : List ℕ → Option ℕ
unfolding parse_digits
parse_uint [] = none
parse_uint (c ∷ cs) = parse_digits (c ∷ cs) 0

-- `-n`, if it is in range.
unfoldable pub negated : ℕ → Option ℤ
negated zero = some (pos 0)
negated (suc n) = if ltb n int64_limit then some (negsuc n) else none

unfoldable pub to_negative : Option ℕ → Option ℤ
unfolding negated
to_negative none = none
to_negative (some n) = negated n

unfoldable pub to_positive : Option ℕ → Option ℤ
to_positive none = none
to_positive (some n) = if ltb n int64_limit then some (pos n) else none

-- `none` is an error of syntax or of range.
unfoldable pub parse_int : List ℕ → Option ℤ
unfolding parse_uint to_negative to_positive
parse_int [] = none
parse_int (c ∷ cs) =
    if c == b'-'
    then to_negative (parse_uint cs)
    else if c == b'+'
    then to_positive (parse_uint cs)
    else to_positive (parse_uint (c ∷ cs))

-- `before` of `strings.Cut(s, sep)`, for a separator of one byte.
unfoldable pub cut_before : ℕ → List ℕ → List ℕ
cut_before sep [] = []
cut_before sep (c ∷ cs) = let rest = cut_before sep cs in if c == sep then [] else c ∷ rest

abbrev IsDigit : ℕ → Type 0
IsDigit c = (b'0' ≤ c) × (c ≤ b'9')

decimal_from-IsDigit :
    (fuel n : ℕ) (rest : List ℕ) → All IsDigit rest → All IsDigit (decimal_from fuel n rest)
unfolding decimal_from
decimal_from-IsDigit zero n rest h = h
decimal_from-IsDigit (suc fuel) n rest h =
    let one : All IsDigit ((b'0' + n % 10) ∷ rest) = ((omega arith, omega arith), h) in
    elim (Bool-cases (ltb n 10)) [
      | inl low ↦ rw low one
      | inr high ↦ rw high (decimal_from-IsDigit fuel (n / 10) ((b'0' + n % 10) ∷ rest) one)
    ]

digit_step :
    (c : ℕ) (cs : List ℕ) (acc : ℕ)
    → IsDigit c
    → parse_digits (c ∷ cs) acc ≡ parse_digits cs (acc * 10 + (c - b'0'))
unfolding parse_digits
digit_step c cs acc h = ground arith

parse_digits-decimal_from :
    (fuel n : ℕ) (rest : List ℕ)
    → n < fuel
    → parse_digits (decimal_from fuel n rest) 0 ≡ parse_digits rest n
unfolding decimal_from
parse_digits-decimal_from zero n rest h = absurd (omega arith)
parse_digits-decimal_from (suc fuel) n rest h = elim (Bool-cases (ltb n 10)) [
  | inl low ↦ rw low (
      digit_step (b'0' + n % 10) rest 0 (omega arith, omega arith)
      ∙ ap (parse_digits rest) (ground arith))
  | inr high ↦ rw high (
      parse_digits-decimal_from fuel (n / 10) ((b'0' + n % 10) ∷ rest) (ground arith)
      ∙ digit_step (b'0' + n % 10) rest (n / 10) (omega arith, omega arith)
      ∙ ap (parse_digits rest) (omega arith))
]

-- A digit comes first.
decimal_from-cons :
    (fuel n d : ℕ) (rest : List ℕ)
    → (c : ℕ) × (cs : List ℕ) × (decimal_from fuel n (d ∷ rest) ≡ c ∷ cs)
unfolding decimal_from
decimal_from-cons zero n d rest = (d, rest, refl)
decimal_from-cons (suc fuel) n d rest = elim (Bool-cases (ltb n 10)) [
  | inl low ↦ (b'0' + n % 10, d ∷ rest, rw low)
  | inr high ↦ rw high (decimal_from-cons fuel (n / 10) (b'0' + n % 10) (d ∷ rest))
]

decimal-cons : (n : ℕ) → (c : ℕ) × (cs : List ℕ) × (decimal n ≡ c ∷ cs)
unfolding decimal decimal_from
decimal-cons n = elim (Bool-cases (ltb n 10)) [
  | inl low ↦ (b'0' + n % 10, [], rw low)
  | inr high ↦ rw high (decimal_from-cons n (n / 10) (b'0' + n % 10) [])
]

pub decimal-IsDigit : (n : ℕ) → All IsDigit (decimal n)
unfolding decimal
decimal-IsDigit n = decimal_from-IsDigit (suc n) n [] tt

parse_digits-decimal : (n : ℕ) → parse_digits (decimal n) 0 ≡ some n
unfolding decimal parse_digits
parse_digits-decimal n = parse_digits-decimal_from (suc n) n [] (omega arith)

parse_uint-decimal : (n : ℕ) → parse_uint (decimal n) ≡ some n
unfolding parse_uint
parse_uint-decimal n =
    let (c, cs, e) = decimal-cons n in
    rw e (ap (λ l. parse_digits l 0) (sym e) ∙ parse_digits-decimal n)

parse_int_of_decimal : (n : ℕ) → parse_int (decimal n) ≡ to_positive (some n)
unfolding parse_int
parse_int_of_decimal n =
    let (c, cs, e) = decimal-cons n in
    let digit : All IsDigit (c ∷ cs) = subst (All IsDigit) e (decimal-IsDigit n) in
    let number : parse_uint (c ∷ cs) ≡ some n = ap parse_uint (sym e) ∙ parse_uint-decimal n in
    rw e (ground (arith, number, digit.0))

parse_int_of_negative : (n : ℕ) → parse_int (b'-' ∷ decimal (suc n)) ≡ negated (suc n)
unfolding parse_int to_negative
parse_int_of_negative n = rw (parse_uint-decimal (suc n))

-- What is formatted is read back.
pub parse_int-format_int : (z : ℤ) → InInt64 z → parse_int (format_int z) ≡ some z
unfolding format_int to_positive negated
parse_int-format_int (pos n) h = parse_int_of_decimal n ∙ ground arith
parse_int-format_int (negsuc n) h = parse_int_of_negative n ∙ ground arith

cut_before_of_digits : (l rest : List ℕ) → All IsDigit l → cut_before b':' (l ++ b':' ∷ rest) ≡ l
unfolding cut_before
cut_before_of_digits [] rest h = refl
cut_before_of_digits (c ∷ l) rest h = ground (arith, cut_before_of_digits l rest h.1)

-- A formatted number has no colon, so that the cut finds it.
pub cut_before-format_int :
    (z : ℤ) (rest : List ℕ) → cut_before b':' (format_int z ++ b':' ∷ rest) ≡ format_int z
unfolding format_int cut_before
cut_before-format_int (pos n) rest = cut_before_of_digits (decimal n) rest (decimal-IsDigit n)
cut_before-format_int (negsuc n) rest =
    ap (λ l. b'-' ∷ l) (cut_before_of_digits (decimal (suc n)) rest (decimal-IsDigit (suc n)))
