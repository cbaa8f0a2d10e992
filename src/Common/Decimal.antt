-- ===== src/Common/Decimal.antt =====
-- Decimal texts: `strconv.FormatInt` and `strconv.ParseInt` with base 10 and 64 bits.
use Prim.Native.Nat.{ℕ, zero, suc, ◌+◌, ◌-◌, ◌*◌, ◌/◌, ◌%◌, ◌^◌, ◌≤◌, ◌<◌}
use mathlib.Core.Path.{◌≡◌, refl}
use mathlib.Core.Logic.{inl, inr}
use mathlib.Core.Bool.{Bool, true, ◌&&◌}
use mathlib.Core.Option.{Option, none, some}
use mathlib.Core.List.{[], ◌∷◌}
use native.Mathlib.Omega.{arith}
use pod_backend.Common.Tests.{ltb, leb, ◌==◌, if◌then◌else◌, Bool-cases}
use pod_backend.Common.Int.{ℤ, pos, negsuc, leb_ℤ}
use pod_backend.Common.Lists.{All}
use pod_backend.Common.Strings.{Text}

-- The digits of a number in front of a text; so many rounds at most.
digits : ℕ → ℕ → Text → Text
digits zero n s = s
digits (suc rounds) n s =
    let rest = digits rounds (n / 10) ((48 + n % 10) ∷ s) in
    if n / 10 == 0 then (48 + n % 10) ∷ s else rest

-- `strconv.FormatInt(z, 10)`
unfoldable pub format_int : ℤ → Text
unfolding digits
format_int (pos n) = digits (suc n) n []
format_int (negsuc n) = b'-' ∷ digits (suc (suc n)) (suc n) []

is_digit : ℕ → Bool
is_digit c = leb b'0' c && leb c b'9'

-- The value of the digits behind those already read.
read_digits : ℕ → Text → Option ℕ
unfolding is_digit
read_digits acc [] = some acc
read_digits acc (c ∷ s) = if is_digit c then read_digits (acc * 10 + (c - 48)) s else none

-- `ParseUint`, which wants a digit at least.
read_unsigned : Text → Option ℕ
unfolding read_digits
read_unsigned [] = none
read_unsigned (c ∷ s) = read_digits 0 (c ∷ s)

positive : Option ℕ → Option ℤ
positive none = none
positive (some n) = if ltb n (2 ^ 63) then some (pos n) else none

negative : Option ℕ → Option ℤ
negative none = none
negative (some zero) = some (pos 0)
negative (some (suc n)) = if leb (suc n) (2 ^ 63) then some (negsuc n) else none

abbrev opposite : ℕ → ℤ
opposite zero = pos 0
opposite (suc n) = negsuc n

read_signed : ℕ → Text → Option ℤ
unfolding read_unsigned positive negative
read_signed c s =
    if c == b'-'
    then negative (read_unsigned s)
    else if c == b'+'
    then positive (read_unsigned s)
    else positive (read_unsigned (c ∷ s))

-- The number of a text with a sign or without, of any length, as `SetString` of a `big.Int` reads it
-- with base 10: none for a syntax error.
unfoldable pub parse_big : Text → Option ℤ
unfolding read_unsigned
parse_big [] = none
parse_big (c ∷ s) =
    if c == b'-'
    then elim (read_unsigned s) [ none ↦ none | some n ↦ some (opposite n) ]
    else elim (read_unsigned (if c == b'+' then s else c ∷ s)) [
      | none ↦ none
      | some n ↦ some (pos n)
    ]

pub parse_big-zero : parse_big (b'0' ∷ []) ≡ some (pos 0)
unfolding parse_big read_unsigned read_digits is_digit
parse_big-zero = refl

-- `strconv.ParseUint(s, 10, 64)`
unfoldable pub parse_uint : Text → Option ℕ
unfolding read_unsigned
parse_uint s = elim (read_unsigned s) [
  | none ↦ none
  | some n ↦ if ltb n (2 ^ 64) then some n else none
]

-- `strconv.ParseInt(s, 10, 64)`: none for a syntax error and for a number out of range.
unfoldable pub parse_int : Text → Option ℤ
unfolding read_signed
parse_int [] = none
parse_int (c ∷ s) = read_signed c s

read_digits-digits :
    (rounds n : ℕ) (s : Text) → n < rounds → read_digits 0 (digits rounds n s) ≡ read_digits n s
unfolding read_digits digits
read_digits-digits zero n s h = absurd (omega arith)
read_digits-digits (suc rounds) n s h =
    ground (arith, read_digits-digits rounds (n / 10) ((48 + n % 10) ∷ s))

-- The first rune is a digit.
digits_head :
    (rounds n : ℕ) (s : Text)
    → (c : ℕ) × (t : Text) × (digits (suc rounds) n s ≡ c ∷ t) × (48 ≤ c) × (c ≤ 57)
unfolding digits
digits_head zero n s = elim (Bool-cases (n / 10 == 0)) [
  | inl e ↦ (48 + n % 10, s, rw e, omega arith, omega arith)
  | inr e ↦ (48 + n % 10, s, rw e, omega arith, omega arith)
]
digits_head (suc rounds) n s = elim (Bool-cases (n / 10 == 0)) [
  | inl e ↦ (48 + n % 10, s, rw e, omega arith, omega arith)
  | inr e ↦
      let (c, t, f, lo, hi) = digits_head rounds (n / 10) ((48 + n % 10) ∷ s) in
      (c, t, rw e f, lo, hi)
]

read_unsigned-digits :
    (rounds n : ℕ) → n < suc rounds → read_unsigned (digits (suc rounds) n []) ≡ some n
unfolding read_unsigned read_digits
read_unsigned-digits rounds n h =
    let (c, t, e, _, _) = digits_head rounds n [] in
    ground (arith, e, read_digits-digits (suc rounds) n [])

read_signed-digits :
    (rounds n : ℕ)
    → n < suc rounds
    → n < 2 ^ 63
    → parse_int (digits (suc rounds) n []) ≡ some (pos n)
unfolding parse_int
read_signed-digits rounds n h k =
    let (c, t, e, lo, hi) = digits_head rounds n [] in
    ground (arith, e, read_unsigned-digits rounds n h)

-- A number of 64 bits is read back from its decimal text.
pub parse_int-format_int :
    (z : ℤ)
    → leb_ℤ (negsuc (2 ^ 63 - 1)) z ≡ true
    → leb_ℤ z (pos (2 ^ 63 - 1)) ≡ true
    → parse_int (format_int z) ≡ some z
unfolding format_int
parse_int-format_int (pos n) h k = read_signed-digits n n (omega arith) (ground arith)
parse_int-format_int (negsuc n) h k =
    unfold parse_int in ground (arith, read_unsigned-digits (suc n) (suc n) (omega arith))

-- What `ParseUint` reads, a `big.Int` reads too.
pub parse_uint-parse_big : (s : Text) (n : ℕ) → parse_uint s ≡ some n → parse_big s ≡ some (pos n)
unfolding parse_uint parse_big read_unsigned read_digits is_digit
parse_uint-parse_big [] n h = cc
parse_uint-parse_big (c ∷ s) n h = ground arith

digits-All :
    (p : ℕ → Bool) (rounds n : ℕ) (s : Text)
    → ((c : ℕ) → p (suc c) ≡ true)
    → All p s
    → All p (digits rounds n s)
unfolding digits
digits-All p zero n s h a = a
digits-All p (suc rounds) n s h a =
    let b : All p ((48 + n % 10) ∷ s) = (ground (arith, h (47 + n % 10)), a) in
    elim (Bool-cases (n / 10 == 0)) [
      | inl e ↦ rw e b
      | inr e ↦ rw e (digits-All p rounds (n / 10) ((48 + n % 10) ∷ s) h b)
    ]

-- A natural number is read back from its decimal text, of whatever length.
pub parse_big-format_int : (n : ℕ) → parse_big (format_int (pos n)) ≡ some (pos n)
unfolding format_int parse_big
parse_big-format_int n =
    let (c, t, e, lo, hi) = digits_head n n [] in
    ground (arith, e, read_unsigned-digits n n (omega arith))

-- It has no rune that a test on runes above 0 refuses.
pub format_int-All :
    (p : ℕ → Bool) (n : ℕ) → ((c : ℕ) → p (suc c) ≡ true) → All p (format_int (pos n))
unfolding format_int
format_int-All p n h = digits-All p (suc n) n [] h tt
