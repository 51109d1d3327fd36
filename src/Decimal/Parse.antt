-- ===== src/Decimal/Parse.antt =====
-- `strconv.ParseUint` and `strconv.ParseInt` of Go in base ten; an error is `none`.
use dialtone_watcher.Prelude.{
  is_empty, ◌%◌, ◌/◌, inr, ◌++◌, inl, lt→ltb, ◌≤◌, Bool-cases, ℕ, ◌+◌, ◌-◌, ◌*◌, ◌^◌, ◌<◌, ◌≡◌, ◌≢◌,
  refl, false, ◌&&◌, Option, none, some, [], ◌∷◌, Text, ltb, leb, ◌==◌, nat_eq, if◌then◌else◌, All,
  arith,
}
use dialtone_watcher.Prelude.Int.{ℤ, pos, sub_ℕ}
use dialtone_watcher.Decimal.{digits, format_uint}
use dialtone_watcher.Decimal.Injective.{value, IsDigit, format_uint-IsDigit, value-format_uint}

-- the number that digits spell behind `n`
unfoldable pub read_digits : ℕ → Text → Option ℕ
read_digits n [] = some n
read_digits n (c ∷ s) =
    let rest = read_digits (n * 10 + (c - b'0')) s in
    if leb b'0' c && leb c b'9' then rest else none

abbrev pub below : ℕ → Option ℕ → Option ℕ
below bound none = none
below bound (some n) = if ltb n bound then some n else none

-- a number of `bits` bits
unfoldable pub parse_uint : ℕ → Text → Option ℕ
unfolding read_digits
parse_uint bits [] = none
parse_uint bits (c ∷ s) = below (2 ^ bits) (read_digits 0 (c ∷ s))

abbrev pub negated : ℕ → Option ℕ → Option ℤ
negated bound none = none
negated bound (some n) = if leb n bound then some (sub_ℕ 0 n) else none

abbrev pub positive : ℕ → Option ℕ → Option ℤ
positive bound none = none
positive bound (some n) = if ltb n bound then some (pos n) else none

unfoldable pub parse_int : ℕ → Text → Option ℤ
unfolding parse_uint
parse_int bits [] = none
parse_int bits (c ∷ s) =
    if c == b'-'
    then negated (2 ^ (bits - 1)) (parse_uint bits s)
    else if c == b'+'
    then positive (2 ^ (bits - 1)) (parse_uint bits s)
    else positive (2 ^ (bits - 1)) (parse_uint bits (c ∷ s))

read_digits-value : (n : ℕ) (s : Text) → All IsDigit s → read_digits n s ≡ some (value n s)
unfolding read_digits
read_digits-value n [] h = refl
read_digits-value n (c ∷ s) (hc, h) = ground (arith, read_digits-value (n * 10 + (c - b'0')) s h)

append_some : (s : Text) (c : ℕ) → s ++ c ∷ [] ≢ []
append_some [] c = λ e. ground arith
append_some (d ∷ s) c = λ e. ground arith

pub format_uint_some : (n : ℕ) → format_uint n ≢ []
unfolding format_uint
format_uint_some n = elim (Bool-cases (ltb n 10)) [
  | inl small ↦ rw small (λ e. ground arith)
  | inr big ↦ rw big (append_some (digits n (n / 10)) (b'0' + n % 10))
]

not_empty : (s : Text) → s ≢ [] → is_empty s ≡ false
not_empty [] h = absurd (h refl)
not_empty (c ∷ s) h = refl

pub format_uint-is_empty : (n : ℕ) → is_empty (format_uint n) ≡ false
format_uint-is_empty n = not_empty (format_uint n) (format_uint_some n)

parse_uint_some :
    (bits : ℕ) (s : Text) → s ≢ [] → parse_uint bits s ≡ below (2 ^ bits) (read_digits 0 s)
unfolding parse_uint
parse_uint_some bits [] h = absurd (h refl)
parse_uint_some bits (c ∷ s) h = refl

pub parse_uint-format_uint : (bits n : ℕ) → n < 2 ^ bits → parse_uint bits (format_uint n) ≡ some n
parse_uint-format_uint bits n h =
    rw
      (
        parse_uint_some bits (format_uint n) (format_uint_some n),
        read_digits-value 0 (format_uint n) (format_uint-IsDigit n),
        value-format_uint n,
        lt→ltb n (2 ^ bits) h,
      )
      refl

below-lt : (bound n : ℕ) (o : Option ℕ) → below bound o ≡ some n → n < bound
below-lt bound n none h = absurd (ground arith)
below-lt bound n (some m) h = ground arith

pub parse_uint-lt : (bits n : ℕ) (s : Text) → parse_uint bits s ≡ some n → n < 2 ^ bits
unfolding parse_uint
parse_uint-lt bits n [] h = absurd (ground arith)
parse_uint-lt bits n (c ∷ s) h = below-lt (2 ^ bits) n (read_digits 0 (c ∷ s)) h

-- A print of digits starts with no sign.
parse_int_digits :
    (bits : ℕ) (s : Text)
    → s ≢ []
    → All IsDigit s
    → parse_int bits s ≡ positive (2 ^ (bits - 1)) (parse_uint bits s)
unfolding parse_int
parse_int_digits bits [] h d = absurd (h refl)
parse_int_digits bits (c ∷ s) h ((lo, hi), d) = ground arith

pub parse_int-format_uint :
    (bits n : ℕ)
    → n < 2 ^ (bits - 1)
    → 2 ^ (bits - 1) ≤ 2 ^ bits
    → parse_int bits (format_uint n) ≡ some (pos n)
parse_int-format_uint bits n h wider =
    rw
      (
        parse_int_digits bits (format_uint n) (format_uint_some n) (format_uint-IsDigit n),
        parse_uint-format_uint bits n (omega arith),
        lt→ltb n (2 ^ (bits - 1)) h,
      )
      refl
