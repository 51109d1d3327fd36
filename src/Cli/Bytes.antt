-- ===== src/Cli/Bytes.antt =====
-- `formatBytes` of main.go: its loop and its table of units.
use dialtone_watcher.Prelude.{
  lt→ltb, ℕ, zero, suc, ◌+◌, ◌*◌, ◌/◌, ◌^◌, ◌≤◌, ◌<◌, some, ◌≡◌, refl, arith, ltb, Bool-cases, inl,
  inr, ltb→lt, false,
}
use dialtone_watcher.Words.{u64}
use dialtone_watcher.Cli.{unit, scale, Shown, plain, scaled, letter, format_bytes}

not_ltb : (a b : ℕ) → ltb a b ≡ false → b ≤ a
not_ltb a b h = ground arith

-- The loop ends within six rounds of any `uint64`, at the power of 1024 that is the greatest below the
-- value.
scale_lem :
    (value : ℕ)
    → value < u64
    → unit ≤ value
    → (divisor exp : ℕ) × (scale 6 (value / unit) unit 0 ≡ some (divisor, exp))
      × (exp < 6)
      × (divisor ≡ unit ^ (exp + 1))
      × (divisor ≤ value)
      × (value < divisor * unit)
unfolding scale
scale_lem v fits big =
    let n1 = v / unit in
    let n2 = n1 / unit in
    let n3 = n2 / unit in
    let n4 = n3 / unit in
    let n5 = n4 / unit in
    let n6 = n5 / unit in
    elim (Bool-cases (ltb n1 unit)) [
      | inl a ↦ (unit ^ 1, 0, rw a, omega arith, refl, omega arith, omega (arith, ltb→lt n1 unit a))
      | inr a ↦ elim (Bool-cases (ltb n2 unit)) [
        | inl b ↦ (
          unit ^ 2,
          1,
          rw (a, b),
          omega arith,
          refl,
          omega (arith, not_ltb n1 unit a),
          omega (arith, ltb→lt n2 unit b),
        )
        | inr b ↦ elim (Bool-cases (ltb n3 unit)) [
          | inl c ↦ (
            unit ^ 3,
            2,
            rw (a, b, c),
            omega arith,
            refl,
            omega (arith, not_ltb n2 unit b),
            omega (arith, ltb→lt n3 unit c),
          )
          | inr c ↦ elim (Bool-cases (ltb n4 unit)) [
            | inl d ↦ (
              unit ^ 4,
              3,
              rw (a, b, c, d),
              omega arith,
              refl,
              omega (arith, not_ltb n3 unit c),
              omega (arith, ltb→lt n4 unit d),
            )
            | inr d ↦ elim (Bool-cases (ltb n5 unit)) [
              | inl e ↦ (
                unit ^ 5,
                4,
                rw (a, b, c, d, e),
                omega arith,
                refl,
                omega (arith, not_ltb n4 unit d),
                omega (arith, ltb→lt n5 unit e),
              )
              | inr e ↦ (
                unit ^ 6,
                5,
                rw (a, b, c, d, e, (lt→ltb n6 unit (omega arith))),
                omega arith,
                refl,
                omega (arith, not_ltb n5 unit e),
                omega arith,
              )
            ]
          ]
        ]
      ]
    ]

-- Every letter of a unit that the loop can reach is in the table.
letter_lem : (exp : ℕ) → exp < 6 → (c : ℕ) × (letter exp ≡ some c)
letter_lem zero h = (b'K', refl)
letter_lem (suc zero) h = (b'M', refl)
letter_lem (suc (suc zero)) h = (b'G', refl)
letter_lem (suc (suc (suc zero))) h = (b'T', refl)
letter_lem (suc (suc (suc (suc zero)))) h = (b'P', refl)
letter_lem (suc (suc (suc (suc (suc zero))))) h = (b'E', refl)
letter_lem (suc (suc (suc (suc (suc (suc n)))))) h = absurd (omega arith)

-- A text that shows a number of bytes truly: below 1024 the number itself, and otherwise the quotient
-- by a power of 1024 whose letter stands beside it, at least 1 and below 1024.
abbrev pub Fits : ℕ → Shown → Type 0
Fits value (plain n) = (n ≡ value) × (value < unit)
Fits value (scaled n divisor c) =
    (n ≡ value)
    × ((exp : ℕ) × (divisor ≡ unit ^ (exp + 1)) × (letter exp ≡ some c))
    × (divisor ≤ value)
    × (value < divisor * unit)

-- For every `uint64` `formatBytes` returns, without an index out of range, and what it shows fits the
-- value: a number of bytes below 1024, or a quotient of at least 1 and below 1024 by the power of 1024
-- that the letter names.
pub format_bytes-Fits :
    (value : ℕ)
    → value < u64
    → (shown : Shown) × (format_bytes value ≡ some shown) × Fits value shown
unfolding format_bytes
format_bytes-Fits value fits = elim (Bool-cases (ltb value unit)) [
  | inl small ↦ (plain value, rw small, (refl, ltb→lt value unit small))
  | inr big ↦
      let (divisor, exp, found, few, power, low, high) =
        scale_lem value fits (not_ltb value unit big) in
      let (c, there) = letter_lem exp few in
      (scaled value divisor c, rw (big, found, there), (refl, (exp, power, there), low, high))
]
