-- ===== src/Words.antt =====
-- Go's `uint64` counters, which wrap around.
use dialtone_watcher.Prelude.{ℕ, ◌+◌, ◌%◌, ◌^◌, ◌<◌, ◌≡◌, arith}

abbrev pub u64 : ℕ
u64 = 2 ^ 64

-- `a + b`, and `a++` for `b` one
unfoldable pub add64 : ℕ → ℕ → ℕ
add64 a b = (a + b) % u64

-- Two sums are the same counter value.
pub add64-lt : (a b : ℕ) → add64 a b < u64
unfolding add64
add64-lt a b = omega arith

pub add64_exact : (a b : ℕ) → a + b < u64 → add64 a b ≡ a + b
unfolding add64
add64_exact a b h = omega arith

pub add64_comm : (a b : ℕ) → add64 a b ≡ add64 b a
unfolding add64
add64_comm a b = omega arith

pub add64_assoc : (a b c : ℕ) → add64 (add64 a b) c ≡ add64 a (add64 b c)
unfolding add64
add64_assoc a b c = omega arith

pub add64_swap : (a b c : ℕ) → add64 (add64 a b) c ≡ add64 (add64 a c) b
unfolding add64
add64_swap a b c = omega arith
