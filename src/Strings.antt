-- ===== src/Strings.antt =====
-- The functions of Go's package `strings` that the program calls, on ASCII text.
pub mod Order
pub mod Parts
pub mod Trim
use dialtone_watcher.Prelude.{
  nat_beq, ltb, ℕ, ◌+◌, Bool, true, false, ◌&&◌, ◌||◌, [], ◌∷◌, map, ◌≡◌, refl, Text, codes,
  is_empty, ◌==◌, leb, if◌then◌else◌, Option, none, some, nat_eq, list_eq,
}

-- The ASCII white space of `unicode.IsSpace`.
abbrev pub is_space : ℕ → Bool
is_space c = leb 9 c && leb c 13 || c == 32

module _ (p : ℕ → Bool) where
  unfoldable pub trim_left : Text → Text
  trim_left [] = []
  trim_left (c ∷ s) = let rest = trim_left s in if p c then rest else c ∷ s

  unfoldable pub trim_right : Text → Text
  trim_right [] = []
  trim_right (c ∷ s) = let rest = trim_right s in if is_empty rest && p c then [] else c ∷ rest

unfoldable pub trim_space : Text → Text
unfolding trim_left trim_right
trim_space s = trim_right is_space (trim_left is_space s)

abbrev pub contains_byte : Text → ℕ → Bool
contains_byte [] c = false
contains_byte (b ∷ s) c = b == c || contains_byte s c

-- `strings.Trim(s, cutset)`
unfoldable pub trim : Text → Text → Text
unfolding trim_left trim_right
trim s cutset = trim_right (contains_byte cutset) (trim_left (contains_byte cutset) s)

abbrev pub lower_byte : ℕ → ℕ
lower_byte c = if leb b'A' c && leb c b'Z' then c + 32 else c

unfoldable pub to_lower : Text → Text
to_lower s = map lower_byte s

-- What is left behind a prefix.
unfoldable pub cut_prefix : Text → Text → Option Text
cut_prefix s [] = some s
cut_prefix [] (p ∷ ps) = none
cut_prefix (c ∷ s) (p ∷ ps) = let rest = cut_prefix s ps in if c == p then rest else none

unfoldable pub has_prefix : Text → Text → Bool
unfolding cut_prefix
has_prefix s p = elim (cut_prefix s p) [ none ↦ false | some _ ↦ true ]

unfoldable pub trim_prefix : Text → Text → Text
unfolding cut_prefix
trim_prefix s p = elim (cut_prefix s p) [ none ↦ s | some rest ↦ rest ]

unfoldable pub trim_suffix : Text → Text → Text
trim_suffix [] suffix = []
trim_suffix (c ∷ s) suffix =
    let rest = trim_suffix s suffix in if (c ∷ s) == suffix then [] else c ∷ rest

-- `a < b` on strings
abbrev pub text_ltb : Text → Text → Bool
text_ltb [] [] = false
text_ltb [] (d ∷ t) = true
text_ltb (c ∷ s) [] = false
text_ltb (c ∷ s) (d ∷ t) = ltb c d || nat_beq c d && text_ltb s t

trim_space_test : trim_space (codes " \ta b\n") ≡ codes "a b"
unfolding trim_space
trim_space_test = refl

trim_test : trim (codes "[::1]") (codes "[]") ≡ codes "::1"
unfolding trim
trim_test = refl

trim_suffix_test : trim_suffix (codes "ripe.net.") (codes ".") ≡ codes "ripe.net"
unfolding trim_suffix
trim_suffix_test = refl
