-- ===== src/Strings/Parts.antt =====
-- The functions of Go's package `strings` that cut a text into parts, on ASCII text. A search that
-- the program makes by `Index` and slices is `cut` here: what stands before the first separator, and
-- what stands behind it.
pub mod Laws
use dialtone_watcher.Prelude.{
  ℕ, zero, suc, ◌-◌, Bool, true, false, Option, none, some, List, [], ◌∷◌, ◌++◌, ◌≡◌, refl, Text,
  codes, ◌==◌, nat_eq, if◌then◌else◌, length,
}
use dialtone_watcher.Strings.{is_space, cut_prefix, contains_byte}

abbrev pub add_front : ℕ → List Text → List Text
add_front c [] = (c ∷ []) ∷ []
add_front c (w ∷ ws) = (c ∷ w) ∷ ws

-- `strings.Split` at a byte
unfoldable pub split : ℕ → Text → List Text
split d [] = [] ∷ []
split d (c ∷ s) = let rest = split d s in if c == d then [] ∷ rest else add_front c rest

-- `strings.Join` with a byte
unfoldable pub join : ℕ → List Text → Text
join d [] = []
join d (w ∷ []) = w
join d (w ∷ v ∷ ws) = w ++ d ∷ join d (v ∷ ws)

-- `strings.Split` at a text that is not empty; `skipped` bytes of a separator are still to pass over.
unfoldable pub split_behind : Text → ℕ → Text → List Text
unfolding cut_prefix
split_behind sep skipped [] = [] ∷ []
split_behind sep (suc skipped) (c ∷ s) = split_behind sep skipped s
split_behind sep zero (c ∷ s) = elim (cut_prefix (c ∷ s) sep) [
  | some _ ↦ [] ∷ split_behind sep (length sep - 1) s
  | none ↦ add_front c (split_behind sep zero s)
]

unfoldable pub split_text : Text → Text → List Text
unfolding split_behind
split_text sep s = split_behind sep zero s

abbrev pub before_too : ℕ → Option (Text × Text) → Option (Text × Text)
before_too c none = none
before_too c (some (before, behind)) = some (c ∷ before, behind)

-- the first byte that passes a test: `strings.IndexByte`, `strings.IndexAny`
unfoldable pub cut_at : (ℕ → Bool) → Text → Option (Text × Text)
cut_at p [] = none
cut_at p (c ∷ s) = let rest = before_too c (cut_at p s) in if p c then some ([], s) else rest

-- the last one: `strings.LastIndex` of a byte
unfoldable pub cut_last : ℕ → Text → Option (Text × Text)
cut_last d [] = none
cut_last d (c ∷ s) = elim (cut_last d s) [
  | some (before, behind) ↦ some (c ∷ before, behind)
  | none ↦ if c == d then some ([], s) else none
]

-- the first occurrence of a text: `strings.Index`, `strings.Cut`
unfoldable pub cut : Text → Text → Option (Text × Text)
unfolding cut_prefix
cut sep [] = elim (cut_prefix [] sep) [ none ↦ none | some behind ↦ some ([], behind) ]
cut sep (c ∷ s) =
    let rest = before_too c (cut sep s) in
    elim (cut_prefix (c ∷ s) sep) [ none ↦ rest | some behind ↦ some ([], behind) ]

-- what stands before the separator, or the whole text
abbrev pub before_or_all : Option (Text × Text) → Text → Text
before_or_all none s = s
before_or_all (some (before, behind)) s = before

abbrev pub attach : ℕ → Text → List Text → List Text
attach c [] rest = (c ∷ []) ∷ []
attach c (d ∷ s) rest = if is_space d then (c ∷ []) ∷ rest else add_front c rest

-- `strings.Fields`
unfoldable pub fields : Text → List Text
fields [] = []
fields (c ∷ s) = let rest = fields s in if is_space c then rest else attach c s rest

-- `strings.Contains`
unfoldable pub contains_text : Text → Text → Bool
unfolding cut
contains_text s sep = elim (cut sep s) [ none ↦ false | some _ ↦ true ]

split_text_test :
    split_text (codes "pid=") (codes "a,pid=1,pid=2") ≡ codes "a," ∷ codes "1," ∷ codes "2" ∷ []
unfolding split_text
split_text_test = refl

fields_test : fields (codes " a  bc\td ") ≡ codes "a" ∷ codes "bc" ∷ codes "d" ∷ []
unfolding fields
fields_test = refl

cut_test : cut (codes "fd=") (codes "x,fd=3)") ≡ some (codes "x,", codes "3)")
unfolding cut
cut_test = refl
