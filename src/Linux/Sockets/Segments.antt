-- ===== src/Linux/Sockets/Segments.antt =====
-- Where the text between `users:(` and `) ` is split, for internal/watcher/network_linux.go.
use dialtone_watcher.Prelude.{
  ◌⊎◌, ℕ, zero, ◌<◌, ◌≡◌, ◌≢◌, refl, Option, none, some, List, [], ◌∷◌, ◌++◌, Text, codes, nat_eq,
  All, Option-cases, arith, inl, inr,
}
use dialtone_watcher.Decimal.Injective.{IsDigit}
use dialtone_watcher.Strings.{cut_prefix}
use dialtone_watcher.Strings.Parts.{cut, split_behind, before_too, add_front}
use dialtone_watcher.Strings.Parts.Laws.{Lacks}

-- `strings.Split` at `pid=`: a text that holds none joins what comes before the next one.
abbrev pub pid_parts : Text → List Text
pid_parts = split_behind (codes "pid=") zero

abbrev pub glue : Text → List Text → List Text
glue [] ws = ws
glue (c ∷ s) ws = add_front c (glue s ws)

pub glue-cons : (s w : Text) (ws : List Text) → glue s (w ∷ ws) ≡ (s ++ w) ∷ ws
glue-cons [] w ws = refl
glue-cons (c ∷ s) w ws = rw (glue-cons s w ws) refl

pub pid_parts-Lacks :
    (s rest : Text) → Lacks b'p' s → pid_parts (s ++ rest) ≡ glue s (pid_parts rest)
unfolding split_behind cut_prefix
pid_parts-Lacks [] rest h = refl
pid_parts-Lacks (c ∷ s) rest (hc, h) = ground (arith, pid_parts-Lacks s rest h)

-- A prefix that is not there is not there either behind a quotation mark.
pub prefix_through :
    (sep s rest : Text)
    → Lacks b'"' sep
    → cut_prefix s sep ≡ none
    → cut_prefix (s ++ b'"' ∷ rest) sep ≡ none
unfolding cut_prefix
prefix_through [] s rest h e = ground arith
prefix_through (d ∷ sep) [] rest (hd, h) e = ground arith
prefix_through (d ∷ sep) (c ∷ s) rest (hd, h) e = ground (arith, prefix_through sep s rest h)

pub before_too-none : (c : ℕ) (o : Option (Text × Text)) → before_too c o ≡ none → o ≡ none
before_too-none c none h = refl
before_too-none c (some (a, b)) h = absurd (ground arith)

pub cut-none :
    (sep : Text) (c : ℕ) (s : Text)
    → cut sep (c ∷ s) ≡ none
    → (cut_prefix (c ∷ s) sep ≡ none) × (cut sep s ≡ none)
unfolding cut
cut-none sep c s h = elim (Option-cases (cut_prefix (c ∷ s) sep)) [
  | inr (behind, e) ↦ absurd (ground (arith, rw (cut, e) at h))
  | inl e ↦ (e, before_too-none c (cut sep s) (rw (cut, e) at h))
]

pub split_behind-none :
    (sep : Text) (c : ℕ) (s : Text)
    → cut_prefix (c ∷ s) sep ≡ none
    → split_behind sep zero (c ∷ s) ≡ add_front c (split_behind sep zero s)
unfolding split_behind
split_behind-none sep c s h = rw (split_behind, h) refl

pub quotation : Lacks b'"' (codes "pid=")
quotation = omega arith

pub pid_parts-name :
    (name rest : Text)
    → cut (codes "pid=") name ≡ none
    → pid_parts (name ++ b'"' ∷ rest) ≡ glue name (pid_parts (b'"' ∷ rest))
pid_parts-name [] rest h = refl
pid_parts-name (c ∷ name) rest h =
    let (here, later) = cut-none (codes "pid=") c name h in
    rw
      (
        split_behind-none (codes "pid=") c (name ++ b'"' ∷ rest)
            (prefix_through (codes "pid=") (c ∷ name) rest quotation here),
        pid_parts-name name rest later,
      )
      refl

-- The first `) ` ends the users.
abbrev pub prefixed : Text → Option (Text × Text) → Option (Text × Text)
prefixed [] o = o
prefixed (c ∷ s) o = before_too c (prefixed s o)

pub end-Lacks :
    (s rest : Text)
    → Lacks b')' s
    → cut (codes ") ") (s ++ rest) ≡ prefixed s (cut (codes ") ") rest)
unfolding cut
end-Lacks [] rest h = refl
end-Lacks (c ∷ s) rest (hc, h) = ground (arith, end-Lacks s rest h)

pub prefixed-some : (s a b : Text) → prefixed s (some (a, b)) ≡ some (s ++ a, b)
prefixed-some [] a b = refl
prefixed-some (c ∷ s) a b = rw (prefixed-some s a b) refl

pub digits-Lacks : (d : ℕ) (s : Text) → (d < b'0') ⊎ (b'9' < d) → All IsDigit s → Lacks d s
digits-Lacks d [] e h = tt
digits-Lacks d (c ∷ s) e (hc, h) = (omega arith, digits-Lacks d s e h)

pub close :
    (c : ℕ) (rest : Text)
    → c ≢ b' '
    → cut (codes ") ") (b')' ∷ c ∷ rest) ≡ before_too b')' (cut (codes ") ") (c ∷ rest))
unfolding cut cut_prefix
close c rest h = ground arith
