-- ===== src/TestTraffic.antt =====
-- `buildDNSQuery` of internal/watcher/test_traffic_linux.go.
pub mod Loops
use dialtone_watcher.Prelude.{
  drop, append_assoc, ℕ, zero, suc, ◌/◌, ◌%◌, ◌||◌, false, Option, none, some, ◌>>=◌, List, [], ◌∷◌,
  ◌++◌, Text, is_empty, ltb, length, if◌then◌else◌, ◌==◌, nat_eq, ◌≡◌, refl, Bool-cases,
  Option-cases, inl, inr, arith,
}
use dialtone_watcher.Strings.Parts.{split, add_front}

-- the loop over the labels
unfoldable pub question : List Text → Option Text
question [] = some []
question (label ∷ labels) =
    if is_empty label || ltb 63 (length label)
    then none
    else do rest ← question labels; some (length label ∷ (label ++ rest))

-- A `nil` packet is `none`; `id` is the random number.
unfoldable pub build_dns_query : ℕ → Text → Option Text
unfolding question split
build_dns_query id host = do
  labels ← question (split b'.' host)
  some (
      id / 256
      ∷ id % 256
      ∷ 1
      ∷ 0
      ∷ 0
      ∷ 1
      ∷ 0
      ∷ 0
      ∷ 0
      ∷ 0
      ∷ 0
      ∷ 0
      ∷ (labels ++ 0 ∷ 0 ∷ 1 ∷ 0 ∷ 1 ∷ []))

-- A reader of such a question: the rest of a label of `n` more bytes, and the labels behind it.
abbrev pub read_labels : ℕ → Text → Option (List Text)
read_labels zero [] = none
read_labels zero (k ∷ s) =
    let rest = read_labels k s >>= (λ labels. some ([] ∷ labels)) in
    if k == 0 then some ([] ∷ []) else rest
read_labels (suc n) [] = none
read_labels (suc n) (c ∷ s) = read_labels n s >>= (λ labels. some (add_front c labels))

label_lem :
    (label s : Text) (labels : List Text)
    → read_labels 0 s ≡ some ([] ∷ labels)
    → read_labels (length label) (label ++ s) ≡ some (label ∷ labels)
label_lem [] s labels e = e
label_lem (c ∷ label) s labels e = rw (label_lem label s labels e) refl

not_zero :
    (label : Text) → (is_empty label || ltb 63 (length label)) ≡ false → (length label == 0) ≡ false
not_zero [] h = absurd (ground (arith, h))
not_zero (c ∷ label) h = ground arith

-- What is written of the labels is read as them, whatever stands behind the final zero.
pub question_lem :
    (labels : List Text) (bytes s : Text)
    → question labels ≡ some bytes
    → read_labels 0 (bytes ++ 0 ∷ s) ≡ some ([] ∷ labels)
unfolding question
question_lem [] bytes s e = let b : [] ≡ bytes = ground (arith, e) in rw (← b) refl
question_lem (label ∷ labels) bytes s e =
    elim (Bool-cases (is_empty label || ltb 63 (length label))) [
      | inl bad ↦ absurd (ground (arith, rw (question, bad) at e))
      | inr good ↦ elim (Option-cases (question labels)) [
        | inl f ↦ absurd (ground (arith, rw (question, good, f) at e))
        | inr (rest, f) ↦
            let b : length label ∷ (label ++ rest) ≡ bytes =
              ground (arith, rw (question, good, f) at e) in
            let some_byte : (length label == 0) ≡ false = not_zero label good in
            rw
              (
                ← b,
                append_assoc,
                some_byte,
                label_lem label (rest ++ 0 ∷ s) labels (question_lem labels rest s f),
              )
              refl
      ]
    ]

-- A packet that is built asks for the host: behind the 12 bytes of its head a reader finds its labels.
pub build_dns_query_lem :
    (id : ℕ) (host packet : Text)
    → build_dns_query id host ≡ some packet
    → read_labels 0 (drop 12 packet) ≡ some ([] ∷ split b'.' host)
unfolding build_dns_query
build_dns_query_lem id host packet e = elim (Option-cases (question (split b'.' host))) [
  | inl f ↦ absurd (ground (arith, rw (build_dns_query, f) at e))
  | inr (bytes, f) ↦
      let tail = 0 ∷ 1 ∷ 0 ∷ 1 ∷ [] in
      let b : id / 256 ∷ id % 256 ∷ 1 ∷ 0 ∷ 0 ∷ 1 ∷ 0 ∷ 0 ∷ 0 ∷ 0 ∷ 0 ∷ 0 ∷ (bytes ++ 0 ∷ tail)
          ≡ packet =
        ground (arith, rw (build_dns_query, f) at e) in
      rw (← b) (question_lem (split b'.' host) bytes tail f)
]
