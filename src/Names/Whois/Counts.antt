-- ===== src/Names/Whois/Counts.antt =====
-- The two loops of `bestWhoisCandidate` of internal/watcher/resolver.go: the counts of the hosts' domains,
-- and the one that no other beats.
use dialtone_watcher.Prelude.{
  ◌↔◌, is_empty, codes, ◌≢◌, ℕ, ◌+◌, ◌≡◌, ◌⊎◌, inl, inr, true, false, some, List, [], ◌∷◌, Text,
  refl, nat_eq, list_eq, eq_iff, eq_refl, ◌==◌, ◌&&◌, All, Bool-cases, arith, if◌then◌else◌,
}
use dialtone_watcher.Strings.Order.{text_ltb_asymm, text_ltb_trans, text_ltb_irrefl}
use dialtone_watcher.Dict.{Dict, lookup, insert, found_or, IsDict, contains}
use dialtone_watcher.Dict.Laws.{lookup-insert, insert-IsDict, AllEntries}
use dialtone_watcher.Netip.{Netip}
use dialtone_watcher.Hosts.Domains.{registrable_domain}
use dialtone_watcher.Names.Whois.{is_empty, codes, is_candidate, count_hosts, beats, best_of}

beats_asymm : (a b : Text × ℕ) → beats a b ≡ true → beats b a ≡ false
beats_asymm (g, m) (h, n) e = ground (arith, text_ltb_asymm g h, e)

beats_trans : (a b c : Text × ℕ) → beats b a ≡ false → beats c b ≡ false → beats c a ≡ false
beats_trans (f, l) (g, m) (h, n) e d = ground (arith, text_ltb_trans f g h, e, d)

-- No entry beats the best one, nor does the one that the loop begins with.
pub best_of-beats :
    (counts : Dict Text ℕ) (b r : Text × ℕ)
    → best_of counts b ≡ r
    → (beats b r ≡ false) × All (λ (e : Text × ℕ). beats e r ≡ false) counts
unfolding best_of
best_of-beats [] b r q = (rw (← q) (ground (arith, text_ltb_irrefl b.0)), tt)
best_of-beats (e ∷ counts) b r q = elim (Bool-cases (beats e b)) [
  | inl h ↦
      let (first, rest) = best_of-beats counts e r (rw (best_of, h) at q) in
      (beats_trans r e b first (beats_asymm e b h), (first, rest))
  | inr h ↦
      let (first, rest) = best_of-beats counts b r (rw (best_of, h) at q) in
      (first, (beats_trans r b e first h, rest))
]

-- It is the first one or an entry.
pub best_of-All :
    (P : Text × ℕ → Type 0) (counts : Dict Text ℕ) (b : Text × ℕ)
    → All P counts
    → (best_of counts b ≡ b) ⊎ P (best_of counts b)
unfolding best_of
best_of-All P [] b h = inl refl
best_of-All P (e ∷ counts) b (he, h) = elim (Bool-cases (beats e b)) [
  | inr f ↦ rw (best_of, f) (best_of-All P counts b h)
  | inl f ↦ elim (best_of-All P counts e h) [
    | inr p ↦ rw (best_of, f) (inr p)
    | inl same ↦ rw (best_of, f, same) (inr he)
  ]
]

module _ (m : Dict Text ℕ) (k : Text) (v : ℕ) (fresh : contains k m ≡ false) where
  behind :
      (n : Dict Text ℕ)
      → AllEntries (λ j w. lookup j m ≡ some w) n
      → AllEntries (λ j w. lookup j ((k, v) ∷ m) ≡ some w) n
  unfolding lookup
  behind [] h = tt
  behind ((j, w) ∷ n) (hd, tl) = (ground (arith, fresh, hd, eq_iff k j), behind n tl)

-- The entries of a map are what a lookup finds.
pub entries_found : (m : Dict Text ℕ) → IsDict m → AllEntries (λ j w. lookup j m ≡ some w) m
unfolding lookup
entries_found [] d = tt
entries_found ((k, v) ∷ m) (fresh, d) =
    (rw (eq_refl k) refl, behind m k v fresh m (entries_found m d))

pub empty_lem : (name : Text) → beats ([], 0) (name, 0) ≡ false → name ≡ []
empty_lem [] h = refl
empty_lem (c ∷ name) h = absurd (ground (arith, h))

-- A domain that counts: a text that is no registry's.
abbrev pub IsCandidate : Text → Type 0
IsCandidate domain =
    (domain ≢ [])
    × (domain ≢ codes "iana.org")
    × (domain ≢ codes "arin.net")
    × (domain ≢ codes "apnic.net")
    × (domain ≢ codes "afrinic.net")
    × (domain ≢ codes "lacnic.net")

empty_iff : (t : Text) → (is_empty t ≡ true) ↔ (t ≡ [])
empty_iff [] = (λ h. refl, λ h. refl)
empty_iff (c ∷ t) = ground arith

pub is_candidate_iff : (domain : Text) → (is_candidate domain ≡ true) ↔ IsCandidate domain
unfolding is_candidate
is_candidate_iff domain = ground (
  arith,
  empty_iff domain,
  eq_iff domain (codes "iana.org"),
  eq_iff domain (codes "arin.net"),
  eq_iff domain (codes "apnic.net"),
  eq_iff domain (codes "afrinic.net"),
  eq_iff domain (codes "lacnic.net"),
)

module _ ⦃ip : Netip⦄ where
  -- how many of the hosts have a domain that counts
  abbrev pub times : Text → List Text → ℕ
  times domain [] = 0
  times domain (host ∷ hosts) =
      (if is_candidate domain && registrable_domain host == domain then 1 else 0)
      + times domain hosts

  pub count_hosts-lookup :
      (domain : Text) (hosts : List Text) (counts : Dict Text ℕ)
      → found_or (lookup domain (count_hosts hosts counts)) 0
        ≡ found_or (lookup domain counts) 0 + times domain hosts
  unfolding count_hosts
  count_hosts-lookup domain [] counts = omega arith
  count_hosts-lookup domain (host ∷ hosts) counts =
      let own = registrable_domain host in
      let more = insert own (found_or (lookup own counts) 0 + 1) counts in
      elim (Bool-cases (is_candidate own)) [
        | inr e ↦ elim (Bool-cases (own == domain)) [
          | inl same ↦
              let skipped : is_candidate domain ≡ false = rw (← (eq_iff own domain).0 same) e in
              rw (count_hosts, e, count_hosts-lookup domain hosts counts, skipped) (omega arith)
          | inr other ↦
              rw (count_hosts, e, count_hosts-lookup domain hosts counts, other) (ground arith)
        ]
        | inl e ↦ elim (Bool-cases (own == domain)) [
          | inl same ↦
              let p : own ≡ domain = (eq_iff own domain).0 same in
              let taken : is_candidate domain ≡ true = rw (← p) e in
              let was : found_or (lookup own counts) 0 ≡ found_or (lookup domain counts) 0 =
                rw p refl in
              rw
                (
                  count_hosts,
                  e,
                  count_hosts-lookup domain hosts more,
                  lookup-insert own domain (found_or (lookup own counts) 0 + 1) counts,
                  same,
                  taken,
                  was,
                )
                (omega arith)
          | inr other ↦
              rw
                (
                  count_hosts,
                  e,
                  count_hosts-lookup domain hosts more,
                  lookup-insert own domain (found_or (lookup own counts) 0 + 1) counts,
                  other,
                )
                (ground arith)
        ]
      ]

  pub count_hosts-IsDict :
      (hosts : List Text) (counts : Dict Text ℕ) → IsDict counts → IsDict (count_hosts hosts counts)
  unfolding count_hosts
  count_hosts-IsDict [] counts d = d
  count_hosts-IsDict (host ∷ hosts) counts d =
      elim (Bool-cases (is_candidate (registrable_domain host))) [
        | inl e ↦
            rw (count_hosts, e)
              (count_hosts-IsDict hosts _ (insert-IsDict (registrable_domain host) _ counts d))
        | inr e ↦ rw (count_hosts, e) (count_hosts-IsDict hosts counts d)
      ]

  pub candidate_lem :
      (domain : Text) (hosts : List Text) → times domain hosts ≢ 0 → is_candidate domain ≡ true
  candidate_lem domain [] h = absurd (h refl)
  candidate_lem domain (host ∷ hosts) h = ground (arith, candidate_lem domain hosts)
