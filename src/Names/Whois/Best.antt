-- ===== src/Names/Whois/Best.antt =====
-- `bestWhoisCandidate` of internal/watcher/resolver.go: the host that is counted most often.
use dialtone_watcher.Prelude.{
  sym, ◌∙◌, ◌<◌, ap, ◌≢◌, ℕ, ◌+◌, ◌≡◌, ◌⊎◌, inl, inr, true, false, Option, none, some, List, [],
  ◌∷◌, Text, refl, nat_eq, list_eq, ◌==◌, Bool-cases, Option-cases, arith, if◌then◌else◌,
}
use dialtone_watcher.Strings.Order.{text_eq_of_ties}
use dialtone_watcher.Dict.{Dict, lookup, found_or, IsDict}
use dialtone_watcher.Dict.Laws.{AllEntries-lookup}
use dialtone_watcher.Netip.{Netip}
use dialtone_watcher.Hosts.Domains.{registrable_domain}
use dialtone_watcher.Names.Whois.{
  text_ltb, is_candidate, count_hosts, beats, best_of, best_whois_candidate,
}
use dialtone_watcher.Names.Whois.Counts.{
  best_of-beats, best_of-All, entries_found, empty_lem, is_candidate_iff, IsCandidate, times,
  count_hosts-lookup, count_hosts-IsDict, candidate_lem,
}

module _ ⦃ip : Netip⦄ where
  -- how many of the hosts have the registrable domain
  abbrev pub occurrences : Text → List Text → ℕ
  occurrences domain [] = 0
  occurrences domain (host ∷ hosts) =
      (if registrable_domain host == domain then 1 else 0) + occurrences domain hosts

  times_lem :
      (domain : Text) (hosts : List Text)
      → is_candidate domain ≡ true
      → times domain hosts ≡ occurrences domain hosts
  times_lem domain [] h = refl
  times_lem domain (host ∷ hosts) h = rw (h, times_lem domain hosts h) refl

  -- `best` comes at least before `domain`: no candidate occurs at all and it is empty, or it is a candidate
  -- that occurs, and `domain`, if it is one, occurs less often, or as often and is not a smaller text.
  abbrev pub IsBest : List Text → Text → Text → Type 0
  IsBest hosts domain best =
      ((best ≡ []) × (IsCandidate domain → occurrences domain hosts ≡ 0))
      ⊎ (IsCandidate best
          × (occurrences best hosts ≢ 0)
          × (IsCandidate domain
              → (occurrences domain hosts < occurrences best hosts)
                ⊎ ((occurrences domain hosts ≡ occurrences best hosts)
                    × (text_ltb domain best ≡ false))))

  -- A map with the counts of the hosts, in whatever order it is passed through.
  module _ (hosts : List Text) (counts : Dict Text ℕ) (dict : IsDict counts)
      (same : (key : Text) → lookup key counts ≡ lookup key (count_hosts hosts [])) where
    counted :
        (domain : Text) (found : Option ℕ)
        → lookup domain counts ≡ found
        → times domain hosts ≡ found_or found 0
    unfolding lookup
    counted domain found e =
        let sum = count_hosts-lookup domain hosts [] in omega (arith, rw (← same domain, e) at sum)

    module _ (name : Text) (n : ℕ) (best : best_of counts ([], 0) ≡ (name, n)) where
      unbeaten :
          (domain : Text)
          → (times domain hosts ≡ 0) ⊎ (beats (domain, times domain hosts) (name, n) ≡ false)
      unbeaten domain = elim (Option-cases (lookup domain counts)) [
        | inl e ↦ inl (counted domain none e)
        | inr (c, e) ↦
            let (_, rest) = best_of-beats counts ([], 0) (name, n) best in
            rw (counted domain (some c) e) (
              inr
                (AllEntries-lookup (λ k v. beats (k, v) (name, n) ≡ false) domain c counts rest e))
      ]

      best_count : ((name ≡ []) × (n ≡ 0)) ⊎ (times name hosts ≡ n)
      best_count =
          let entries = entries_found counts dict in
          elim (best_of-All (λ e. lookup e.0 counts ≡ some e.1) counts ([], 0) entries) [
            | inl first ↦
                let p : ◌≡◌ {A = Text × ℕ} (name, n) ([], 0) = rw (← best) first in
                inl (ap (λ e. e.0) p, ap (λ e. e.1) p)
            | inr found ↦ inr (counted name (some n) (rw (best) at found))
          ]

      no_name : n ≡ 0 → name ≡ []
      no_name e =
          let (first, _) = best_of-beats counts ([], 0) (name, n) best in
          empty_lem name (rw (e) at first)

      best_lem :
          (domain : Text)
          → ((name ≡ []) × (times domain hosts ≡ 0))
            ⊎ ((is_candidate name ≡ true)
                × (times name hosts ≢ 0)
                × (beats (domain, times domain hosts) (name, times name hosts) ≡ false))
      best_lem domain = elim (Bool-cases (n == 0)) [
        | inl zero_ ↦
            let e : n ≡ 0 = ground (arith, zero_) in
            inl (
              no_name e,
              elim (unbeaten domain) [ inl none_of ↦ none_of | inr b ↦ ground (arith, b, e) ],
            )
        | inr some_ ↦ elim best_count [
          | inl (_, e) ↦ absurd (ground (arith, e, some_))
          | inr e ↦
              let some_seen : times name hosts ≢ 0 = λ h. ground (arith, e, h, some_) in
              inr (
                candidate_lem name hosts some_seen,
                some_seen,
                elim (unbeaten domain) [
                  | inl none_of ↦ ground (arith, none_of, some_seen)
                  | inr b ↦ rw (e) b
                ],
              )
        ]
      ]

      counts-IsBest : (domain : Text) → IsBest hosts domain name
      counts-IsBest domain = elim (best_lem domain) [
        | inl (nobody, unseen) ↦ inl (
          nobody,
          λ c. omega (arith, times_lem domain hosts ((is_candidate_iff domain).1 c), unseen),
        )
        | inr (candidate, seen, unbeaten_) ↦
            let own = times_lem name hosts candidate in
            inr (
              (is_candidate_iff name).0 candidate,
              λ h. seen (own ∙ h),
              λ c.
                  let other = times_lem domain hosts ((is_candidate_iff domain).1 c) in
                  ground (arith, own, other, unbeaten_),
            )
      ]

  -- there is only one such text
  IsBest-unique :
      (hosts : List Text) (a b : Text)
      → ((domain : Text) → IsBest hosts domain a)
      → ((domain : Text) → IsBest hosts domain b)
      → a ≡ b
  IsBest-unique hosts a b of_a of_b = elim (of_a b) [
    | inl (no_a, unseen) ↦ elim (of_b a) [
      | inl (no_b, _) ↦ no_a ∙ sym no_b
      | inr (candidate, seen, _) ↦ absurd (seen (unseen candidate))
    ]
    | inr (candidate, seen, before) ↦ elim (of_b a) [
      | inl (no_b, unseen) ↦ absurd (seen (unseen candidate))
      | inr (other, _, behind_) ↦
          let x = before other in
          let y = behind_ candidate in ground (arith, x, y, text_eq_of_ties a b)
    ]
  ]

  -- In whatever order the map of the counts is passed through, the same text is returned. It is the
  -- domain that the most hosts have, among those that are not empty and no registry's, and of those with
  -- as many the smallest text; it is empty if no host has such a domain.
  pub best_whois_candidate-IsBest :
      (hosts : List Text) (counts : Dict Text ℕ) (domain : Text)
      → IsDict counts
      → ((key : Text) → lookup key counts ≡ lookup key (count_hosts hosts []))
      → ((best_of counts ([], 0)).0 ≡ best_whois_candidate hosts)
        × IsBest hosts domain (best_whois_candidate hosts)
  unfolding best_whois_candidate
  best_whois_candidate-IsBest hosts counts domain dict same =
      let own =
        counts-IsBest hosts (count_hosts hosts []) (count_hosts-IsDict hosts [] tt) (λ key. refl) _
          _ refl in
      (IsBest-unique hosts _ _ (counts-IsBest hosts counts dict same _ _ refl) own, own domain)
