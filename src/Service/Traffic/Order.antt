-- ===== src/Service/Traffic/Order.antt =====
-- The order in which the map of the observations is passed through, in `pollDomainsLocked` of
-- internal/watcher/watcher.go.
use mathlib.Core.List.{Perm, foldr}
use mathlib.Core.List.Perm
use dialtone_watcher.Prelude.{
  ◌*◌, Bool, false, Option, some, [], ◌∷◌, ◌≡◌, refl, sym, ◌∙◌, ap, Text, nat_eq, list_eq, ◌==◌,
  eq_iff, if◌then◌else◌, arith, Bool-cases, inl, inr,
}
use dialtone_watcher.Lookups.Shown.{cached_name, shown_name, cache_stays}
use dialtone_watcher.Words.{add64_swap}
use dialtone_watcher.Clock.{Time}
use dialtone_watcher.Netip.{Netip}
use dialtone_watcher.Dict.{Dict, lookup, insert, IsDict, found_or, contains}
use dialtone_watcher.Dict.Laws.{lookup-insert, lookup-delete_if, unless}
use dialtone_watcher.Records.{DomainRecord}
use dialtone_watcher.Network.{NetworkConnectionSample, NetworkObservation}
use dialtone_watcher.Service.{Service}
use dialtone_watcher.Service.Invariant.{IsService}
use dialtone_watcher.Service.Invariant.Traffic.{observe_all-IsService}
use dialtone_watcher.Prelude.Int.{pos, ltb_ℤ}
use dialtone_watcher.Clock.{sub}
use dialtone_watcher.Service.Traffic.{
  poll_interval, delta, fresh_domain_record, add_to_domain, observe, observe_all, expire,
  poll_domains_locked,
}

-- two observations of a domain may come in either order
add_to_domain_comm :
    (now : Time) (name : Text) (a b : NetworkConnectionSample) (r : DomainRecord)
    → add_to_domain now name a (add_to_domain now name b r)
      ≡ add_to_domain now name b (add_to_domain now name a r)
unfolding add_to_domain
add_to_domain_comm now name a b r =
    rw (add64_swap r.rx_bytes b.rx_bytes a.rx_bytes, add64_swap r.tx_bytes b.tx_bytes a.tx_bytes)
      refl

module _ (now : Time) (name domain : Text) (samples : Dict Text NetworkConnectionSample) where
  -- what an observation makes of a domain's record
  abbrev pub visit : Text × NetworkObservation → Option DomainRecord → Option DomainRecord
  visit e r =
      if e.1.domain == domain
      then some (
          add_to_domain now name (delta e.1.sample (lookup e.0 samples))
            (found_or r (fresh_domain_record domain)))
      else r

  abbrev pub visits : Dict Text NetworkObservation → Option DomainRecord → Option DomainRecord
  visits [] r = r
  visits (e ∷ rest) r = visits rest (visit e r)

  visit_comm :
      (a b : Text × NetworkObservation) (r : Option DomainRecord)
      → visit a (visit b r) ≡ visit b (visit a r)
  visit_comm a b r = elim (Bool-cases (a.1.domain == domain)) [
    | inr other ↦ rw other refl
    | inl same ↦ elim (Bool-cases (b.1.domain == domain)) [
      | inr other ↦ rw (same, other) refl
      | inl both ↦
          rw
            (
              same,
              both,
              add_to_domain_comm now name (delta a.1.sample (lookup a.0 samples))
                  (delta b.1.sample (lookup b.0 samples)) (found_or r (fresh_domain_record domain)),
            )
            refl
    ]
  ]

  visits_front :
      (observations : Dict Text NetworkObservation) (e : Text × NetworkObservation)
      (r : Option DomainRecord)
      → visits observations (visit e r) ≡ visit e (visits observations r)
  visits_front [] e r = refl
  visits_front (d ∷ rest) e r =
      ap (visits rest) (visit_comm d e r) ∙ visits_front rest e (visit d r)

  visits-foldr :
      (observations : Dict Text NetworkObservation) (r : Option DomainRecord)
      → visits observations r ≡ foldr visit r observations
  visits-foldr [] r = refl
  visits-foldr (e ∷ rest) r = visits_front rest e r ∙ ap (visit e) (visits-foldr rest r)

  visits-perm :
      {xs ys : Dict Text NetworkObservation}
      → Perm xs ys
      → (r : Option DomainRecord) → visits xs r ≡ visits ys r
  visits-perm {xs} {ys} p r =
      visits-foldr xs r ∙ Perm.foldr-eq (hlevel) visit visit_comm p r ∙ sym (visits-foldr ys r)

-- another connection's sample changes nothing
visits-insert :
    (now : Time) (name domain key : Text) (v : NetworkConnectionSample)
    (samples : Dict Text NetworkConnectionSample) (observations : Dict Text NetworkObservation)
    (r : Option DomainRecord)
    → contains key observations ≡ false
    → visits now name domain (insert key v samples) observations r
      ≡ visits now name domain samples observations r
unfolding lookup
visits-insert now name domain key v samples [] r h = refl
visits-insert now name domain key v samples ((k, o) ∷ rest) r h = elim (Bool-cases (k == key)) [
  | inl same ↦ absurd (ground (arith, h, same))
  | inr other ↦
      let kept : lookup k (insert key v samples) ≡ lookup k samples =
        ground (arith, lookup-insert key k v samples, eq_iff key k, eq_iff k key, other) in
      rw kept (
        visits-insert now name domain key v samples rest (visit now name domain samples (k, o) r)
          (ground (arith, h, other)))
]

-- twelve poll intervals without an observation
abbrev is_stale : Time → DomainRecord → Bool
is_stale now r = ltb_ℤ (pos (poll_interval * 12)) (sub now r.last_seen)

module _ {F : Type 0} ⦃ip : Netip⦄ (now : Time) (domain : Text) where
  observe-visits :
      (key : Text) (o : NetworkObservation) (s : Service F)
      → lookup domain (observe now key o s).domains
        ≡ visit now
            (cached_name domain s.lookups.lookup_cache)
            domain
            s.network_samples
            (key, o)
            (lookup domain s.domains)
  unfolding observe
  observe-visits key o s = elim (Bool-cases (o.domain == domain)) [
    | inr other ↦ rw (lookup-insert, other) refl
    | inl same ↦
        rw (lookup-insert, same, shown_name o.domain s.lookups, (eq_iff o.domain domain).0 same)
          refl
  ]

  observe_cache :
      (key : Text) (o : NetworkObservation) (s : Service F)
      → (observe now key o s).lookups.lookup_cache ≡ s.lookups.lookup_cache
  unfolding observe
  observe_cache key o s = cache_stays o.domain s.lookups

  observe_all-visits :
      (observations : Dict Text NetworkObservation) (s : Service F)
      → IsDict observations
      → lookup domain (observe_all now observations s).domains
        ≡ visits now
            (cached_name domain s.lookups.lookup_cache)
            domain
            s.network_samples
            observations
            (lookup domain s.domains)
  unfolding observe_all observe
  observe_all-visits [] s h = refl
  observe_all-visits ((key, o) ∷ rest) s (new, h) =
      let s' = observe now key o s in
      let name = cached_name domain s.lookups.lookup_cache in
      observe_all-visits rest s' h
      ∙ ap
          (λ cache.
            visits now (cached_name domain cache) domain s'.network_samples rest
              (lookup domain s'.domains))
          (observe_cache key o s)
      ∙ visits-insert now name domain key o.sample s.network_samples rest (lookup domain s'.domains)
          new
      ∙ ap (visits now name domain s.network_samples rest) (observe-visits key o s)

  poll_domains-visits :
      (observations : Dict Text NetworkObservation) (s : Service F)
      → IsDict observations
      → IsService s
      → lookup domain (poll_domains_locked observations now s).domains
        ≡ unless (is_stale now) (
            visits now
              (cached_name domain s.lookups.lookup_cache)
              domain
              s.network_samples
              observations
              (lookup domain s.domains))
  unfolding poll_domains_locked expire
  poll_domains-visits observations s d v =
      let all = observe_all now observations s in
      lookup-delete_if (λ _ r. is_stale now r) domain all.domains
        (observe_all-IsService now observations s v).traffic.domains_dict
      ∙ ap (unless (is_stale now)) (observe_all-visits observations s d)

  -- Whatever the order in which Go passes through the map of a poll's observations, every domain has
  -- the same record after the poll, its name, its counters and its time, or none.
  pub poll_domains_locked_order :
      (observations permuted : Dict Text NetworkObservation) (s : Service F)
      → Perm observations permuted
      → IsDict observations
      → IsDict permuted
      → IsService s
      → lookup domain (poll_domains_locked observations now s).domains
        ≡ lookup domain (poll_domains_locked permuted now s).domains
  poll_domains_locked_order observations permuted s p d d' v =
      poll_domains-visits observations s d v
      ∙ ap (unless (is_stale now)) (
          visits-perm now (cached_name domain s.lookups.lookup_cache) domain s.network_samples p
            (lookup domain s.domains))
      ∙ sym (poll_domains-visits permuted s d' v)
