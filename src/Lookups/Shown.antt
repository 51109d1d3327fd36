-- ===== src/Lookups/Shown.antt =====
-- The name that `cachedDisplayNameLocked` of internal/watcher/watcher.go returns, and the cache behind it.
use dialtone_watcher.Hosts.{is_public_ip}
use dialtone_watcher.Prelude.{
  length, Option-cases, not, ltb, none, some, [], ◌≡◌, refl, Text, nat_eq, list_eq, if◌then◌else◌,
  Bool-cases, inl, inr,
}
use dialtone_watcher.Netip.{Netip}
use dialtone_watcher.Dict.{Dict, lookup}
use dialtone_watcher.Lookups.{
  queue_size, is_pending, ready_name, enqueue, ReverseLookupResult, Lookups,
  cached_display_name_locked,
}

-- the name that a poll shows for an address, by the cache alone
abbrev pub cached_name : ⦃ip : Netip⦄ → Text → Dict Text ReverseLookupResult → Text
cached_name domain cache =
    if not (is_public_ip domain)
    then []
    else elim (ready_name (lookup domain cache)) [ some name ↦ name | none ↦ [] ]

module _ ⦃ip : Netip⦄ (domain : Text) (l : Lookups) where
  pub shown_name : (cached_display_name_locked domain l).0 ≡ cached_name domain l.lookup_cache
  unfolding cached_display_name_locked
  shown_name = elim (Bool-cases (is_public_ip domain)) [
    | inr private ↦ rw private refl
    | inl public ↦ elim (Option-cases (ready_name (lookup domain l.lookup_cache))) [
      | inr (name, ready) ↦ rw (public, ready) refl
      | inl unready ↦ elim (Bool-cases (is_pending l domain)) [
        | inl waiting ↦ rw (public, unready, waiting) refl
        | inr free ↦ rw (public, unready, free) refl
      ]
    ]
  ]

  enqueue_cache : (enqueue domain l).lookup_cache ≡ l.lookup_cache
  unfolding enqueue
  enqueue_cache = elim (Bool-cases (ltb (length l.lookup_queue) queue_size)) [
    | inl room ↦ rw room refl
    | inr full ↦ rw full refl
  ]

  pub cache_stays : (cached_display_name_locked domain l).1.lookup_cache ≡ l.lookup_cache
  unfolding cached_display_name_locked
  cache_stays = elim (Bool-cases (is_public_ip domain)) [
    | inr private ↦ rw private refl
    | inl public ↦ elim (Option-cases (ready_name (lookup domain l.lookup_cache))) [
      | inr (name, ready) ↦ rw (public, ready) refl
      | inl unready ↦ elim (Bool-cases (is_pending l domain)) [
        | inl waiting ↦ rw (public, unready, waiting) refl
        | inr free ↦ rw (public, unready, free) enqueue_cache
      ]
    ]
  ]
