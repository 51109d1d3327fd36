-- ===== src/Lookups/Answers.antt =====
-- `cachedDisplayNameLocked` of internal/watcher/watcher.go behind a lookup that the worker of
-- internal/watcher/resolver.go has finished.
use dialtone_watcher.Prelude.{
  ◌==◌, true, false, [], ◌∷◌, ◌++◌, ◌≡◌, ◌≢◌, refl, Text, length, ◌<◌, nat_eq, list_eq, arith,
  eq_refl,
}
use dialtone_watcher.Dict.{insert, IsDict}
use dialtone_watcher.Dict.Laws.{lookup-insert_self, lookup-delete_if}
use dialtone_watcher.Netip.{Netip}
use dialtone_watcher.Hosts.{is_public_ip}
use dialtone_watcher.Lookups.{
  Lookups, queue_size, is_pending, enqueue, cached_display_name_locked, finish_lookup,
}

module _ ⦃ip : Netip⦄ (host : Text) (l : Lookups) where
  -- A name that was found for a public address is what every later poll shows, and no further
  -- lookup is asked for.
  pub cached_display_name-finish :
      (name : Text)
      → is_public_ip host ≡ true
      → name ≢ []
      → cached_display_name_locked host (finish_lookup host name l)
        ≡ (name, finish_lookup host name l)
  unfolding cached_display_name_locked finish_lookup
  cached_display_name-finish [] public named = absurd (named refl)
  cached_display_name-finish (c ∷ name) public named =
      rw (public, lookup-insert_self host (record { ready = true; name = c ∷ name }) l.lookup_cache)

  -- A lookup of a public address that found nothing is asked for again by the next poll, which
  -- shows no name, as long as the channel has room.
  pub cached_display_name-finish_nothing :
      is_public_ip host ≡ true
      → IsDict l.lookup_cache
      → length l.lookup_queue < queue_size
      → (cached_display_name_locked host (finish_lookup host [] l)).0 ≡ []
        × (cached_display_name_locked host (finish_lookup host [] l)).1.lookup_queue
          ≡ l.lookup_queue ++ host ∷ []
        × is_pending (cached_display_name_locked host (finish_lookup host [] l)).1 host ≡ true
  unfolding cached_display_name_locked finish_lookup enqueue
  cached_display_name-finish_nothing public d room = ground (
    arith,
    lookup-delete_if (λ j _. j == host) host l.lookup_cache d,
    eq_refl host,
    lookup-insert_self host false l.lookup_pending,
    lookup-insert_self host true (insert host false l.lookup_pending),
  )
