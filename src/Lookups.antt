-- ===== src/Lookups.antt =====
-- The queue of reverse lookups: `cachedDisplayNameLocked` of internal/watcher/watcher.go, and the
-- worker of `startReverseLookupWorker` in internal/watcher/resolver.go as far as it touches the
-- cache, the pending marks and the channel.
pub mod Answers
pub mod Draining
pub mod Protocol
pub mod Shown
use dialtone_watcher.Prelude.{
  ℕ, Bool, true, false, not, Option, none, some, List, [], ◌∷◌, ◌++◌, Text, is_empty, ltb, length,
  nat_eq, list_eq, if◌then◌else◌,
}
use dialtone_watcher.Dict.{Dict, lookup, insert, delete}
use dialtone_watcher.Netip.{Netip}
use dialtone_watcher.Hosts.{is_public_ip}

pub record ReverseLookupResult : Type 0 where
  pub ready : Bool
  pub name : Text

-- The fields of `service` that the lookups go through. The channel is its buffer, first in first
-- out.
pub record Lookups : Type 0 where
  pub lookup_cache : Dict Text ReverseLookupResult
  pub lookup_pending : Dict Text Bool
  pub lookup_queue : List Text

-- `make(chan string, 256)`
abbrev pub queue_size : ℕ
queue_size = 256

-- `s.lookupPending[host]`, which is false where the key is missing
abbrev pub is_pending : Lookups → Text → Bool
is_pending l host = elim (lookup host l.lookup_pending) [ none ↦ false | some b ↦ b ]

-- the name of a cached result that is ready
abbrev pub ready_name : Option ReverseLookupResult → Option Text
ready_name none = none
ready_name (some r) = if r.ready then some r.name else none

-- the mark and the `select`
unfoldable pub enqueue : Text → Lookups → Lookups
enqueue host l =
    let pending = insert host true l.lookup_pending in
    if ltb (length l.lookup_queue) queue_size
    then record l { lookup_pending = pending; lookup_queue = l.lookup_queue ++ host ∷ [] }
    else record l { lookup_pending = insert host false pending }

unfoldable pub cached_display_name_locked : ⦃ip : Netip⦄ → Text → Lookups → Text × Lookups
unfolding enqueue
cached_display_name_locked host l =
    if not (is_public_ip host) then ([], l) else elim (ready_name (lookup host l.lookup_cache)) [
      | some name ↦ (name, l)
      | none ↦ if is_pending l host then ([], l) else ([], enqueue host l)
    ]

-- What the worker writes under the lock when it has looked `ip` up; `name` is empty if nothing was
-- found.
unfoldable pub finish_lookup : Text → Text → Lookups → Lookups
finish_lookup ip name l = record l {
  lookup_pending = insert ip false l.lookup_pending;
  lookup_cache =
      if not (is_empty name)
      then insert ip (record { ready = true; name = name }) l.lookup_cache
      else delete ip l.lookup_cache;
}
