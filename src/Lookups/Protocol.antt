-- ===== src/Lookups/Protocol.antt =====
-- The polls and the worker as interleaved steps. The worker takes from the channel without the lock,
-- looks up, and then finishes under the lock.
use dialtone_watcher.Prelude.{
  Option-cases, ℕ, ◌+◌, ◌≤◌, true, false, Option, none, some, List, [], ◌∷◌, ◌++◌, ◌≡◌, Text,
  length, length-append, nat_eq, list_eq, if◌then◌else◌, arith, eq_iff, Bool-cases, inl, inr, ◌==◌,
}
use dialtone_watcher.Dict.{lookup, insert}
use dialtone_watcher.Dict.Laws.{lookup-insert}
use dialtone_watcher.Netip.{Netip}
use dialtone_watcher.Hosts.{is_public_ip}
use dialtone_watcher.Lookups.{
  Lookups, queue_size, is_pending, ready_name, enqueue, cached_display_name_locked, finish_lookup,
}

-- The shared fields, and the address that the worker is looking up.
pub record Shared : Type 0 where
  pub lookups : Lookups
  pub in_flight : Option Text

-- One step: a poll asks for a name, the worker takes an address, the worker finishes with whatever
-- name it found.
pub data Step ⦃ip : Netip⦄ : Shared → Shared → Type 0 where
  ask :
      (s : Shared) (host : Text)
      → Step s (record s { lookups = (cached_display_name_locked host s.lookups).1 })
  receive :
      (s : Shared) (host : Text) (rest : List Text)
      → s.in_flight ≡ none
      → s.lookups.lookup_queue ≡ host ∷ rest
      → Step s
          (record { lookups = record s.lookups { lookup_queue = rest }; in_flight = some host })
  finish :
      (s : Shared) (host name : Text)
      → s.in_flight ≡ some host
      → Step s (record { lookups = finish_lookup host name s.lookups; in_flight = none })

pub data Reach ⦃ip : Netip⦄ (s : Shared) : Shared → Type 0 where
  here : Reach s s
  next : {t u : Shared} → Reach s t → Step t u → Reach s u

-- how often an address is on its way: in the channel or at the worker
abbrev pub occurrences : Text → List Text → ℕ
occurrences h [] = 0
occurrences h (x ∷ xs) = (if x == h then 1 else 0) + occurrences h xs

abbrev pub at_worker : Text → Option Text → ℕ
at_worker h none = 0
at_worker h (some x) = if x == h then 1 else 0

-- An address is marked as pending exactly while it is on its way, and it is then on its way once.
pub record IsTracked (s : Shared) : Type 0 where
  pub marked :
      (h : Text)
      → occurrences h s.lookups.lookup_queue + at_worker h s.in_flight
        ≡ (if is_pending s.lookups h then 1 else 0)
  pub bounded : length s.lookups.lookup_queue ≤ queue_size

occurrences-append :
    (h : Text) (xs ys : List Text) → occurrences h (xs ++ ys) ≡ occurrences h xs + occurrences h ys
occurrences-append h [] ys = omega arith
occurrences-append h (x ∷ xs) ys = omega (arith, occurrences-append h xs ys)

enqueue-IsTracked :
    (host : Text) (s : Shared)
    → is_pending s.lookups host ≡ false
    → IsTracked s
    → IsTracked (record s { lookups = enqueue host s.lookups })
unfolding enqueue
enqueue-IsTracked host s free t = record {
  marked = λ h. ground (
    arith,
    t.marked h,
    t.marked host,
    eq_iff host h,
    lookup-insert host h true s.lookups.lookup_pending,
    lookup-insert host h false (insert host true s.lookups.lookup_pending),
    occurrences-append h s.lookups.lookup_queue (host ∷ []),
  );
  bounded = ground (arith, t.bounded, length-append s.lookups.lookup_queue (host ∷ []));
}

pub ask-IsTracked :
    ⦃ip : Netip⦄ (host : Text) (s : Shared)
    → IsTracked s
    → IsTracked (record s { lookups = (cached_display_name_locked host s.lookups).1 })
unfolding cached_display_name_locked
ask-IsTracked host s t = elim (Bool-cases (is_public_ip host)) [
  | inr private ↦ rw private t
  | inl public ↦ elim (Option-cases (ready_name (lookup host s.lookups.lookup_cache))) [
    | inr (name, ready) ↦ rw (public, ready) t
    | inl unready ↦ elim (Bool-cases (is_pending s.lookups host)) [
      | inl waiting ↦ rw (public, unready, waiting) t
      | inr free ↦ rw (public, unready, free) (enqueue-IsTracked host s free t)
    ]
  ]
]

pub finish-IsTracked :
    (host name : Text) (s : Shared)
    → s.in_flight ≡ some host
    → IsTracked s
    → IsTracked (record { lookups = finish_lookup host name s.lookups; in_flight = none })
unfolding finish_lookup
finish-IsTracked host name s busy t = record {
  marked = λ h.
      ground
        (arith, t.marked h, eq_iff host h, lookup-insert host h false s.lookups.lookup_pending);
  bounded = t.bounded;
}

pub receive-IsTracked :
    (s : Shared) (host : Text) (rest : List Text)
    → s.in_flight ≡ none
    → s.lookups.lookup_queue ≡ host ∷ rest
    → IsTracked s
    → IsTracked
        (record { lookups = record s.lookups { lookup_queue = rest }; in_flight = some host })
receive-IsTracked s host rest idle q t = record {
  marked = λ h. ground (arith, t.marked h);
  bounded = ground (arith, t.bounded);
}

Step-IsTracked : ⦃ip : Netip⦄ {s t : Shared} → Step s t → IsTracked s → IsTracked t
Step-IsTracked (ask s host) h = ask-IsTracked host s h
Step-IsTracked (receive s host rest idle q) h = receive-IsTracked s host rest idle q h
Step-IsTracked (finish s host name busy) h = finish-IsTracked host name s busy h

-- Whatever the interleaving of polls and worker, from a state in which each address is marked as
-- pending exactly while it is on its way, every state that is reached is so again: no address is in
-- the channel twice, or in the channel and at the worker, none that is marked is forgotten, and the
-- channel holds at most 256 addresses.
pub Reach-IsTracked : ⦃ip : Netip⦄ {s t : Shared} → IsTracked s → Reach s t → IsTracked t
Reach-IsTracked h here = h
Reach-IsTracked h (next r st) = Step-IsTracked st (Reach-IsTracked h r)
