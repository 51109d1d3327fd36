-- ===== src/Lookups/Draining.antt =====
-- The worker of `startReverseLookupWorker` in internal/watcher/resolver.go while no poll asks.
use dialtone_watcher.Prelude.{
  ◌≡◌, refl, false, Option, none, some, List, [], ◌∷◌, Text, nat_eq, list_eq, arith, Bool-cases,
  inl, inr,
}
use dialtone_watcher.Netip.{Netip}
use dialtone_watcher.Lookups.{is_pending, finish_lookup}
use dialtone_watcher.Lookups.Protocol.{
  Shared, Step, ask, receive, finish, Reach, here, next, IsTracked, Reach-IsTracked,
}

module _ ⦃ip : Netip⦄ where
  -- a step of the worker
  abbrev pub IsWork : {s t : Shared} → Step s t → Type 0
  IsWork (ask s host) = ⊥
  IsWork (receive s host rest idle q) = Unit
  IsWork (finish s host name busy) = Unit

  -- steps of the worker alone
  pub data Works (s : Shared) : Shared → Type 0 where
    idle : Works s s
    then_work : {t u : Shared} → Works s t → (st : Step t u) → IsWork st → Works s u

  Works-Reach : {s t : Shared} → Works s t → Reach s t
  Works-Reach idle = here
  Works-Reach (then_work w st _) = next (Works-Reach w) st

  -- The worker has nothing left, and no address is marked.
  pub record IsDrained (t : Shared) : Type 0 where
    pub empty : t.lookups.lookup_queue ≡ []
    pub free : t.in_flight ≡ none
    pub unmarked : (h : Text) → is_pending t.lookups h ≡ false

  drained :
      (t : Shared) → t.lookups.lookup_queue ≡ [] → t.in_flight ≡ none → IsTracked t → IsDrained t
  drained t q f tracked = record {
    empty = q;
    free = f;
    unmarked = λ h. elim (Bool-cases (is_pending t.lookups h)) [
      | inr e ↦ e
      | inl e ↦ absurd (ground (arith, tracked.marked h, q, f, e))
    ];
  }

  work_off :
      (name : Text → Text) (queue : List Text) (s t : Shared)
      → Works s t
      → t.lookups.lookup_queue ≡ queue
      → t.in_flight ≡ none
      → (u : Shared) × Works s u × (u.lookups.lookup_queue ≡ []) × (u.in_flight ≡ none)
  unfolding finish_lookup
  work_off name [] s t w q f = (t, w, q, f)
  work_off name (host ∷ queue) s t w q f =
      let taken : Shared = record {
        lookups = record t.lookups { lookup_queue = queue };
        in_flight = some host;
      } in
      let done : Shared = record {
        lookups = finish_lookup host (name host) taken.lookups;
        in_flight = none;
      } in
      work_off name queue s done
        (then_work (then_work w (receive t host queue f q) tt) (finish taken host (name host) refl)
          tt)
        refl refl

  settle :
      (name : Text → Text) (s : Shared) (flight : Option Text)
      → s.in_flight ≡ flight
      → (t : Shared) × Works s t × (t.in_flight ≡ none)
  settle name s none f = (s, idle, f)
  settle name s (some host) f = (
    record { lookups = finish_lookup host (name host) s.lookups; in_flight = none },
    then_work idle (finish s host (name host) f) tt,
    refl,
  )

  -- Whatever names it finds, the worker alone gets from every state of the protocol to one in which the
  -- channel is empty, it looks nothing up, and no address is marked as pending.
  pub worker_drains :
      (name : Text → Text) (s : Shared) → IsTracked s → (t : Shared) × Works s t × IsDrained t
  worker_drains name s tracked =
      let (t, w, f) = settle name s s.in_flight refl in
      let (u, v, q, g) = work_off name t.lookups.lookup_queue s t w refl f in
      (u, v, drained u q g (Reach-IsTracked tracked (Works-Reach v)))
