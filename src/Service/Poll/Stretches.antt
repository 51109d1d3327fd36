-- ===== src/Service/Poll/Stretches.antt =====
-- `pollOnce` of internal/watcher/watcher.go as its stretches under the mutex, with the steps of the
-- worker of internal/watcher/resolver.go between them.
use mathlib.Core.Path.{subst}
use dialtone_watcher.Prelude.{
  inr, inl, ◌∙◌, Bool-cases, sym, true, ◌≡◌, refl, ap, Option, none, some, List, ◌∷◌, Text,
  if◌then◌else◌,
}
use dialtone_watcher.Float.{Float64}
use dialtone_watcher.Netip.{Netip}
use dialtone_watcher.Records.{Summary}
use dialtone_watcher.Service.{Process, Service}
use dialtone_watcher.Service.Processes.{poll_processes_locked}
use dialtone_watcher.Service.Summary.{current_summary_locked}
use dialtone_watcher.Service.Traffic.{poll_domains_locked}
use dialtone_watcher.Service.Poll.{
  Surroundings, count_poll, is_due, upload, apply_lookup, take_poll, poll_once,
}

-- The service with the address that the worker looks up.
pub record Held (F : Type 0) : Type 0 where
  pub service : Service F
  pub in_flight : Option Text

module _ {F : Type 0} where
  abbrev pub act : (Service F → Service F) → Held F → Held F
  act f h = record h { service = f h.service }

  -- `for ip := range queue` takes an address
  abbrev pub taken : Text → List Text → Held F → Held F
  taken host rest h = record {
    service = record h.service { lookups = record h.service.lookups { lookup_queue = rest } };
    in_flight = some host;
  }

  -- the worker finishes with the name that it found
  abbrev pub finished : Text → Text → Held F → Held F
  finished host name h = record { service = apply_lookup host name h.service; in_flight = none }

  -- What the worker may do.
  pub data Work (h : Held F) : Held F → Type 0 where
    rests : Work h h
    takes :
        (host : Text) (rest : List Text) {t : Held F}
        → Work h t
        → t.in_flight ≡ none
        → t.service.lookups.lookup_queue ≡ host ∷ rest
        → Work h (taken host rest t)
    finishes :
        (host name : Text) {t : Held F}
        → Work h t
        → t.in_flight ≡ some host
        → Work h (finished host name t)

  Work-trans : {h m t : Held F} → Work h m → Work m t → Work h t
  Work-trans a rests = a
  Work-trans a (takes host rest w idle q) = takes host rest (Work-trans a w) idle q
  Work-trans a (finishes host name w busy) = finishes host name (Work-trans a w) busy

module _ {F : Type 0} ⦃fl : Float64 F⦄ ⦃ip : Netip⦄ (processes : List (Process F))
    (e : Surroundings F) where
  abbrev pub observed : Service F → Service F
  observed s = elim e.observations [
    | none ↦ s
    | some observations ↦ poll_domains_locked observations e.now s
  ]

  -- the upload that the third stretch, which left `counted`, asks for
  abbrev pub sent : Service F → Service F → Service F
  sent counted s =
      if is_due e.now counted.uploader
      then upload e.web e.now (current_summary_locked e.self true counted) s
      else s

  -- A poll as it runs: the worker may work behind each stretch.
  pub record Spread (h last : Held F) : Type 0 where
    pub first : Held F
    pub second : Held F
    pub third : Held F
    pub behind_processes : Work (act (poll_processes_locked processes e.now) h) first
    pub behind_traffic : Work (act observed first) second
    pub behind_count : Work (act (count_poll e.now) second) third
    pub behind_upload : Work (act (sent (count_poll e.now second.service)) third) last

  -- the first two stretches, and what follows, in one piece each
  abbrev pub watched : Service F → Service F
  watched s = observed (poll_processes_locked processes e.now s)

  abbrev pub reported : Service F → Service F
  reported s = sent (count_poll e.now s) (count_poll e.now s)

  -- The same poll in two pieces, with the worker before, between and behind them.
  pub record Serial (h last : Held F) : Type 0 where
    pub begin : Held F
    pub middle : Held F
    pub before : Work h begin
    pub between : Work (act watched begin) middle
    pub behind : Work (act reported middle) last

  -- A worker's steps behind the first stretch, moved before it.
  pub record Moved (h t : Held F) : Type 0 where
    pub begin : Held F
    pub before : Work h begin
    pub same : t ≡ act (poll_processes_locked processes e.now) begin

  move_takes :
      (host : Text) (rest : List Text) {h t : Held F}
      → t.in_flight ≡ none
      → t.service.lookups.lookup_queue ≡ host ∷ rest
      → Moved h t
      → Moved h (taken host rest t)
  unfolding poll_processes_locked
  move_takes host rest idle q m = record {
    begin = taken host rest m.begin;
    before =
        takes host rest m.before (ap (λ x. x.in_flight) (sym m.same) ∙ idle)
          (ap (λ x. x.service.lookups.lookup_queue) (sym m.same) ∙ q);
    same = ap (taken host rest) m.same;
  }

  move_finishes :
      (host name : Text) {h t : Held F}
      → t.in_flight ≡ some host
      → Moved h t
      → Moved h (finished host name t)
  unfolding poll_processes_locked apply_lookup
  move_finishes host name busy m = record {
    begin = finished host name m.begin;
    before = finishes host name m.before (ap (λ x. x.in_flight) (sym m.same) ∙ busy);
    same = ap (finished host name) m.same;
  }

  Work-Moved : {h t : Held F} → Work (act (poll_processes_locked processes e.now) h) t → Moved h t
  Work-Moved {h} rests = record { begin = h; before = rests; same = refl }
  Work-Moved (takes host rest w idle q) = move_takes host rest idle q (Work-Moved w)
  Work-Moved (finishes host name w busy) = move_finishes host name busy (Work-Moved w)

  -- a worker's steps before the upload are steps behind it
  Work-upload :
      (summary : Summary F) {h t : Held F}
      → Work h t
      → Work (act (upload e.web e.now summary) h) (act (upload e.web e.now summary) t)
  unfolding upload apply_lookup
  Work-upload summary rests = rests
  Work-upload summary (takes host rest w idle q) = takes host rest (Work-upload summary w) idle q
  Work-upload summary (finishes host name w busy) = finishes host name (Work-upload summary w) busy

  Work-sent :
      (counted : Service F) {h t : Held F}
      → Work h t
      → Work (act (sent counted) h) (act (sent counted) t)
  Work-sent counted w = elim (Bool-cases (is_due e.now counted.uploader)) [
    | inl due ↦ rw due (Work-upload (current_summary_locked e.self true counted) w)
    | inr early ↦ rw early w
  ]

  Spread-Serial : {h last : Held F} → Spread h last → Serial h last
  Spread-Serial p =
      let m = Work-Moved p.behind_processes in
      record {
        begin = m.begin;
        middle = p.second;
        before = m.before;
        between = subst (λ x. Work (act observed x) p.second) m.same p.behind_traffic;
        behind =
            Work-trans (Work-sent (count_poll e.now p.second.service) p.behind_count)
              p.behind_upload;
      }

  poll_once-pieces :
      e.processes ≡ some processes
      → (s : Service F) → (poll_once e s).service ≡ reported (watched s)
  unfolding poll_once take_poll
  poll_once-pieces listed s = rw listed refl

  -- A poll that the worker interrupts behind each of its stretches leaves what the same poll in two
  -- pieces leaves, with the worker before, between and behind them: first the processes and the
  -- traffic, then the count and the upload. The two pieces in a row are `pollOnce` without a worker.
  pub spread-Serial :
      {h last : Held F}
      → e.processes ≡ some processes
      → Spread h last
      → Serial h last × ((s : Service F) → (poll_once e s).service ≡ reported (watched s))
  spread-Serial listed p = (Spread-Serial p, poll_once-pieces listed)
