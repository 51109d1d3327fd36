-- ===== src/Cli/Commands/OnDaemon.antt =====
-- `startWatcher` and `stopWatcher` of main.go beside a daemon of internal/watcher/watcher.go.
use mathlib.Core.Path.{subst}
use dialtone_watcher.Prelude.{
  ◌≡◌, ◌≢◌, ◌⊎◌, ◌↔◌, inl, inr, refl, true, none, some, [], ◌∷◌, arith, ◌∙◌, ap, Option-cases,
}
use dialtone_watcher.Prelude.Int.{pos, ltb_ℤ}
use dialtone_watcher.Float.{Float64}
use dialtone_watcher.Netip.{Netip}
use dialtone_watcher.State.{Status, holds, not_exist}
use dialtone_watcher.Service.Summary.{Self}
use dialtone_watcher.Service.Daemon.{
  Start, Files, Daemon, Main, starting, waiting, stopped, seen, observed, uploading, failed, ended,
  launch, launched, Reach, own_status,
}
use dialtone_watcher.Service.Daemon.Registered.{status_at, launched_status}
use dialtone_watcher.Cli.Commands.{System, start_detached, send_term, start_watcher, stop_watcher}
use dialtone_watcher.Cli.Commands.Laws.{IsFound, IsAlive, start_watcher_iff, stop_watcher_iff}

module _ {F : Type 0} where
  pub status_at-cases :
      (self : Self) (m : Main F)
      → (m ≡ ended none) ⊎ ((m ≢ ended none) × (status_at self m ≡ holds (own_status self)))
  status_at-cases self starting = inr (λ h. absurd (ground arith), refl)
  status_at-cases self waiting = inr (λ h. absurd (ground arith), refl)
  status_at-cases self stopped = inr (λ h. absurd (ground arith), refl)
  status_at-cases self (seen first now) = inr (λ h. absurd (ground arith), refl)
  status_at-cases self (observed first now) = inr (λ h. absurd (ground arith), refl)
  status_at-cases self (uploading first now summary e) = inr (λ h. absurd (ground arith), refl)
  status_at-cases self (failed first e) = inr (λ h. absurd (ground arith), refl)
  status_at-cases self (ended none) = inl refl
  status_at-cases self (ended (some e)) = inr (λ h. absurd (ground arith), refl)

  pub without_status :
      (sys : System F)
      → sys.status ≡ not_exist
      → ((stop_watcher sys).actions ≡ [])
        × ((stop_watcher sys).error ≡ none)
        × ((start_watcher sys).actions ≡ start_detached ∷ [])
  unfolding stop_watcher start_watcher
  without_status sys missing = elim (Option-cases sys.detached) [
    | inl unable ↦ rw (stop_watcher, start_watcher, missing, unable) (refl, refl, refl)
    | inr (pid, able) ↦ rw (stop_watcher, start_watcher, missing, able) (refl, refl, refl)
  ]

  with_status :
      (sys : System F) (s : Status)
      → sys.status ≡ holds s
      → (((stop_watcher sys).actions ≡ send_term s.pid ∷ []) ↔ (sys.finds s.pid ≡ true))
        × (((start_watcher sys).actions ≡ []) ↔ (
            (ltb_ℤ (pos 0) s.pid ≡ true) × (sys.finds s.pid ≡ true) × (sys.answers s.pid ≡ true)))
  with_status sys s there =
      let (stops, stop_error) = stop_watcher_iff sys s.pid in
      let (starts, start_error) = start_watcher_iff sys in
      let found : ((stop_watcher sys).actions ≡ send_term s.pid ∷ [])
          ↔ IsFound sys s.pid (holds s) =
        subst (λ f. ((stop_watcher sys).actions ≡ send_term s.pid ∷ []) ↔ IsFound sys s.pid f) there
          stops in
      let alive : ((start_watcher sys).actions ≡ []) ↔ IsAlive sys (holds s) =
        subst (λ f. ((start_watcher sys).actions ≡ []) ↔ IsAlive sys f) there starts in
      (((λ h. (found.0 h).1), (λ h. found.1 (refl, h))), alive)

module _ {F : Type 0} ⦃fl : Float64 F⦄ ⦃ip : Netip⦄ (start : Start F) (files : Files F)
    {d t : Daemon F} (sys : System F) where
  -- The commands beside a launched daemon, if they find the status file as it is then. Once `RunDaemon` has
  -- ended without an error, `stop` does nothing and ends without an error, and `start` starts a daemon.
  -- Until then, `stop` sends the signal to this daemon's process exactly if the system finds it, and
  -- `start` leaves the system alone exactly if this process has a positive number, is found and answers.
  pub commands_on_daemon :
      launch start files ≡ launched d
      → Reach start.self d t
      → sys.status ≡ t.files.status
      → ((t.main ≡ ended none)
          × ((stop_watcher sys).actions ≡ [])
          × ((stop_watcher sys).error ≡ none)
          × ((start_watcher sys).actions ≡ start_detached ∷ []))
        ⊎ ((t.main ≢ ended none)
            × (((stop_watcher sys).actions ≡ send_term start.self.getpid ∷ [])
                ↔ (sys.finds start.self.getpid ≡ true))
            × (((start_watcher sys).actions ≡ []) ↔ (
                (ltb_ℤ (pos 0) start.self.getpid ≡ true)
                × (sys.finds start.self.getpid ≡ true)
                × (sys.answers start.self.getpid ≡ true))))
  commands_on_daemon e r same =
      let status = same ∙ launched_status start files e r in
      elim (status_at-cases start.self t.main) [
        | inl over ↦
            let (idle, fine, starts) =
              without_status sys (status ∙ ap (status_at start.self) over) in
            inl (over, idle, fine, starts)
        | inr (on, own) ↦
            let (stops, starts) = with_status sys (own_status start.self) (status ∙ own) in
            inr (on, stops, starts)
      ]
