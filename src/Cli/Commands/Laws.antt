-- ===== src/Cli/Commands/Laws.antt =====
-- What `startWatcher` and `stopWatcher` of main.go do to the system.
use dialtone_watcher.Prelude.{
  ◌≡◌, ◌≢◌, ◌⊎◌, ◌↔◌, inl, inr, true, ◌&&◌, Option, none, some, [], ◌∷◌, refl, arith, Bool-cases,
  Option-cases,
}
use dialtone_watcher.Prelude.Int.{ℤ, pos, ltb_ℤ}
use dialtone_watcher.State.{Status, File, holds, not_exist, read_error}
use dialtone_watcher.Cli.Commands.{
  stop_recorded, start_unless, send_term, System, is_running, start_watcher, stop_watcher,
}

module _ {F : Type 0} (sys : System F) where
  -- The status names a process with a positive number that can be found and answers.
  abbrev pub IsAlive : File Status → Type 0
  IsAlive (holds s) =
      (ltb_ℤ (pos 0) s.pid ≡ true) × (sys.finds s.pid ≡ true) × (sys.answers s.pid ≡ true)
  IsAlive not_exist = ⊥
  IsAlive read_error = ⊥

  is_running_lem :
      (file : File Status)
      → ((is_running sys file ≡ none) × ¬ IsAlive file)
        ⊎ ((pid : ℤ) × (is_running sys file ≡ some pid) × IsAlive file)
  is_running_lem (holds s) =
      elim (Bool-cases (ltb_ℤ (pos 0) s.pid && (sys.finds s.pid && sys.answers s.pid))) [
        | inl e ↦ rw (e) (inr (s.pid, refl, ground arith))
        | inr e ↦ rw (e) (inl (refl, λ alive. ground arith))
      ]
  is_running_lem not_exist = inl (refl, λ alive. alive)
  is_running_lem read_error = inl (refl, λ alive. alive)

  start_unless_lem :
      (file : File Status) (detached : Option ℤ)
      → (((start_unless sys (is_running sys file) detached).actions ≡ []) ↔ IsAlive file)
        × (((start_unless sys (is_running sys file) detached).error ≡ none)
            ↔ (IsAlive file ⊎ (detached ≢ none)))
  start_unless_lem file detached = elim (is_running_lem file) [
    | inr (pid, e, alive) ↦ rw (e) (((λ _. alive), (λ _. refl)), ((λ _. inl alive), (λ _. refl)))
    | inl (e, dead) ↦ elim (Option-cases detached) [
      | inl f ↦
          rw (e, f)
            (
              ((λ h. absurd (ground (arith, h))), (λ alive. absurd (dead alive))),
              (
                (λ h. absurd (ground (arith, h))),
                (λ h. elim h [ inl alive ↦ absurd (dead alive) | inr other ↦ absurd (other refl) ]),
              ),
            )
      | inr (pid, f) ↦
          rw (e, f)
            (
              ((λ h. absurd (ground (arith, h))), (λ alive. absurd (dead alive))),
              ((λ _. inr (λ h. ground (arith, h))), (λ _. refl)),
            )
    ]
  ]

  -- `start` leaves the system alone exactly if the recorded process is alive, and it ends without an
  -- error exactly if that process is alive or a new one could be started.
  pub start_watcher_iff :
      (((start_watcher sys).actions ≡ []) ↔ IsAlive sys.status)
      × (((start_watcher sys).error ≡ none) ↔ (IsAlive sys.status ⊎ (sys.detached ≢ none)))
  unfolding start_watcher
  start_watcher_iff = start_unless_lem sys.status sys.detached

  -- The status names the process, and it can be found.
  abbrev pub IsFound : ℤ → File Status → Type 0
  IsFound pid (holds s) = (s.pid ≡ pid) × (sys.finds pid ≡ true)
  IsFound pid not_exist = ⊥
  IsFound pid read_error = ⊥

  -- There is no status, or its process is found and takes the signal.
  abbrev pub IsStoppable : File Status → Type 0
  IsStoppable (holds s) = (sys.finds s.pid ≡ true) × (sys.terminates s.pid ≡ true)
  IsStoppable not_exist = Unit
  IsStoppable read_error = ⊥

  stop_recorded_lem :
      (file : File Status) (pid : ℤ)
      → (((stop_recorded sys file).actions ≡ send_term pid ∷ []) ↔ IsFound pid file)
        × (((stop_recorded sys file).error ≡ none) ↔ IsStoppable file)
  stop_recorded_lem (holds s) pid = elim (Bool-cases (sys.finds s.pid)) [
    | inr e ↦ rw (e) (ground arith)
    | inl e ↦ elim (Bool-cases (sys.terminates s.pid)) [
      | inl f ↦ rw (e, f) (ground arith)
      | inr f ↦ rw (e, f) (ground arith)
    ]
  ]
  stop_recorded_lem not_exist pid = (ground arith)
  stop_recorded_lem read_error pid = (ground arith)

  -- `stop` sends a signal to a process exactly if the status names it and it can be found, and it ends
  -- without an error exactly if there is no status or that process took the signal.
  pub stop_watcher_iff :
      (pid : ℤ)
      → (((stop_watcher sys).actions ≡ send_term pid ∷ []) ↔ IsFound pid sys.status)
        × (((stop_watcher sys).error ≡ none) ↔ IsStoppable sys.status)
  unfolding stop_watcher
  stop_watcher_iff pid = stop_recorded_lem sys.status pid

  -- `start` leaves the system alone exactly if the recorded process is alive, and ends without an error
  -- exactly if it is alive or a new one could be started; `stop` sends a signal to a process exactly if
  -- the status names it and it can be found, and ends without an error exactly if there is no status or
  -- that process took the signal.
  pub commands_iff :
      (pid : ℤ)
      → (((start_watcher sys).actions ≡ []) ↔ IsAlive sys.status)
        × (((start_watcher sys).error ≡ none) ↔ (IsAlive sys.status ⊎ (sys.detached ≢ none)))
        × (((stop_watcher sys).actions ≡ send_term pid ∷ []) ↔ IsFound pid sys.status)
        × (((stop_watcher sys).error ≡ none) ↔ IsStoppable sys.status)
  commands_iff pid =
      let (starts, start_error) = start_watcher_iff in
      let (stops, stop_error) = stop_watcher_iff pid in (starts, start_error, stops, stop_error)
