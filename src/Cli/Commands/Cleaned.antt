-- ===== src/Cli/Commands/Cleaned.antt =====
-- `CleanStaleStatus` of internal/watcher/watcher.go beside a daemon, and the commands of main.go after it.
use dialtone_watcher.Netip.{Netip}
use dialtone_watcher.Prelude.{
  Option, ◌≡◌, ◌≢◌, ◌⊎◌, ◌∙◌, inl, inr, refl, ap, Bool, true, false, none, some, [], ◌∷◌, Text,
  Bool-cases,
}
use dialtone_watcher.Prelude.Int.{int_beq_iff, int_beq, ℤ, pos}
use dialtone_watcher.State.{
  should_verify_process_liveness, clean_status, Status, File, holds, not_exist, CleanError,
  load_error, remove_error, clean_stale_status,
}
use dialtone_watcher.State.Liveness.{should_verify_process_liveness_iff, IsVisible}
use dialtone_watcher.Service.Daemon.{
  Start, Files, Daemon, ended, launch, launched, Reach, own_status,
}
use dialtone_watcher.Service.Daemon.Registered.{status_at, launched_status}
use dialtone_watcher.Cli.Commands.{
  Float64, Option, System, start_detached, start_watcher, stop_watcher,
}
use dialtone_watcher.Cli.Commands.OnDaemon.{status_at-cases, without_status}

-- The process of a status is known to have gone: its number is not zero, this process can ask about it,
-- and it does not answer.
abbrev pub IsGone : Text → (ℤ → Bool) → Status → Type 0
IsGone current answers status =
    (status.pid ≢ pos 0) × IsVisible status.pid_namespace current × (answers status.pid ≡ false)

-- The commands that find no status: `stop` does nothing and `start` starts a daemon.
abbrev pub IsIdle : {F : Type 0} → System F → Type 0
IsIdle sys =
    ((stop_watcher sys).actions ≡ [])
    × ((stop_watcher sys).error ≡ none)
    × ((start_watcher sys).actions ≡ start_detached ∷ [])

module _ (current : Text) (answers : ℤ → Bool) (removable : Bool) where
  -- all that becomes of a status that was read
  abbrev IsCleaned : Status → File Status × Option CleanError → Type 0
  IsCleaned status o =
      (IsGone current answers status × (removable ≡ true) × (o ≡ (not_exist, none)))
      ⊎ ((IsGone current answers status
            × (removable ≡ false)
            × (o ≡ (holds status, some remove_error)))
          ⊎ ((¬ IsGone current answers status) × (o ≡ (holds status, none))))

  clean_stale_status-IsCleaned :
      (status : Status)
      → IsCleaned status (clean_stale_status current answers removable (holds status))
  unfolding clean_stale_status clean_status
  clean_stale_status-IsCleaned status = elim (Bool-cases (int_beq status.pid (pos 0))) [
    | inl nobody ↦
        rw nobody
          (inr (inr (λ (named, _, _). named ((int_beq_iff status.pid (pos 0)).0 nobody), refl)))
    | inr somebody ↦
        let named : status.pid ≢ pos 0 = λ h. cc ((int_beq_iff status.pid (pos 0)).1 h, somebody) in
        let visible = should_verify_process_liveness_iff status.pid_namespace current in
        elim (Bool-cases (should_verify_process_liveness status.pid_namespace current)) [
          | inr hidden ↦
              rw (somebody, hidden)
                (inr (inr (λ (_, shown, _). cc (visible.1 shown, hidden), refl)))
          | inl shown ↦ elim (Bool-cases (answers status.pid)) [
            | inl alive ↦ rw (somebody, shown, alive) (inr (inr (λ (_, _, gone). cc gone, refl)))
            | inr gone ↦ elim (Bool-cases removable) [
              | inl able ↦
                  rw (somebody, shown, gone, able)
                    (inl ((named, visible.0 shown, refl), refl, refl))
              | inr unable ↦
                  rw (somebody, shown, gone, unable)
                    (inr (inl ((named, visible.0 shown, refl), refl, refl)))
            ]
          ]
        ]
  ]

module _ {F : Type 0} ⦃fl : Float64 F⦄ ⦃ip : Netip⦄ (start : Start F) (files : Files F)
    {d t : Daemon F} (current : Text) (answers : ℤ → Bool) (removable : Bool) where
  -- What `CleanStaleStatus` does to the status file of a launched daemon, and what the commands do that
  -- find the file as it is then. Once `RunDaemon` has ended without an error there is no file, and that is
  -- the error. Until then, if this daemon's process has a number that is not zero, can be asked about and
  -- does not answer, the file is removed without an error, or it cannot be removed, stays, and that is
  -- the error. In any other case it stays without an error: that of a daemon that answers, or one of
  -- another namespace. Where there is no file, `stop` does nothing and ends without an error, and
  -- `start` starts a daemon.
  pub clean_on_daemon :
      (sys : System F)
      → launch start files ≡ launched d
      → Reach start.self d t
      → sys.status ≡ (clean_stale_status current answers removable t.files.status).0
      → ((t.main ≡ ended none)
          × (clean_stale_status current answers removable t.files.status
              ≡ (not_exist, some load_error))
          × IsIdle sys)
        ⊎ (((t.main ≢ ended none)
              × IsGone current answers (own_status start.self)
              × (((removable ≡ true)
                    × (clean_stale_status current answers removable t.files.status
                        ≡ (not_exist, none))
                    × IsIdle sys)
                  ⊎ ((removable ≡ false)
                      × (clean_stale_status current answers removable t.files.status
                          ≡ (holds (own_status start.self), some remove_error)))))
            ⊎ ((t.main ≢ ended none)
                × (¬ IsGone current answers (own_status start.self))
                × (clean_stale_status current answers removable t.files.status
                    ≡ (holds (own_status start.self), none))))
  unfolding clean_stale_status
  clean_on_daemon sys e r same =
      let status = launched_status start files e r in
      elim (status_at-cases start.self t.main) [
        | inl over ↦
            let missing = status ∙ ap (status_at start.self) over in
            let cleaned = ap (clean_stale_status current answers removable) missing in
            inl (over, cleaned, without_status sys (same ∙ ap (λ o. o.0) cleaned))
        | inr (on, own) ↦
            let cleaned = ap (clean_stale_status current answers removable) (status ∙ own) in
            elim (clean_stale_status-IsCleaned current answers removable (own_status start.self)) [
              | inl (gone, able, q) ↦ inr (
                  inl (
                    on,
                    gone,
                    inl (
                      able,
                      cleaned ∙ q,
                      without_status sys (same ∙ ap (λ o. o.0) (cleaned ∙ q)),
                    ),
                  ))
              | inr (inl (gone, unable, q)) ↦ inr (inl (on, gone, inr (unable, cleaned ∙ q)))
              | inr (inr (there, q)) ↦ inr (inr (on, there, cleaned ∙ q))
            ]
      ]
