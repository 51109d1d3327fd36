-- ===== src/State/Liveness.antt =====
-- Recorded processes: `LoadSummary` and `shouldVerifyProcessLiveness` of internal/watcher/state.go.
use dialtone_watcher.Prelude.{
  ◌&&◌, ◌↔◌, Bool-cases, Bool, true, false, not, [], ◌∷◌, ◌≡◌, ◌≢◌, ◌⊎◌, inl, inr, refl, Text,
  arith, eq_iff, list_eq, nat_eq,
}
use dialtone_watcher.Prelude.Int.{int_beq, int_beq_iff, ℤ, pos, int_eq}
use dialtone_watcher.Records.{Summary}
use dialtone_watcher.State.{should_verify_process_liveness, check_summary}

-- The process can be asked about: the record names no namespace, or this one.
abbrev pub IsVisible : Text → Text → Type 0
IsVisible target current = (target ≡ []) ⊎ ((target ≢ []) × (target ≡ current))

visible_lem :
    (target current : Text)
    → should_verify_process_liveness target current ≡ true
    → IsVisible target current
unfolding should_verify_process_liveness
visible_lem [] current h = inl refl
visible_lem (c ∷ target) [] h = absurd (ground arith)
visible_lem (c ∷ target) (d ∷ current) h =
    inr (λ e. ground arith, (eq_iff (c ∷ target) (d ∷ current)).0 h)

visible_complete :
    (target current : Text)
    → IsVisible target current
    → should_verify_process_liveness target current ≡ true
unfolding should_verify_process_liveness
visible_complete [] current h = refl
visible_complete (c ∷ target) [] h = absurd (ground arith)
visible_complete (c ∷ target) (d ∷ current) h = ground (arith, eq_iff (c ∷ target) (d ∷ current))

-- The liveness of a recorded process is tested exactly if the record names no namespace, or the
-- namespace of this process.
pub should_verify_process_liveness_iff :
    (target current : Text)
    → (should_verify_process_liveness target current ≡ true) ↔ IsVisible target current
should_verify_process_liveness_iff target current =
    (visible_lem target current, visible_complete target current)

module _ {F : Type 0} (current : Text) (is_process_running : ℤ → Bool) where
  answers :
      (s : Summary F)
      → (should_verify_process_liveness s.pid_namespace current && not (is_process_running s.pid))
        ≡ false
      → (is_process_running s.pid ≡ true) ⊎ (¬ IsVisible s.pid_namespace current)
  answers s h = elim (Bool-cases (should_verify_process_liveness s.pid_namespace current)) [
    | inl shown ↦ inl (ground arith)
    | inr hidden ↦ inr (λ v. cc (visible_complete s.pid_namespace current v))
  ]

  -- What a loaded summary says: it is the summary that was written, marked as running, with a process
  -- that is not zero and that answers or is of another namespace; or it is marked as not running, with
  -- process zero.
  abbrev pub IsChecked : Summary F → Summary F → Type 0
  IsChecked s t =
      ((t.running ≡ true)
        × (t ≡ s)
        × (t.pid ≢ pos 0)
        × ((is_process_running t.pid ≡ true) ⊎ (¬ IsVisible t.pid_namespace current)))
      ⊎ ((t.running ≡ false) × (t.pid ≡ pos 0))

  -- A summary is never loaded as running when its process is zero, or known to have gone.
  pub check_summary-IsChecked :
      (s : Summary F) → IsChecked s (check_summary current is_process_running s)
  unfolding check_summary
  check_summary-IsChecked s = elim (Bool-cases s.running) [
    | inr stopped ↦ rw stopped (inr (refl, refl))
    | inl runs ↦ elim (Bool-cases (int_beq s.pid (pos 0))) [
      | inl nobody ↦ rw (runs, nobody) (inr (refl, refl))
      | inr somebody ↦
          elim (Bool-cases (
            should_verify_process_liveness s.pid_namespace current
            && not (is_process_running s.pid))) [
              | inl dead ↦ rw (runs, somebody, dead) (inr (refl, refl))
              | inr alive ↦
                  simp (runs, somebody, alive)
                    (inl (refl, refl, ground (arith, int_beq_iff s.pid (pos 0)), answers s alive))
            ]
    ]
  ]
