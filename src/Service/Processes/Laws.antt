-- ===== src/Service/Processes/Laws.antt =====
-- The process table behind `pollProcessesLocked` of internal/watcher/watcher.go.
use dialtone_watcher.Prelude.{◌*◌, true, false, some, List, [], ◌∷◌, ◌++◌, ◌≡◌, refl, eq_iff, arith}
use dialtone_watcher.Prelude.Int.{ℤ, pos, int_eq, ltb_ℤ}
use dialtone_watcher.Clock.{Time, sub}
use dialtone_watcher.Float.{Float64}
use dialtone_watcher.Dict.{Dict, found_or, lookup, insert, IsDict}
use dialtone_watcher.Dict.Laws.{
  unless, AllEntries, lookup-insert, lookup-insert_self, insert-IsDict, lookup-delete_if,
  delete_if-IsDict, delete_if-AllEntries, upsert-AllEntries,
}
use dialtone_watcher.Records.{ProcessRecord}
use dialtone_watcher.Service.{Service, Process}
use dialtone_watcher.Service.Processes.{
  poll_interval, fresh_process_record, refresh_process, see_processes, is_current, is_gone,
  poll_processes_locked,
}

-- Each record stands under its own process id.
pub record IsProcessTable {F : Type 0} (pids : Dict ℤ (ProcessRecord F)) : Type 0 where
  pub dict : IsDict pids
  pub named : AllEntries (λ pid (r : ProcessRecord F). r.pid ≡ pid) pids

module _ {F : Type 0} ⦃fl : Float64 F⦄ (now : Time) where
  see_processes-IsDict :
      (processes : List (Process F)) (pids : Dict ℤ (ProcessRecord F))
      → IsDict pids
      → IsDict (see_processes now processes pids)
  unfolding see_processes
  see_processes-IsDict [] pids h = h
  see_processes-IsDict (proc ∷ processes) pids h =
      see_processes-IsDict processes _ (insert-IsDict proc.pid _ pids h)

  see_processes-named :
      (processes : List (Process F)) (pids : Dict ℤ (ProcessRecord F))
      → AllEntries (λ pid (r : ProcessRecord F). r.pid ≡ pid) pids
      → AllEntries (λ pid (r : ProcessRecord F). r.pid ≡ pid) (see_processes now processes pids)
  unfolding see_processes
  see_processes-named [] pids h = h
  see_processes-named (proc ∷ processes) pids h = see_processes-named processes _ (
      upsert-AllEntries (λ pid (r : ProcessRecord F). r.pid ≡ pid) proc.pid
        (fresh_process_record proc.pid) (refresh_process now proc) pids refl (λ v p. p) h)

  -- a process that a list does not show keeps its record through the loop
  see_processes_absent :
      (pid : ℤ) (processes : List (Process F)) (pids : Dict ℤ (ProcessRecord F))
      → is_current processes pid ≡ false
      → lookup pid (see_processes now processes pids) ≡ lookup pid pids
  unfolding see_processes
  see_processes_absent pid [] pids h = refl
  see_processes_absent pid (proc ∷ processes) pids h = ground (
    arith,
    see_processes_absent pid processes (
        insert proc.pid
          (refresh_process now proc
            (found_or (lookup proc.pid pids) (fresh_process_record proc.pid)))
          pids),
    lookup-insert proc.pid pid
        (refresh_process now proc (found_or (lookup proc.pid pids) (fresh_process_record proc.pid)))
        pids,
  )

  see_processes_listed :
      (proc : Process F) (before behind : List (Process F)) (pids : Dict ℤ (ProcessRecord F))
      → is_current before proc.pid ≡ false
      → is_current behind proc.pid ≡ false
      → lookup proc.pid (see_processes now (before ++ proc ∷ behind) pids)
        ≡ some (
            refresh_process now proc
              (found_or (lookup proc.pid pids) (fresh_process_record proc.pid)))
  unfolding see_processes
  see_processes_listed proc [] behind pids h k = ground (
    arith,
    see_processes_absent proc.pid behind
        (insert proc.pid
          (refresh_process now proc
            (found_or (lookup proc.pid pids) (fresh_process_record proc.pid)))
          pids)
        k,
    lookup-insert_self proc.pid
        (refresh_process now proc (found_or (lookup proc.pid pids) (fresh_process_record proc.pid)))
        pids,
  )
  see_processes_listed proc (other ∷ before) behind pids h k = ground (
    arith,
    see_processes_listed proc before behind (
        insert other.pid
          (refresh_process now other
            (found_or (lookup other.pid pids) (fresh_process_record other.pid)))
          pids),
    lookup-insert other.pid proc.pid
        (refresh_process now other
          (found_or (lookup other.pid pids) (fresh_process_record other.pid)))
        pids,
  )

  is_current_listed :
      (proc : Process F) (before behind : List (Process F))
      → is_current (before ++ proc ∷ behind) proc.pid ≡ true
  is_current_listed proc [] behind = ground (arith, eq_iff proc.pid proc.pid)
  is_current_listed proc (other ∷ before) behind =
      ground (arith, is_current_listed proc before behind)

  pub poll_processes_locked-IsProcessTable :
      (processes : List (Process F)) (s : Service F)
      → IsProcessTable s.pids
      → IsProcessTable (poll_processes_locked processes now s).pids
  unfolding poll_processes_locked
  poll_processes_locked-IsProcessTable processes s h = record {
    dict = delete_if-IsDict _ _ (see_processes-IsDict processes s.pids h.dict);
    named = delete_if-AllEntries _ _ _ (see_processes-named processes s.pids h.named);
  }

  -- After a poll, a process that the system listed once has the record that it had before, or a
  -- fresh one, with this poll's readings, one more poll seen, and the poll's time.
  pub poll_processes_locked_listed :
      (proc : Process F) (before behind : List (Process F)) (s : Service F)
      → IsDict s.pids
      → is_current before proc.pid ≡ false
      → is_current behind proc.pid ≡ false
      → lookup proc.pid (poll_processes_locked (before ++ proc ∷ behind) now s).pids
        ≡ some (
            refresh_process now proc
              (found_or (lookup proc.pid s.pids) (fresh_process_record proc.pid)))
  unfolding poll_processes_locked
  poll_processes_locked_listed proc before behind s h a b = ground (
    arith,
    lookup-delete_if (is_gone now (before ++ proc ∷ behind)) proc.pid
        (see_processes now (before ++ proc ∷ behind) s.pids)
        (see_processes-IsDict (before ++ proc ∷ behind) s.pids h),
    see_processes_listed proc before behind s.pids a b,
    is_current_listed proc before behind,
  )

  -- After a poll, a process that the system did not list has the record that it had before, unless it
  -- was last seen more than two poll intervals ago: then it has none.
  pub poll_processes_locked_absent :
      (pid : ℤ) (processes : List (Process F)) (s : Service F)
      → IsDict s.pids
      → is_current processes pid ≡ false
      → lookup pid (poll_processes_locked processes now s).pids
        ≡ unless (λ r. ltb_ℤ (pos (poll_interval * 2)) (sub now r.last_seen)) (lookup pid s.pids)
  unfolding poll_processes_locked
  poll_processes_locked_absent pid processes s h a = ground (
    arith,
    lookup-delete_if (is_gone now processes) pid (see_processes now processes s.pids)
        (see_processes-IsDict processes s.pids h),
    see_processes_absent pid processes s.pids a,
  )
