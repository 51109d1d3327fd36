-- ===== src/Service/Processes/Refreshed.antt =====
-- The records of the processes behind `pollProcessesLocked` of internal/watcher/watcher.go, field by
-- field.
use dialtone_watcher.Prelude.{
  ℕ, ◌+◌, ◌*◌, false, Option, none, some, List, [], ◌∷◌, ◌++◌, ◌≡◌, refl, Text, arith, Option-cases,
  inl, inr,
}
use dialtone_watcher.Prelude.Int.{ℤ, pos, int_eq, ltb_ℤ}
use dialtone_watcher.Words.{add64}
use dialtone_watcher.Clock.{Time, second, sub}
use dialtone_watcher.Float.{Float64}
use dialtone_watcher.Dict.{lookup, found_or}
use dialtone_watcher.Dict.Laws.{unless, AllEntries-lookup}
use dialtone_watcher.Dict.Sum.{or_zero}
use dialtone_watcher.Records.{ProcessRecord}
use dialtone_watcher.Uploader.Window.{Agrees}
use dialtone_watcher.Service.{Service, Process}
use dialtone_watcher.Service.Processes.{
  safe_float, read_rss_mb, safe_string, fresh_process_record, refresh_process, is_current,
  poll_processes_locked,
}
use dialtone_watcher.Service.Processes.Laws.{
  IsProcessTable, poll_processes_locked_listed, poll_processes_locked_absent,
}

-- A field holds the reading, or the default where none could be made.
abbrev pub Holds : {A : Type 0} → Option A → A → A → Type 0
Holds none default x = x ≡ default
Holds (some reading) default x = x ≡ reading

string-Holds : (reading : Option Text) → Holds reading [] (safe_string reading)
string-Holds none = refl
string-Holds (some value) = refl

module _ {F : Type 0} ⦃fl : Float64 F⦄ where
  open fl use {fzero, fdiv, from_uint}

  -- The memory in units of 2 ^ 20 bytes: the system may give no answer, or one without memory.
  abbrev pub HoldsMemory : Option (Option ℕ) → F → Type 0
  HoldsMemory none x = x ≡ fzero
  HoldsMemory (some none) x = x ≡ fzero
  HoldsMemory (some (some bytes)) x = x ≡ fdiv (from_uint bytes) (from_uint 1048576)

  -- The record of a process that was listed, after the one that it had before, if any.
  pub record IsRefreshed (now : Time) (proc : Process F) (old : Option (ProcessRecord F))
      (r : ProcessRecord F) : Type 0 where
    pub pid : r.pid ≡ proc.pid
    pub name : Holds proc.name [] r.name
    pub command : Holds proc.cmdline [] r.command
    pub cpu_percent : Holds proc.cpu_percent fzero r.cpu_percent
    pub memory : HoldsMemory proc.memory_rss r.memory_rss_mb
    pub polls_seen : Agrees r.polls_seen (or_zero (λ q. q.polls_seen) old + 1)
    pub last_seen : r.last_seen ≡ now

  float-Holds : (reading : Option F) → Holds reading fzero (safe_float reading)
  float-Holds none = refl
  float-Holds (some value) = refl

  memory-HoldsMemory :
      (reading : Option (Option ℕ)) (m : F) → m ≡ read_rss_mb reading → HoldsMemory reading m
  memory-HoldsMemory none m e = e
  memory-HoldsMemory (some none) m e = e
  memory-HoldsMemory (some (some bytes)) m e = e

  module _ (now : Time) (proc : Process F) where
    refresh-IsRefreshed :
        (r : ProcessRecord F) (old : Option (ProcessRecord F))
        → r.pid ≡ proc.pid
        → r.polls_seen ≡ or_zero (λ q. q.polls_seen) old
        → IsRefreshed now proc old (refresh_process now proc r)
    unfolding refresh_process add64
    refresh-IsRefreshed r old same count = record {
      pid = same;
      name = string-Holds proc.name;
      command = string-Holds proc.cmdline;
      cpu_percent = float-Holds proc.cpu_percent;
      memory = memory-HoldsMemory proc.memory_rss _ refl;
      polls_seen = omega (arith, count);
      last_seen = refl;
    }

    refresh_lem :
        (s : Service F)
        → IsProcessTable s.pids
        → IsRefreshed now proc (lookup proc.pid s.pids) (
            refresh_process now proc
              (found_or (lookup proc.pid s.pids) (fresh_process_record proc.pid)))
    unfolding fresh_process_record
    refresh_lem s t = elim (Option-cases (lookup proc.pid s.pids)) [
      | inl fresh ↦ rw fresh (refresh-IsRefreshed _ none refl refl)
      | inr (r, known) ↦ rw known (
          refresh-IsRefreshed r (some r)
            (AllEntries-lookup (λ pid (q : ProcessRecord F). q.pid ≡ pid) proc.pid r s.pids t.named
              known)
            refl)
    ]

    -- After a poll, a process that the system listed once has a record under its number with the
    -- readings of this poll, or an empty text or zero where one could not be made, one more poll seen
    -- than before, as a `uint64` counter, or one, and the time of this poll; and a process that the system did not
    -- list has the record that it had before, unless that was last seen more than ten seconds ago:
    -- then it has none.
    pub poll_processes_locked_lem :
        (before behind : List (Process F)) (absent : ℤ) (s : Service F)
        → IsProcessTable s.pids
        → is_current before proc.pid ≡ false
        → is_current behind proc.pid ≡ false
        → is_current (before ++ proc ∷ behind) absent ≡ false
        → ((r : ProcessRecord F) × (lookup proc.pid
                (poll_processes_locked (before ++ proc ∷ behind) now s).pids
              ≡ some r)
            × IsRefreshed now proc (lookup proc.pid s.pids) r)
          × (lookup absent (poll_processes_locked (before ++ proc ∷ behind) now s).pids
              ≡ unless
                  (λ r. ltb_ℤ (pos (10 * second)) (sub now r.last_seen))
                  (lookup absent s.pids))
    poll_processes_locked_lem before behind absent s t a b c = (
      (_, poll_processes_locked_listed now proc before behind s t.dict a b, refresh_lem s t),
      poll_processes_locked_absent now absent (before ++ proc ∷ behind) s t.dict c,
    )
