-- ===== src/Service/Processes.antt =====
-- `pollProcessesLocked` of internal/watcher/watcher.go and the readings it makes.
pub mod Laws
pub mod Refreshed
use dialtone_watcher.Prelude.{
  ℕ, ◌*◌, Bool, true, false, not, ◌&&◌, ◌||◌, Option, none, some, List, [], ◌∷◌, Text, ◌==◌,
  if◌then◌else◌,
}
use dialtone_watcher.Prelude.Int.{ℤ, pos, int_eq, ltb_ℤ}
use dialtone_watcher.Words.{add64}
use dialtone_watcher.Clock.{Time, second, sub}
use dialtone_watcher.Float.{Float64}
use dialtone_watcher.Dict.{Dict, found_or, lookup, insert, delete_if}
use dialtone_watcher.Dict.Laws.{map_option}
use dialtone_watcher.Records.{ProcessRecord}
use dialtone_watcher.Uploader.Recording.{record_processes}
use dialtone_watcher.Service.{Service, Process}

-- `pollInterval`, in nanoseconds
abbrev pub poll_interval : ℕ
poll_interval = 5 * second

abbrev pub safe_string : Option Text → Text
safe_string none = []
safe_string (some value) = value

module _ {F : Type 0} ⦃fl : Float64 F⦄ where
  open fl use {fzero, fdiv, from_uint}

  abbrev pub safe_float : Option F → F
  safe_float none = fzero
  safe_float (some value) = value

  abbrev pub read_rss_mb : Option (Option ℕ) → F
  read_rss_mb none = fzero
  read_rss_mb (some none) = fzero
  read_rss_mb (some (some rss)) = fdiv (from_uint rss) (from_uint (1024 * 1024))

  unfoldable pub fresh_process_record : ℤ → ProcessRecord F
  fresh_process_record pid = record {
    snapshot = record {
      pid = pid;
      name = [];
      command = [];
      cpu_percent = fzero;
      memory_rss_mb = fzero;
      polls_seen = 0;
    };
    last_seen = 0;
  }

  unfoldable pub refresh_process : Time → Process F → ProcessRecord F → ProcessRecord F
  refresh_process now proc r = record {
    snapshot = record {
      pid = r.pid;
      name = safe_string proc.name;
      command = safe_string proc.cmdline;
      cpu_percent = safe_float proc.cpu_percent;
      memory_rss_mb = read_rss_mb proc.memory_rss;
      polls_seen = add64 r.polls_seen 1;
    };
    last_seen = now;
  }

  -- the first loop
  unfoldable pub see_processes :
      Time → List (Process F) → Dict ℤ (ProcessRecord F) → Dict ℤ (ProcessRecord F)
  unfolding fresh_process_record refresh_process
  see_processes now [] pids = pids
  see_processes now (proc ∷ processes) pids =
      let r = found_or (lookup proc.pid pids) (fresh_process_record proc.pid) in
      see_processes now processes (insert proc.pid (refresh_process now proc r) pids)

  -- `_, ok := current[pid]`
  abbrev pub is_current : List (Process F) → ℤ → Bool
  is_current [] pid = false
  is_current (proc ∷ processes) pid = proc.pid == pid || is_current processes pid

  abbrev pub is_gone : Time → List (Process F) → ℤ → ProcessRecord F → Bool
  is_gone now processes pid r =
      not (is_current processes pid) && ltb_ℤ (pos (poll_interval * 2)) (sub now r.last_seen)

  unfoldable pub poll_processes_locked : List (Process F) → Time → Service F → Service F
  unfolding see_processes
  poll_processes_locked processes now s =
      let pids = delete_if (is_gone now processes) (see_processes now processes s.pids) in
      record s { pids = pids; uploader = map_option (record_processes now pids) s.uploader }
