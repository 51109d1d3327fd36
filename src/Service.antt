-- ===== src/Service.antt =====
-- `service` of internal/watcher/watcher.go. The mutex makes each of the operations below one step; an
-- uploader that is `nil` is `none`. Hardware, processes and connections come from outside, so a
-- poll takes them as arguments.
pub mod Daemon
pub mod Invariant
pub mod Poll
pub mod Processes
pub mod Summary
pub mod Traffic
use dialtone_watcher.Prelude.{ℕ, Option, none, some, List, [], Text}
use dialtone_watcher.Prelude.Int.{ℤ}
use dialtone_watcher.Dict.{Dict}
use dialtone_watcher.Records.{ProcessRecord, DomainRecord, ConnectionRecord, HardwareProfile}
use dialtone_watcher.Network.{NetworkConnectionSample}
use dialtone_watcher.Lookups.{Lookups}
use dialtone_watcher.Uploader.{Uploader}

pub record Service (F : Type 0) : Type 0 where
  pub hardware : HardwareProfile F
  pub uploader : Option (Uploader F)
  pub polls : ℕ
  pub pids : Dict ℤ (ProcessRecord F)
  pub domains : Dict Text DomainRecord
  pub connections : Dict Text ConnectionRecord
  pub network_samples : Dict Text NetworkConnectionSample
  pub lookups : Lookups

-- A process as gopsutil shows it: each reading may fail, and the memory reading may be missing.
pub record Process (F : Type 0) : Type 0 where
  pub pid : ℤ
  pub name : Option Text
  pub cmdline : Option Text
  pub cpu_percent : Option F
  pub memory_rss : Option (Option ℕ)
