-- ===== src/Records.antt =====
-- The records of internal/watcher/state.go and internal/watcher/hardware.go that summaries hold,
-- over a type `F` of floats.
use dialtone_watcher.Prelude.{ℕ, Bool, List, Text}
use dialtone_watcher.Prelude.Int.{ℤ}

pub record ProcessSnapshot (F : Type 0) : Type 0 where
  pub pid : ℤ
  pub name : Text
  pub command : Text
  pub cpu_percent : F
  pub memory_rss_mb : F
  pub polls_seen : ℕ

pub record DomainSnapshot : Type 0 where
  pub domain : Text
  pub display_name : Text
  pub rx_bytes : ℕ
  pub tx_bytes : ℕ
  pub polls_seen : ℕ

pub record ConnectionSnapshot : Type 0 where
  pub pid : ℤ
  pub process_name : Text
  pub domain : Text
  pub display_name : Text
  pub protocol : Text
  pub rx_bytes : ℕ
  pub tx_bytes : ℕ
  pub polls_seen : ℕ

pub record HardwareProfile (F : Type 0) : Type 0 where
  pub hostname : Text
  pub os : Text
  pub platform : Text
  pub platform_version : Text
  pub kernel_version : Text
  pub uptime_seconds : ℕ
  pub cpu_model : Text
  pub cpu_physical_cores : ℤ
  pub cpu_logical_cores : ℤ
  pub cpu_frequency_mhz : F
  pub total_memory_gb : F
  pub total_disk_gb : F

pub record Summary (F : Type 0) : Type 0 where
  pub pid : ℤ
  pub pid_namespace : Text
  pub running : Bool
  pub poll_count : ℕ
  pub tracked_process_count : ℕ
  pub hardware : HardwareProfile F
  pub tracked_domain_count : ℕ
  pub tracked_connection_count : ℕ
  pub top_process : ProcessSnapshot F
  pub top_processes : List (ProcessSnapshot F)
  pub top_domains : List DomainSnapshot
  pub top_connections : List ConnectionSnapshot

-- `processRecord`, `domainRecord` and `connectionRecord` of internal/watcher/watcher.go: a snapshot
-- and the time of the last poll that saw it.
pub record ProcessRecord (F : Type 0) : Type 0 where
  pub snapshot : ProcessSnapshot F
  pub open snapshot use *
  pub last_seen : ℕ

pub record DomainRecord : Type 0 where
  pub snapshot : DomainSnapshot
  pub open snapshot use *
  pub last_seen : ℕ

pub record ConnectionRecord : Type 0 where
  pub snapshot : ConnectionSnapshot
  pub open snapshot use *
  pub last_seen : ℕ
