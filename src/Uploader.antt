-- ===== src/Uploader.antt =====
-- The upload window of internal/watcher/upload.go. A `nil` uploader is `none` in the service,
-- where its methods' guards stand.
pub mod Config
pub mod Flush
pub mod Ledger
pub mod Lists
pub mod Payload
pub mod Recording
pub mod Window
use dialtone_watcher.Prelude.{ℕ, Bool, List, [], Text}
use dialtone_watcher.Prelude.Int.{ℤ}
use dialtone_watcher.Clock.{Time, Duration}
use dialtone_watcher.Dict.{Dict}

pub record UploadConfig : Type 0 where
  pub enabled : Bool
  pub endpoint : Text
  pub interval : Duration
  pub timeout : Duration

pub record ProcessUploadRecord (F : Type 0) : Type 0 where
  pub pid : ℤ
  pub name : Text
  pub command : Text
  pub average_cpu : F
  pub peak_cpu : F
  pub average_rss_mb : F
  pub peak_rss_mb : F
  pub polls_seen : ℕ
  pub command_present : Bool
  pub cpu_total : F
  pub rss_total : F

pub record DomainUploadRecord : Type 0 where
  pub domain : Text
  pub display_name : Text
  pub rx_bytes : ℕ
  pub tx_bytes : ℕ
  pub polls_seen : ℕ

pub record ConnectionUploadRecord : Type 0 where
  pub pid : ℤ
  pub process_name : Text
  pub domain : Text
  pub display_name : Text
  pub protocol : Text
  pub rx_bytes : ℕ
  pub tx_bytes : ℕ
  pub polls_seen : ℕ

pub record UploadWindow (F : Type 0) : Type 0 where
  pub started_at : Time
  pub polls : ℕ
  pub max_tracked_processes : ℕ
  pub max_tracked_domains : ℕ
  pub max_tracked_connections : ℕ
  pub total_rx_bytes : ℕ
  pub total_tx_bytes : ℕ
  pub processes : Dict ℤ (ProcessUploadRecord F)
  pub domains : Dict Text DomainUploadRecord
  pub connections : Dict Text ConnectionUploadRecord

-- The `client` holds the timeout of the configuration and no more.
pub record Uploader (F : Type 0) : Type 0 where
  pub config : UploadConfig
  pub machine_id : Text
  pub window : UploadWindow F

-- `uploadWindow{startedAt: now, ...}`; at time zero, the window of a new uploader
abbrev pub empty_window : {F : Type 0} → Time → UploadWindow F
empty_window now = record {
  started_at = now;
  polls = 0;
  max_tracked_processes = 0;
  max_tracked_domains = 0;
  max_tracked_connections = 0;
  total_rx_bytes = 0;
  total_tx_bytes = 0;
  processes = [];
  domains = [];
  connections = [];
}
