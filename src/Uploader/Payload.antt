-- ===== src/Uploader/Payload.antt =====
-- The body of an upload and the hardware labels in it: `watcherUploadPayload` and `normalizeHardware`
-- of internal/watcher/upload.go.
use dialtone_watcher.Prelude.{
  ℕ, Bool, false, not, ◌&&◌, ◌||◌, List, [], ◌∷◌, Text, codes, is_empty, leb, if◌then◌else◌,
}
use dialtone_watcher.Prelude.Int.{ℤ}
use dialtone_watcher.Clock.{Time}
use dialtone_watcher.Strings.{trim_space, to_lower, trim}
use dialtone_watcher.Records.{HardwareProfile}
use dialtone_watcher.Uploader.{ProcessUploadRecord, DomainUploadRecord, ConnectionUploadRecord}

pub record UploadPeriod : Type 0 where
  pub started_at : Time
  pub ended_at : Time
  pub duration_seconds : ℤ
  pub polls : ℕ

pub record UploadCpu (F : Type 0) : Type 0 where
  pub model : Text
  pub model_normalized : Text
  pub physical_cores : ℤ
  pub logical_cores : ℤ
  pub frequency_mhz : F

-- `memory` and `disk` hold a `total_gb` each
pub record UploadHardware (F : Type 0) : Type 0 where
  pub cpu : UploadCpu F
  pub memory_total_gb : F
  pub disk_total_gb : F

pub record UploadMachine (F : Type 0) : Type 0 where
  pub hostname : Text
  pub os : Text
  pub platform : Text
  pub platform_version : Text
  pub kernel_version : Text
  pub hardware : UploadHardware F

pub record UploadSummary : Type 0 where
  pub running : Bool
  pub poll_count : ℕ
  pub tracked_process_count : ℕ
  pub tracked_domain_count : ℕ
  pub tracked_connection_count : ℕ
  pub total_rx_bytes : ℕ
  pub total_tx_bytes : ℕ

pub record WatcherUploadPayload (F : Type 0) : Type 0 where
  pub schema_version : ℕ
  pub sent_at : Time
  pub period : UploadPeriod
  pub machine : UploadMachine F
  pub summary : UploadSummary
  pub processes : List (ProcessUploadRecord F)
  pub domains : List DomainUploadRecord
  pub connections : List ConnectionUploadRecord

-- the bytes that `[^a-z0-9]+` does not match
abbrev pub is_label_byte : ℕ → Bool
is_label_byte c = leb b'a' c && leb c b'z' || leb b'0' c && leb c b'9'

-- `hardwareLabelPattern.ReplaceAllString(value, "_")`; the flag says that a run is being replaced
unfoldable pub replace_runs : Bool → Text → Text
replace_runs inside [] = []
replace_runs inside (c ∷ s) =
    let rest = replace_runs (not (is_label_byte c)) s in
    if is_label_byte c then c ∷ rest else if inside then rest else b'_' ∷ rest

unfoldable pub normalize_hardware_label : Text → Text
unfolding replace_runs
normalize_hardware_label value =
    let value' = to_lower (trim_space value) in
    if is_empty value' then [] else trim (replace_runs false value') (codes "_")

unfoldable pub normalize_hardware : {F : Type 0} → HardwareProfile F → UploadHardware F
normalize_hardware hardware = record {
  cpu = record {
    model = hardware.cpu_model;
    model_normalized = normalize_hardware_label hardware.cpu_model;
    physical_cores = hardware.cpu_physical_cores;
    logical_cores = hardware.cpu_logical_cores;
    frequency_mhz = hardware.cpu_frequency_mhz;
  };
  memory_total_gb = hardware.total_memory_gb;
  disk_total_gb = hardware.total_disk_gb;
}
