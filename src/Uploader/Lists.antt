-- ===== src/Uploader/Lists.antt =====
-- The lists of an upload: `allUploadProcesses`, `allUploadDomains` and `allUploadConnections` of
-- internal/watcher/upload.go. A `nil` slice is the empty list, as is an empty one.
pub mod Laws
pub mod Processes
use dialtone_watcher.Prelude.{
  Bool, not, ◌&&◌, ◌||◌, List, [], Text, is_empty, ltb, nat_beq, if◌then◌else◌, keep, map,
}
use dialtone_watcher.Prelude.Int.{ℤ}
use dialtone_watcher.Words.{add64}
use dialtone_watcher.Float.{Float64}
use dialtone_watcher.Netip.{Netip}
use dialtone_watcher.Hosts.{is_public_ip, normalize_resolved_host}
use dialtone_watcher.Sort.{sort_slice}
use dialtone_watcher.Dict.{Dict, values}
use dialtone_watcher.Uploader.{ProcessUploadRecord, DomainUploadRecord, ConnectionUploadRecord}

module _ {F : Type 0} ⦃fl : Float64 F⦄ where
  open fl use {flt, feq}

  abbrev pub process_before : ProcessUploadRecord F → ProcessUploadRecord F → Bool
  process_before a b =
      if feq a.average_cpu b.average_cpu
      then (if feq a.average_rss_mb b.average_rss_mb
          then ltb b.polls_seen a.polls_seen
          else flt b.average_rss_mb a.average_rss_mb)
      else flt b.average_cpu a.average_cpu

  abbrev pub is_uploaded_process : ProcessUploadRecord F → Bool
  is_uploaded_process r = not (is_empty r.name || nat_beq r.polls_seen 0)

  abbrev pub hide_command : ProcessUploadRecord F → ProcessUploadRecord F
  hide_command r = if not r.command_present then record r { command = [] } else r

  unfoldable pub all_upload_processes :
      Dict ℤ (ProcessUploadRecord F) → List (ProcessUploadRecord F)
  all_upload_processes records =
      sort_slice process_before (map hide_command (keep is_uploaded_process (values records)))

abbrev pub domain_before : DomainUploadRecord → DomainUploadRecord → Bool
domain_before a b =
    let left = add64 a.rx_bytes a.tx_bytes in
    let right = add64 b.rx_bytes b.tx_bytes in
    if nat_beq left right then ltb b.polls_seen a.polls_seen else ltb right left

abbrev pub connection_before : ConnectionUploadRecord → ConnectionUploadRecord → Bool
connection_before a b =
    let left = add64 a.rx_bytes a.tx_bytes in
    let right = add64 b.rx_bytes b.tx_bytes in
    if nat_beq left right then ltb b.polls_seen a.polls_seen else ltb right left

module _ ⦃ip : Netip⦄ where
  -- an address that no name was found for
  abbrev pub is_unresolved : Text → Text → Bool
  is_unresolved display_name domain =
      is_empty (normalize_resolved_host display_name) && is_public_ip domain

  unfoldable pub all_upload_domains : Dict Text DomainUploadRecord → List DomainUploadRecord
  all_upload_domains records =
      sort_slice domain_before
        (keep (λ r. not (is_unresolved r.display_name r.domain)) (values records))

  unfoldable pub all_upload_connections :
      Dict Text ConnectionUploadRecord → List ConnectionUploadRecord
  all_upload_connections records =
      sort_slice connection_before
        (keep (λ r. not (is_unresolved r.display_name r.domain)) (values records))
