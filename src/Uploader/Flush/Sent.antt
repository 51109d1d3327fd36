-- ===== src/Uploader/Flush/Sent.antt =====
-- The lists of the payload of internal/watcher/upload.go against the upload window.
use dialtone_watcher.Prelude.{map, keep, All}
use mathlib.Core.List.{Perm}
use dialtone_watcher.Sort.Ranked.{IsRanked}
use dialtone_watcher.Uploader.Lists.Processes.{
  HasAverages, is_seen, with_command, ProcessAhead, all_upload_processes_lem,
}
use dialtone_watcher.Uploader.Lists.Laws.{
  is_carried, DomainAhead, ConnectionAhead, all_upload_domains_lem, all_upload_connections_lem,
}
use dialtone_watcher.Clock.{Time}
use dialtone_watcher.Float.{Float64}
use dialtone_watcher.Netip.{Netip}
use dialtone_watcher.Dict.{values}
use dialtone_watcher.Records.{HardwareProfile, Summary}
use dialtone_watcher.Uploader.{UploadWindow, Uploader}
use dialtone_watcher.Uploader.Flush.{WatcherUploadPayload, build_payload}

module _ {F : Type 0} ⦃fl : Float64 F⦄ ⦃ip : Netip⦄ (w : UploadWindow F) where
  -- The lists of a payload are those of the window.
  pub record Carries (payload : WatcherUploadPayload F) : Type 0 where
    pub processes : Perm payload.processes (map with_command (keep is_seen (values w.processes)))
    pub processes_in_order : IsRanked ProcessAhead payload.processes
    pub domains :
        Perm payload.domains (keep (λ r. is_carried r.display_name r.domain) (values w.domains))
    pub domains_in_order : IsRanked DomainAhead payload.domains
    pub connections :
        Perm payload.connections
          (keep (λ r. is_carried r.display_name r.domain) (values w.connections))
    pub connections_in_order : IsRanked ConnectionAhead payload.connections

module _ {F : Type 0} ⦃fl : Float64 F⦄ ⦃ip : Netip⦄ where
  -- A payload carries everything that its window recorded but for what may not be sent, each entry as
  -- often as recorded: the processes, if no average is a NaN, that have a name and were seen in a poll,
  -- without a command line if none was read, by descending average CPU use, then memory, then polls
  -- seen; and the domains and connections that are no public address or have a name to show, by
  -- descending traffic, then polls seen.
  pub build_payload-Carries :
      (now : Time) (hardware : HardwareProfile F) (summary : Summary F) (u : Uploader F)
      → All HasAverages (values u.window.processes)
      → Carries u.window (build_payload now hardware summary u)
  unfolding build_payload
  build_payload-Carries now hardware summary u h =
      let (p, p_order) = all_upload_processes_lem u.window.processes h in
      let (d, d_order) = all_upload_domains_lem u.window.domains in
      let (c, c_order) = all_upload_connections_lem u.window.connections in
      record {
        processes = p;
        processes_in_order = p_order;
        domains = d;
        domains_in_order = d_order;
        connections = c;
        connections_in_order = c_order;
      }
