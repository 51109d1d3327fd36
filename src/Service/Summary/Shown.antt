-- ===== src/Service/Summary/Shown.antt =====
-- The lists of the summary of internal/watcher/watcher.go against the service's tables.
use dialtone_watcher.Prelude.{Bool, List, ◌≡◌, ◌||◌, map, keep, All, refl}
use dialtone_watcher.Float.{Float64}
use dialtone_watcher.Netip.{Netip}
use dialtone_watcher.Dict.{values}
use dialtone_watcher.Records.{ProcessRecord, DomainRecord, ConnectionRecord, Summary}
use dialtone_watcher.Sort.{first, sort_slice}
use dialtone_watcher.Sort.Ranked.{IsTopBy, first-IsTopBy, keep_congr}
use dialtone_watcher.Service.{Service}
use dialtone_watcher.Service.Summary.{
  Self, process_before, domain_before, connection_before, current_summary_locked, top_processes,
  top_domains, top_connections,
}
use dialtone_watcher.Service.Summary.Laws.{
  HasNumbers, Any, All-Any, process_before-IsOrder, domain_before-IsOrder,
  connection_before-IsOrder,
}
use dialtone_watcher.Service.Summary.Ranks.{
  ProcessAhead, DomainAhead, ConnectionAhead, is_host_name, is_named_lem, process_before-Ahead,
  domain_before-Ahead, connection_before-Ahead,
}

module _ {F : Type 0} ⦃fl : Float64 F⦄ ⦃ip : Netip⦄ (s : Service F) where
  abbrev named_domains : List DomainRecord
  named_domains =
      keep (λ r. is_host_name r.display_name || is_host_name r.domain) (values s.domains)

  abbrev named_connections : List ConnectionRecord
  named_connections =
      keep (λ r. is_host_name r.display_name || is_host_name r.domain) (values s.connections)

  -- The records that a summary shows of the service's tables, each list ranked and with nothing left
  -- out that ranks above what it shows.
  pub record Shows (summary : Summary F) : Type 0 where
    pub processes : List (ProcessRecord F)
    pub domains : List DomainRecord
    pub connections : List ConnectionRecord
    pub shows_processes : summary.top_processes ≡ map (λ r. r.snapshot) processes
    pub top_processes : IsTopBy ProcessAhead 6 (values s.pids) processes
    pub shows_domains : summary.top_domains ≡ map (λ r. r.snapshot) domains
    pub top_domains : IsTopBy DomainAhead 60 named_domains domains
    pub shows_connections : summary.top_connections ≡ map (λ r. r.snapshot) connections
    pub top_connections : IsTopBy ConnectionAhead 20 named_connections connections

  domains_lem :
      top_domains 60 s.domains
      ≡ map (λ (r : DomainRecord). r.snapshot) (first 60 (sort_slice domain_before named_domains))
  unfolding top_domains
  domains_lem =
      rw
        (keep_congr _ _ (values s.domains)
          (λ (r : DomainRecord). is_named_lem r.display_name r.domain))
        refl

  connections_lem :
      top_connections 20 s.connections
      ≡ map
          (λ (r : ConnectionRecord). r.snapshot)
          (first 20 (sort_slice connection_before named_connections))
  unfolding top_connections
  connections_lem =
      rw
        (keep_congr _ _ (values s.connections)
          (λ (r : ConnectionRecord). is_named_lem r.display_name r.domain))
        refl

  -- A summary shows the 6 top processes, if no reading of a process is a NaN, by descending CPU use, then
  -- memory, then polls seen; of the domains with a name to show, which is a display name or a domain that
  -- is no public address and may stand for a host, the 60 top ones, by descending traffic, then bytes
  -- received, bytes sent and polls seen; and of the connections with one the 20 top ones, by
  -- descending traffic, then polls seen, then process name and domain in ascending order: each list is
  -- ranked, as long as its limit and its table allow, and nothing left out ranks above what it shows.
  pub current_summary-Shows :
      (self : Self) (running : Bool)
      → All HasNumbers (values s.pids)
      → Shows (current_summary_locked self running s)
  unfolding current_summary_locked top_processes
  current_summary-Shows self running h = record {
    processes = first 6 (sort_slice process_before (values s.pids));
    domains = first 60 (sort_slice domain_before named_domains);
    connections = first 20 (sort_slice connection_before named_connections);
    shows_processes = refl;
    top_processes =
        first-IsTopBy HasNumbers process_before ProcessAhead process_before-Ahead
          process_before-IsOrder 6 (values s.pids) h;
    shows_domains = domains_lem;
    top_domains =
        first-IsTopBy Any domain_before DomainAhead domain_before-Ahead domain_before-IsOrder 60
          named_domains (All-Any named_domains);
    shows_connections = connections_lem;
    top_connections =
        first-IsTopBy Any connection_before ConnectionAhead connection_before-Ahead
          connection_before-IsOrder 20 named_connections (All-Any named_connections);
  }
