-- ===== src/Service/Summary.antt =====
-- The summary of internal/watcher/watcher.go: `topProcesses`, `topDomains`, `topConnections` and
-- `currentSummaryLocked`. A `nil` slice is the empty list, as is an empty one. The records of the
-- maps are never `nil`, but the two tests for it are kept.
pub mod Laws
pub mod Ranks
pub mod Shown
use dialtone_watcher.Strings.{text_ltb}
use dialtone_watcher.Prelude.{
  ℕ, Bool, true, false, not, ◌&&◌, ◌||◌, Option, none, some, List, [], ◌∷◌, Text, is_empty, ltb,
  nat_beq, length, map, keep, nat_eq, list_eq, ◌==◌, if◌then◌else◌,
}
use dialtone_watcher.Prelude.Int.{ℤ, pos}
use dialtone_watcher.Words.{add64}
use dialtone_watcher.Float.{Float64}
use dialtone_watcher.Netip.{Netip}
use dialtone_watcher.Hosts.{is_public_ip, normalize_resolved_host}
use dialtone_watcher.Dict.{Dict, values}
use dialtone_watcher.Sort.{sort_slice, first}
use dialtone_watcher.Records.{
  ProcessSnapshot, DomainSnapshot, ConnectionSnapshot, ProcessRecord, DomainRecord,
  ConnectionRecord, Summary,
}
use dialtone_watcher.Service.{Service}

module _ {F : Type 0} ⦃fl : Float64 F⦄ where
  open fl use {fzero, flt, feq}

  abbrev pub process_before : ProcessRecord F → ProcessRecord F → Bool
  process_before a b =
      if feq a.cpu_percent b.cpu_percent
      then (if feq a.memory_rss_mb b.memory_rss_mb
          then ltb b.polls_seen a.polls_seen
          else flt b.memory_rss_mb a.memory_rss_mb)
      else flt b.cpu_percent a.cpu_percent

  unfoldable pub top_processes : ℕ → Dict ℤ (ProcessRecord F) → List (ProcessSnapshot F)
  top_processes limit pids =
      map (λ r. r.snapshot) (first limit (sort_slice process_before (values pids)))

  abbrev pub empty_process : ProcessSnapshot F
  empty_process = record {
    pid = pos 0;
    name = [];
    command = [];
    cpu_percent = fzero;
    memory_rss_mb = fzero;
    polls_seen = 0;
  }

  -- the test for an empty slice and `top[0]`
  abbrev pub first_process : List (ProcessSnapshot F) → ProcessSnapshot F
  first_process [] = empty_process
  first_process (p ∷ top) = p

  unfoldable pub top_process : Dict ℤ (ProcessRecord F) → ProcessSnapshot F
  unfolding top_processes
  top_process pids = first_process (top_processes 1 pids)

abbrev pub domain_before : DomainRecord → DomainRecord → Bool
domain_before a b =
    let left_total = add64 a.rx_bytes a.tx_bytes in
    let right_total = add64 b.rx_bytes b.tx_bytes in
    if nat_beq left_total right_total
    then (if nat_beq a.rx_bytes b.rx_bytes
        then (if nat_beq a.tx_bytes b.tx_bytes
            then ltb b.polls_seen a.polls_seen
            else ltb b.tx_bytes a.tx_bytes)
        else ltb b.rx_bytes a.rx_bytes)
    else ltb right_total left_total

abbrev pub connection_before : ConnectionRecord → ConnectionRecord → Bool
connection_before a b =
    let left_total = add64 a.rx_bytes a.tx_bytes in
    let right_total = add64 b.rx_bytes b.tx_bytes in
    if nat_beq left_total right_total
    then (if nat_beq a.polls_seen b.polls_seen
        then (if a.process_name == b.process_name
            then text_ltb a.domain b.domain
            else text_ltb a.process_name b.process_name)
        else ltb b.polls_seen a.polls_seen)
    else ltb right_total left_total

module _ ⦃ip : Netip⦄ where
  -- the last two statements of `shouldIncludeDomainRecord` and `shouldIncludeConnectionRecord`
  abbrev pub is_named : Text → Text → Bool
  is_named display_name domain =
      if not (is_empty (normalize_resolved_host display_name)) && not (is_public_ip display_name)
      then true
      else not (is_public_ip domain) && not (is_empty (normalize_resolved_host domain))

  abbrev pub should_include_domain_record : Option DomainRecord → Bool
  should_include_domain_record none = false
  should_include_domain_record (some r) = is_named r.display_name r.domain

  abbrev pub should_include_connection_record : Option ConnectionRecord → Bool
  should_include_connection_record none = false
  should_include_connection_record (some r) = is_named r.display_name r.domain

  unfoldable pub top_domains : ℕ → Dict Text DomainRecord → List DomainSnapshot
  top_domains limit domains =
      let records = keep (λ r. should_include_domain_record (some r)) (values domains) in
      map (λ (r : DomainRecord). r.snapshot) (first limit (sort_slice domain_before records))

  unfoldable pub top_connections : ℕ → Dict Text ConnectionRecord → List ConnectionSnapshot
  top_connections limit connections =
      let records = keep (λ r. should_include_connection_record (some r)) (values connections) in
      map (λ (r : ConnectionRecord). r.snapshot)
        (first limit (sort_slice connection_before records))

-- What the process knows of itself: `os.Getpid()` and `currentPIDNamespace()`.
pub record Self : Type 0 where
  pub getpid : ℤ
  pub current_pid_namespace : Text

abbrev pub pid_namespace : Self → Bool → Text
pid_namespace self running = if not running then [] else self.current_pid_namespace

module _ {F : Type 0} ⦃fl : Float64 F⦄ ⦃ip : Netip⦄ where
  unfoldable pub current_summary_locked : Self → Bool → Service F → Summary F
  unfolding top_process top_processes top_domains top_connections
  current_summary_locked self running s = record {
    pid = if running then self.getpid else pos 0;
    pid_namespace = pid_namespace self running;
    running = running;
    poll_count = s.polls;
    tracked_process_count = length s.pids;
    hardware = s.hardware;
    top_process = top_process s.pids;
    top_processes = top_processes 6 s.pids;
    tracked_domain_count = length s.domains;
    tracked_connection_count = length s.connections;
    top_domains = top_domains 60 s.domains;
    top_connections = top_connections 20 s.connections;
  }
