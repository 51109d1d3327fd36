-- ===== src/Service/Poll.antt =====
-- `pollOnce`, `shutdown` and `persist` of internal/watcher/watcher.go, the part of the lookup worker
-- of internal/watcher/resolver.go that holds the lock, and the service that `RunDaemon` starts with.
pub mod Laws
pub mod Polled
pub mod Stretches
use dialtone_watcher.Prelude.{
  ℕ, Bool, true, false, Option, none, some, List, [], ◌∷◌, Text, nat_eq, list_eq, ◌==◌,
  if◌then◌else◌,
}
use dialtone_watcher.Words.{add64}
use dialtone_watcher.Clock.{Time}
use dialtone_watcher.Float.{Float64}
use dialtone_watcher.Netip.{Netip}
use dialtone_watcher.Dict.{Dict, lookup, insert, update_values}
use dialtone_watcher.Dict.Laws.{map_option}
use dialtone_watcher.Records.{DomainRecord, ConnectionRecord, HardwareProfile, Summary}
use dialtone_watcher.Network.{NetworkObservation}
use dialtone_watcher.Lookups.{finish_lookup}
use dialtone_watcher.Uploader.{Uploader}
use dialtone_watcher.Uploader.Recording.{increment_poll, should_upload}
use dialtone_watcher.Uploader.Flush.{Web, UploadError, flush}
use dialtone_watcher.Service.{Service, Process}
use dialtone_watcher.Service.Processes.{poll_processes_locked}
use dialtone_watcher.Service.Summary.{Self, current_summary_locked}
use dialtone_watcher.Service.Traffic.{poll_domains_locked}

pub data PollError : Type 0 where
  processes_error write_error : PollError

-- What a poll meets outside: the time, the processes and the network observations, either of which
-- may fail, the server, and whether the summary file takes a summary.
pub record Surroundings (F : Type 0) : Type 0 where
  pub now : Time
  pub self : Self
  pub processes : Option (List (Process F))
  pub observations : Option (Dict Text NetworkObservation)
  pub web : Web F
  pub writes : Summary F → Bool

-- The new state, the summary that was written, and the error returned.
pub record Outcome (F : Type 0) : Type 0 where
  pub service : Service F
  pub written : Option (Summary F)
  pub error : Option PollError

abbrev pub new_service : {F : Type 0} → HardwareProfile F → Option (Uploader F) → Service F
new_service hardware uploader = record {
  hardware = hardware;
  uploader = uploader;
  polls = 0;
  pids = [];
  domains = [];
  connections = [];
  network_samples = [];
  lookups = record { lookup_cache = []; lookup_pending = []; lookup_queue = [] };
}

abbrev pub show_name : Text → DomainRecord → DomainRecord
show_name name r = record r { snapshot = record r.snapshot { display_name = name } }

abbrev pub show_connection_name : Text → Text → Text → ConnectionRecord → ConnectionRecord
show_connection_name address name _ r =
    if r.domain == address
    then record r { snapshot = record r.snapshot { display_name = name } }
    else r

module _ {F : Type 0} where
  unfoldable pub count_poll : Time → Service F → Service F
  count_poll now s = record s {
    polls = add64 s.polls 1;
    uploader = map_option (increment_poll now) s.uploader;
  }

  abbrev pub is_due : Time → Option (Uploader F) → Bool
  is_due now none = false
  is_due now (some u) = should_upload now u

  -- the worker's writes when it has looked `address` up
  unfoldable pub apply_lookup : Text → Text → Service F → Service F
  apply_lookup address name s = record s {
    lookups = finish_lookup address name s.lookups;
    domains = elim (lookup address s.domains) [
      | none ↦ s.domains
      | some r ↦ insert address (show_name name r) s.domains
    ];
    connections = update_values (show_connection_name address name) s.connections;
  }

module _ {F : Type 0} ⦃fl : Float64 F⦄ ⦃ip : Netip⦄ where
  -- `flush`, if there is an uploader; its error is dropped
  unfoldable pub upload : Web F → Time → Summary F → Service F → Service F
  upload web now summary s = record s {
    uploader = map_option (λ u. (flush web now s.hardware summary u).0) s.uploader;
  }

  -- the three stretches under the lock, up to the count of the poll
  unfoldable pub take_poll : List (Process F) → Surroundings F → Service F → Service F
  unfolding count_poll
  take_poll processes e s =
      let seen = poll_processes_locked processes e.now s in
      let counted : Service F = elim e.observations [
        | none ↦ seen
        | some observations ↦ poll_domains_locked observations e.now seen
      ] in
      count_poll e.now counted

  abbrev pub persist : Surroundings F → Summary F → Service F → Outcome F
  persist e summary s = record {
    service = s;
    written = if e.writes summary then some summary else none;
    error = if e.writes summary then none else some write_error;
  }

  unfoldable pub poll_once : Surroundings F → Service F → Outcome F
  unfolding take_poll upload
  poll_once e s = elim e.processes [
    | none ↦ record { service = s; written = none; error = some processes_error }
    | some processes ↦
        let s' = take_poll processes e s in
        let summary = current_summary_locked e.self true s' in
        persist e summary (if is_due e.now s'.uploader then upload e.web e.now summary s' else s')
  ]

  unfoldable pub shutdown : Surroundings F → Service F → Outcome F
  unfolding upload
  shutdown e s =
      let summary = current_summary_locked e.self false s in
      persist e summary (upload e.web e.now summary s)
