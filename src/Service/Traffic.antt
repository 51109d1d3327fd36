-- ===== src/Service/Traffic.antt =====
-- `pollDomainsLocked` of internal/watcher/watcher.go: the traffic since the last poll, by domain and
-- by connection.
pub mod Domains
pub mod Observed
pub mod Order
pub mod Samples
use dialtone_watcher.Prelude.{
  ℕ, ◌-◌, ◌*◌, Bool, true, false, not, Option, none, some, List, [], ◌∷◌, Text, leb, length, nat_eq,
  list_eq, if◌then◌else◌,
}
use dialtone_watcher.Prelude.Int.{ℤ, pos, int_eq, ltb_ℤ}
use dialtone_watcher.Words.{add64}
use dialtone_watcher.Clock.{Time, sub}
use dialtone_watcher.Netip.{Netip}
use dialtone_watcher.Dict.{Dict, found_or, lookup, insert, delete_if, contains}
use dialtone_watcher.Dict.Laws.{map_option}
use dialtone_watcher.Records.{ProcessRecord, DomainRecord, ConnectionRecord}
use dialtone_watcher.Network.{NetworkConnectionSample, NetworkObservation, observed_connection_key}
use dialtone_watcher.Lookups.{cached_display_name_locked}
use dialtone_watcher.Uploader.{Uploader}
use dialtone_watcher.Uploader.Recording.{record_network}
use dialtone_watcher.Service.{Service}
use dialtone_watcher.Service.Processes.{poll_interval}

unfoldable pub diff_or_current : ℕ → ℕ → ℕ
diff_or_current current previous = if leb previous current then current - previous else current

-- what a connection moved since its last sample, or altogether if it is new
unfoldable pub delta :
    NetworkConnectionSample → Option NetworkConnectionSample → NetworkConnectionSample
unfolding diff_or_current
delta sample none = sample
delta sample (some previous) = record {
  rx_bytes = diff_or_current sample.rx_bytes previous.rx_bytes;
  tx_bytes = diff_or_current sample.tx_bytes previous.tx_bytes;
}

unfoldable pub fresh_domain_record : Text → DomainRecord
fresh_domain_record domain = record {
  snapshot = record {
    domain = domain;
    display_name = [];
    rx_bytes = 0;
    tx_bytes = 0;
    polls_seen = 0;
  };
  last_seen = 0;
}

unfoldable pub fresh_connection_record : NetworkObservation → ConnectionRecord
fresh_connection_record o = record {
  snapshot = record {
    pid = o.pid;
    process_name = [];
    domain = o.domain;
    display_name = [];
    protocol = o.protocol;
    rx_bytes = 0;
    tx_bytes = 0;
    polls_seen = 0;
  };
  last_seen = 0;
}

unfoldable pub add_to_domain : Time → Text → NetworkConnectionSample → DomainRecord → DomainRecord
add_to_domain now display_name moved r = record {
  snapshot = record r.snapshot {
    display_name = display_name;
    rx_bytes = add64 r.rx_bytes moved.rx_bytes;
    tx_bytes = add64 r.tx_bytes moved.tx_bytes;
    polls_seen = add64 r.polls_seen 1;
  };
  last_seen = now;
}

unfoldable pub add_to_connection :
    Time → Text → Text → NetworkConnectionSample → ConnectionRecord → ConnectionRecord
add_to_connection now process_name display_name moved r = record {
  snapshot = record r.snapshot {
    process_name = process_name;
    display_name = display_name;
    rx_bytes = add64 r.rx_bytes moved.rx_bytes;
    tx_bytes = add64 r.tx_bytes moved.tx_bytes;
    polls_seen = add64 r.polls_seen 1;
  };
  last_seen = now;
}

module _ {F : Type 0} where
  unfoldable pub process_name_locked : ℤ → Service F → Text
  process_name_locked pid s = elim (lookup pid s.pids) [ none ↦ [] | some r ↦ r.name ]

  module _ ⦃ip : Netip⦄ where
    -- the body of the first loop
    unfoldable pub observe : Time → Text → NetworkObservation → Service F → Service F
    unfolding delta fresh_domain_record fresh_connection_record add_to_domain add_to_connection
        process_name_locked
    observe now key o s =
        let moved = delta o.sample (lookup key s.network_samples) in
        let domain = found_or (lookup o.domain s.domains) (fresh_domain_record o.domain) in
        let (display_name, lookups) = cached_display_name_locked o.domain s.lookups in
        let domains = insert o.domain (add_to_domain now display_name moved domain) s.domains in
        let connection_key = observed_connection_key o in
        let connection =
          found_or (lookup connection_key s.connections) (fresh_connection_record o) in
        let process_name = process_name_locked o.pid s in
        let connections =
          insert connection_key (add_to_connection now process_name display_name moved connection)
            s.connections in
        let reported : NetworkObservation = record o {
          display_name = display_name;
          process_name = process_name;
          sample = record { rx_bytes = 0; tx_bytes = 0 };
        } in
        record s {
          network_samples = insert key o.sample s.network_samples;
          domains = domains;
          connections = connections;
          lookups = lookups;
          uploader =
              map_option
                (record_network now reported moved.rx_bytes moved.tx_bytes (length domains)
                  (length connections))
                s.uploader;
        }

    unfoldable pub observe_all : Time → Dict Text NetworkObservation → Service F → Service F
    unfolding observe
    observe_all now [] s = s
    observe_all now ((key, o) ∷ observations) s = observe_all now observations (observe now key o s)

    unfoldable pub expire : Time → Dict Text NetworkObservation → Service F → Service F
    expire now observations s = record s {
      network_samples = delete_if (λ key _. not (contains key observations)) s.network_samples;
      domains = delete_if (λ _ r. ltb_ℤ (pos (poll_interval * 12)) (sub now r.last_seen)) s.domains;
      connections =
          delete_if (λ _ r. ltb_ℤ (pos (poll_interval * 12)) (sub now r.last_seen)) s.connections;
    }

    unfoldable pub poll_domains_locked : Dict Text NetworkObservation → Time → Service F → Service F
    unfolding observe_all expire
    poll_domains_locked observations now s =
        expire now observations (observe_all now observations s)
