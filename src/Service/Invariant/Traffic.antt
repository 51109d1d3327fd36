-- ===== src/Service/Invariant/Traffic.antt =====
-- `pollDomainsLocked` of internal/watcher/watcher.go and the invariant of the service.
use dialtone_watcher.Prelude.{ℕ, Option, none, some, [], ◌∷◌, ◌≡◌, refl, Text, nat_eq, list_eq}
use dialtone_watcher.Clock.{Time}
use dialtone_watcher.Netip.{Netip}
use dialtone_watcher.Dict.{Dict, lookup}
use dialtone_watcher.Dict.Laws.{
  map_option, insert-IsDict, upsert-AllEntries, delete_if-IsDict, delete_if-AllEntries,
}
use dialtone_watcher.Records.{DomainRecord, ConnectionRecord}
use dialtone_watcher.Network.{NetworkObservation, observed_connection_key}
use dialtone_watcher.Lookups.{cached_display_name_locked}
use dialtone_watcher.Uploader.{Uploader}
use dialtone_watcher.Uploader.Recording.{record_network}
use dialtone_watcher.Uploader.Window.{record_network-IsWindow}
use dialtone_watcher.Service.{Service}
use dialtone_watcher.Service.Traffic.{
  delta, fresh_domain_record, fresh_connection_record, add_to_domain, add_to_connection,
  process_name_locked, observe, observe_all, expire, poll_domains_locked,
}
use dialtone_watcher.Service.Invariant.{record_key, HasWindow, IsService}

module _ {F : Type 0} ⦃ip : Netip⦄ (now : Time) where
  observe-HasWindow :
      (o : NetworkObservation) (rx tx d c : ℕ) (u : Option (Uploader F))
      → HasWindow u
      → HasWindow (map_option (record_network now o rx tx d c) u)
  observe-HasWindow o rx tx d c none h = tt
  observe-HasWindow o rx tx d c (some u) h = record_network-IsWindow now o rx tx d c u h

  observe-IsService :
      (key : Text) (o : NetworkObservation) (s : Service F)
      → IsService s
      → IsService (observe now key o s)
  unfolding observe observed_connection_key
  observe-IsService key o s h =
      let moved = delta o.sample (lookup key s.network_samples) in
      let name = (cached_display_name_locked o.domain s.lookups).0 in
      let t = h.traffic in
      record {
        processes = h.processes;
        traffic = record {
          domains_dict = insert-IsDict o.domain _ s.domains t.domains_dict;
          domains_named =
              upsert-AllEntries (λ k (r : DomainRecord). r.domain ≡ k) o.domain
                (fresh_domain_record o.domain) (add_to_domain now name moved) s.domains refl
                (λ v p. p) t.domains_named;
          connections_dict =
              insert-IsDict (observed_connection_key o) _ s.connections t.connections_dict;
          connections_named =
              upsert-AllEntries (λ k (r : ConnectionRecord). record_key r ≡ k)
                (observed_connection_key o) (fresh_connection_record o)
                (add_to_connection now (process_name_locked o.pid s) name moved) s.connections refl
                (λ v p. p) t.connections_named;
          samples_dict = insert-IsDict key o.sample s.network_samples t.samples_dict;
        };
        uploads = observe-HasWindow _ _ _ _ _ s.uploader h.uploads;
      }

  pub observe_all-IsService :
      (observations : Dict Text NetworkObservation) (s : Service F)
      → IsService s
      → IsService (observe_all now observations s)
  unfolding observe_all
  observe_all-IsService [] s h = h
  observe_all-IsService ((key, o) ∷ observations) s h =
      observe_all-IsService observations (observe now key o s) (observe-IsService key o s h)

  expire-IsService :
      (observations : Dict Text NetworkObservation) (s : Service F)
      → IsService s
      → IsService (expire now observations s)
  unfolding expire
  expire-IsService observations s h =
      let t = h.traffic in
      record {
        processes = h.processes;
        traffic = record {
          domains_dict = delete_if-IsDict _ s.domains t.domains_dict;
          domains_named = delete_if-AllEntries _ _ s.domains t.domains_named;
          connections_dict = delete_if-IsDict _ s.connections t.connections_dict;
          connections_named = delete_if-AllEntries _ _ s.connections t.connections_named;
          samples_dict = delete_if-IsDict _ s.network_samples t.samples_dict;
        };
        uploads = h.uploads;
      }

  pub poll_domains_locked-IsService :
      (observations : Dict Text NetworkObservation) (s : Service F)
      → IsService s
      → IsService (poll_domains_locked observations now s)
  unfolding poll_domains_locked
  poll_domains_locked-IsService observations s h =
      expire-IsService observations _ (observe_all-IsService observations s h)
