-- ===== src/Service/Daemon/Threads.antt =====
-- What holds in every state of the two threads of internal/watcher/watcher.go and
-- internal/watcher/resolver.go: the tables of the service, and the addresses that are on their way.
use dialtone_watcher.Service.Processes.{poll_processes_locked}
use dialtone_watcher.Service.Traffic.{expire, observe, observe_all, poll_domains_locked}
use dialtone_watcher.Service.Summary.{Self}
use dialtone_watcher.Service.Poll.{count_poll, upload, apply_lookup}
use dialtone_watcher.Prelude.{Bool, ◌≡◌, refl, Option, none, some, [], ◌∷◌, Text, arith}
use dialtone_watcher.Clock.{Time}
use dialtone_watcher.Float.{Float64}
use dialtone_watcher.Netip.{Netip}
use dialtone_watcher.Dict.{Dict, lookup}
use dialtone_watcher.Network.{NetworkObservation}
use dialtone_watcher.Service.{Service}
use dialtone_watcher.Service.Daemon.Launching.{launched-Fresh}
use dialtone_watcher.Service.Daemon.{
  Start, Files, launch, launched, Daemon, see, observe_traffic, report, retry, shut_down, resolve,
  send_window, remove_own_status, receive, Step, list, list_fails, collect, count, send, give_up,
  persist_again, signalled, unregister, take_address, look_up, Reach, here, next,
}
use dialtone_watcher.Service.Invariant.{IsService}
use dialtone_watcher.Service.Invariant.History.{
  new_service-IsService, new_uploader-HasWindow, count_poll-IsService, apply_lookup-IsService,
  poll_processes-IsService, upload-IsService,
}
use dialtone_watcher.Service.Invariant.Traffic.{poll_domains_locked-IsService}
use dialtone_watcher.Lookups.Protocol.{
  Shared, IsTracked, ask-IsTracked, finish-IsTracked, receive-IsTracked,
}

-- what the threads share of the lookups
abbrev pub shared : {F : Type 0} → Service F → Option Text → Shared
shared s flight = record { lookups = s.lookups; in_flight = flight }

-- The tables, and the addresses on their way to the worker and at it.
pub record IsSound {F : Type 0} (d : Daemon F) : Type 0 where
  pub tables : IsService d.service
  pub addresses : IsTracked (shared d.service d.in_flight)

module _ {F : Type 0} ⦃ip : Netip⦄ (now : Time) (flight : Option Text) where
  observe_all-IsTracked :
      (observations : Dict Text NetworkObservation) (s : Service F)
      → IsTracked (shared s flight)
      → IsTracked (shared (observe_all now observations s) flight)
  unfolding observe_all observe
  observe_all-IsTracked [] s h = h
  observe_all-IsTracked ((key, o) ∷ observations) s h =
      observe_all-IsTracked observations (observe now key o s)
        (ask-IsTracked o.domain (shared s flight) h)

  poll_domains_locked-IsTracked :
      (observations : Dict Text NetworkObservation) (s : Service F)
      → IsTracked (shared s flight)
      → IsTracked (shared (poll_domains_locked observations now s) flight)
  unfolding poll_domains_locked expire
  poll_domains_locked-IsTracked observations s h = observe_all-IsTracked observations s h

module _ {F : Type 0} ⦃fl : Float64 F⦄ ⦃ip : Netip⦄ where
  observe_traffic-IsSound :
      (first : Bool) (observations : Option (Dict Text NetworkObservation)) (now : Time)
      (d : Daemon F)
      → IsSound d
      → IsSound (observe_traffic first observations now d)
  unfolding observe_traffic
  observe_traffic-IsSound first none now d h = record { tables = h.tables; addresses = h.addresses }
  observe_traffic-IsSound first (some observations) now d h = record {
    tables = poll_domains_locked-IsService now observations d.service h.tables;
    addresses = poll_domains_locked-IsTracked now d.in_flight observations d.service h.addresses;
  }

module _ {F : Type 0} ⦃fl : Float64 F⦄ ⦃ip : Netip⦄ {self : Self} where
  Step-IsSound : {d t : Daemon F} → Step self d t → IsSound d → IsSound t
  unfolding see report retry shut_down resolve send_window remove_own_status receive
      poll_processes_locked count_poll upload apply_lookup
  Step-IsSound {d} (list first processes now p) h = record {
    tables = poll_processes-IsService processes now d.service h.tables;
    addresses = h.addresses;
  }
  Step-IsSound (list_fails first p) h = record { tables = h.tables; addresses = h.addresses }
  Step-IsSound {d} (collect first observations now e) h =
      observe_traffic-IsSound first observations now d h
  Step-IsSound {d} (count first now writes e) h = record {
    tables = count_poll-IsService now d.service h.tables;
    addresses = h.addresses;
  }
  Step-IsSound {d} (send first now summary error web e) h = record {
    tables = upload-IsService web now summary d.service h.tables;
    addresses = h.addresses;
  }
  Step-IsSound (give_up error e) h = record { tables = h.tables; addresses = h.addresses }
  Step-IsSound (persist_again error writes e) h = record {
    tables = h.tables;
    addresses = h.addresses;
  }
  Step-IsSound {d} (signalled web now writes e) h = record {
    tables = upload-IsService web now _ d.service h.tables;
    addresses = h.addresses;
  }
  Step-IsSound (unregister removable e) h = record { tables = h.tables; addresses = h.addresses }
  Step-IsSound {d} (take_address host rest idle q) h = record {
    tables = record {
      processes = h.tables.processes;
      traffic = h.tables.traffic;
      uploads = h.tables.uploads;
    };
    addresses = receive-IsTracked (shared d.service d.in_flight) host rest idle q h.addresses;
  }
  Step-IsSound {d} (look_up host name writes busy) h = record {
    tables = apply_lookup-IsService host name d.service h.tables;
    addresses = finish-IsTracked host name (shared d.service d.in_flight) busy h.addresses;
  }

  Reach-IsSound : {d t : Daemon F} → Reach self d t → IsSound d → IsSound t
  Reach-IsSound here h = h
  Reach-IsSound (next r st) h = Step-IsSound st (Reach-IsSound r h)

module _ {F : Type 0} ⦃fl : Float64 F⦄ ⦃ip : Netip⦄ (start : Start F) (files : Files F)
    {d t : Daemon F} where
  launched-IsSound : launch start files ≡ launched d → Reach start.self d t → IsSound t
  unfolding lookup
  launched-IsSound e r =
      let (hardware, id, fresh) = launched-Fresh start files d e in
      let tables =
        new_service-IsService hardware _
          (new_uploader-HasWindow F start.environment id start.options) in
      Reach-IsSound r (
        rw fresh (record {
          tables = tables;
          addresses = record { marked = λ h. refl; bounded = omega arith };
        }))

  -- Whatever a launched daemon meets, failures included, and however its two threads interleave, in
  -- every state that they reach no table holds a key twice, every record stands under the key that it
  -- spells, and the byte totals of the upload window are the sums over its domains.
  pub launched-IsService :
      launch start files ≡ launched d → Reach start.self d t → IsService t.service
  launched-IsService e r = (launched-IsSound e r).tables

  -- Whatever a launched daemon meets, and however its two threads interleave, in every state that they
  -- reach an address is marked as pending exactly while it is in the channel or at the worker, it is
  -- there once, and the channel holds at most 256 addresses.
  pub launched-IsTracked :
      launch start files ≡ launched d
      → Reach start.self d t
      → IsTracked (shared t.service t.in_flight)
  launched-IsTracked e r = (launched-IsSound e r).addresses
