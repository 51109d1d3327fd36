-- ===== src/Service/Invariant.antt =====
-- The invariant of `service` of internal/watcher/watcher.go.
pub mod History
pub mod Traffic
use dialtone_watcher.Prelude.{
  ℕ, Bool, true, false, Option, none, some, List, [], ◌∷◌, ◌++◌, ◌≡◌, refl, Text, nat_eq, list_eq,
  ◌==◌, if◌then◌else◌, Option-cases, inl, inr, arith, ◌≢◌,
}
use dialtone_watcher.Prelude.Int.{ℤ}
use dialtone_watcher.Clock.{Time}
use dialtone_watcher.Netip.{Netip}
use dialtone_watcher.Decimal.{format_int}
use dialtone_watcher.Dict.{Dict, lookup, insert, IsDict, found_or}
use dialtone_watcher.Dict.Laws.{AllEntries, map_option}
use dialtone_watcher.Records.{ProcessRecord, DomainRecord, ConnectionRecord}
use dialtone_watcher.Network.{NetworkConnectionSample}
use dialtone_watcher.Uploader.{Uploader}
use dialtone_watcher.Uploader.Window.{IsWindow}
use dialtone_watcher.Service.{Service}
use dialtone_watcher.Service.Processes.Laws.{IsProcessTable}

-- the key under which a connection's record belongs
abbrev pub record_key : ConnectionRecord → Text
record_key r = format_int r.pid ++ b'|' ∷ (r.protocol ++ b'|' ∷ r.domain)

abbrev pub HasWindow : {F : Type 0} → Option (Uploader F) → Type 0
HasWindow none = Unit {0}
HasWindow (some u) = IsWindow u.window

-- The traffic tables: each record stands once, under the key that it spells.
pub record IsTraffic (domains : Dict Text DomainRecord) (connections : Dict Text ConnectionRecord)
    (samples : Dict Text NetworkConnectionSample) : Type 0 where
  pub domains_dict : IsDict domains
  pub domains_named : AllEntries (λ k (r : DomainRecord). r.domain ≡ k) domains
  pub connections_dict : IsDict connections
  pub connections_named : AllEntries (λ k (r : ConnectionRecord). record_key r ≡ k) connections
  pub samples_dict : IsDict samples

pub record IsService {F : Type 0} (s : Service F) : Type 0 where
  pub processes : IsProcessTable s.pids
  pub traffic : IsTraffic s.domains s.connections s.network_samples
  pub uploads : HasWindow s.uploader
