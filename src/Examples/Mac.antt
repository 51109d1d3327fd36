-- ===== src/Examples/Mac.antt =====
-- The theorems about the collector of macOS.
use dialtone_watcher.Decimal.{format_int}
use dialtone_watcher.Prelude.{
  ◌≡◌, ◌≢◌, refl, false, some, List, [], ◌∷◌, codes, All, Text, Option, is_empty, nat_eq, list_eq,
}
use dialtone_watcher.Prelude.Int.{pos}
use dialtone_watcher.Decimal.{format_int}
use dialtone_watcher.Dict.{insert, insert, Dict, IsDict}
use dialtone_watcher.Network.{NetworkObservation}
use dialtone_watcher.Darwin.{normalize_remote_host, collect_network_samples}
use dialtone_watcher.Darwin.Remotes.{IsRemote}
use dialtone_watcher.Darwin.Tables.{collect_network_samples-IsTable_darwin}
use dialtone_watcher.Examples.Parameters.{sites}

-- the code at three inputs
remotes :
    (normalize_remote_host (codes "8.8.8.8:443") ≡ codes "8.8.8.8")
    × (normalize_remote_host (codes "10.0.0.1:22") ≡ [])
    × (normalize_remote_host (codes "Ripe.NET.:80") ≡ codes "ripe.net")
unfolding normalize_remote_host
remotes = (refl, refl, refl)

abbrev rows : List (Option (List Text))
rows =
    some (codes "state" ∷ [])
    ∷ some (codes "ssh.12" ∷ [])
    ∷ some (
        codes "tcp4 10.0.0.1:50000<->8.8.8.8:22"
        ∷ codes "Established"
        ∷ codes "90"
        ∷ codes "60"
        ∷ [])
    ∷ []

abbrev table : Dict Text NetworkObservation
table =
    (
      codes "12|tcp4 10.0.0.1:50000<->8.8.8.8:22",
      record {
        pid = pos 12;
        domain = codes "8.8.8.8";
        display_name = [];
        process_name = [];
        protocol = codes "SSH";
        sample = record { rx_bytes = 90; tx_bytes = 60 };
      },
    )
    ∷ []

observed : collect_network_samples (some rows) ≡ some table
unfolding collect_network_samples insert format_int
observed = refl

collect_network_samples-IsTable_darwin_example :
    IsDict table
    × All
        (λ (e : Text × NetworkObservation).
          (e.1.pid ≢ pos 0) × (is_empty e.1.domain ≡ false) × IsRemote e.1.domain)
        table
collect_network_samples-IsTable_darwin_example =
    collect_network_samples-IsTable_darwin rows table observed
