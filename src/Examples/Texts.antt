-- ===== src/Examples/Texts.antt =====
-- The theorems about texts, files and numbers.
use dialtone_watcher.Prelude.{◌≡◌, refl, false, some, [], codes, arith, Bool, nat_eq, list_eq}
use dialtone_watcher.Prelude.Int.{ℤ}
use dialtone_watcher.Hosts.{normalize_resolved_host}
use dialtone_watcher.Hosts.Private.{IsReportable, normalize_resolved_host-IsReportable}
use dialtone_watcher.Cli.{Shown, format_bytes}
use dialtone_watcher.Cli.Bytes.{Fits, format_bytes-Fits}
use dialtone_watcher.State.{check_summary}
use dialtone_watcher.State.Liveness.{IsChecked, check_summary-IsChecked}
use dialtone_watcher.Examples.Parameters.{sites, idle_summary}

normalize_resolved_host-IsReportable_example :
    IsReportable (normalize_resolved_host (codes " [10.0.0.1] "))
normalize_resolved_host-IsReportable_example =
    normalize_resolved_host-IsReportable (codes " [10.0.0.1] ")

-- the code at the same input and at two others
normalized :
    (normalize_resolved_host (codes " [10.0.0.1] ") ≡ [])
    × (normalize_resolved_host (codes "8.8.8.8") ≡ codes "8.8.8.8")
    × (normalize_resolved_host (codes "Ripe.NET.") ≡ codes "ripe.net")
unfolding normalize_resolved_host
normalized = (refl, refl, refl)

format_bytes-Fits_example :
    (shown : Shown) × (format_bytes 5000000 ≡ some shown) × Fits 5000000 shown
format_bytes-Fits_example = format_bytes-Fits 5000000 (omega arith)

abbrev nobody : ℤ → Bool
nobody _ = false

check_summary-IsChecked_example :
    IsChecked
      (codes "pid:[1]")
      nobody
      idle_summary
      (check_summary (codes "pid:[1]") nobody idle_summary)
check_summary-IsChecked_example = check_summary-IsChecked (codes "pid:[1]") nobody idle_summary
