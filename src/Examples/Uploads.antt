-- ===== src/Examples/Uploads.antt =====
-- The theorems about uploads.
use dialtone_watcher.Service.Summary.{current_summary_locked}
use dialtone_watcher.Clock.{second}
use dialtone_watcher.Uploader.Flush.Sent.{Carries, build_payload-Carries}
use dialtone_watcher.Prelude.{◌*◌, refl, true, ℕ, ◌≡◌, ◌↔◌, none, List, [], ◌∷◌, Text, codes, arith}
use dialtone_watcher.Prelude.Int.{ℤ, pos}
use dialtone_watcher.Dict.{Dict}
use dialtone_watcher.Network.{NetworkObservation}
use dialtone_watcher.Uploader.{
  empty_window, Uploader, ProcessUploadRecord, DomainUploadRecord, ConnectionUploadRecord,
}
use dialtone_watcher.Uploader.Flush.{send, build_payload}
use dialtone_watcher.Uploader.Flush.Laws.{IsTaken, send_iff}
use dialtone_watcher.Uploader.Ledger.{
  Event, polled, network, flushed, Settled, polls_column, rx_column, tx_column, run_books,
}
use dialtone_watcher.Examples.Parameters.{
  started, self, whole, sites, uploader, laptop, up, down, idle_summary,
}

abbrev github : NetworkObservation
github = record {
  pid = pos 7;
  domain = codes "github.com";
  display_name = [];
  process_name = codes "git";
  protocol = codes "HTTPS";
  sample = record { rx_bytes = 0; tx_bytes = 0 };
}

-- A poll with traffic, an upload that fails, another poll, and an upload that the server takes.
abbrev events : List (Event ℕ)
events =
    network 1 github 100 20 1 1
    ∷ polled 2
    ∷ flushed down 3 laptop idle_summary
    ∷ polled 4
    ∷ flushed up 5 laptop idle_summary
    ∷ network 6 github 7 1 1 1
    ∷ []

run_books_example :
    Settled polls_column events uploader
    × Settled rx_column events uploader
    × Settled tx_column events uploader
run_books_example = run_books events uploader (omega arith) (omega arith)

send_iff_example :
    (send up uploader (build_payload 3 laptop idle_summary uploader) ≡ none)
    ↔ IsTaken up uploader (build_payload 3 laptop idle_summary uploader)
send_iff_example = send_iff up uploader (build_payload 3 laptop idle_summary uploader)

abbrev domains : Dict Text DomainUploadRecord
domains =
    (
      codes "8.8.8.8",
      record {
        domain = codes "8.8.8.8";
        display_name = [];
        rx_bytes = 9;
        tx_bytes = 9;
        polls_seen = 1;
      },
    )
    ∷ (
      codes "a.org",
      record {
        domain = codes "a.org";
        display_name = [];
        rx_bytes = 1;
        tx_bytes = 1;
        polls_seen = 1;
      },
    )
    ∷ (
      codes "b.org",
      record {
        domain = codes "b.org";
        display_name = [];
        rx_bytes = 5;
        tx_bytes = 1;
        polls_seen = 1;
      },
    )
    ∷ []

abbrev connections : Dict Text ConnectionUploadRecord
connections =
    (
      codes "7|HTTPS|a.org",
      record {
        pid = pos 7;
        process_name = codes "git";
        domain = codes "a.org";
        display_name = [];
        protocol = codes "HTTPS";
        rx_bytes = 1;
        tx_bytes = 1;
        polls_seen = 1;
      },
    )
    ∷ (
      codes "7|TCP|b.org",
      record {
        pid = pos 7;
        process_name = codes "git";
        domain = codes "b.org";
        display_name = [];
        protocol = codes "TCP";
        rx_bytes = 5;
        tx_bytes = 1;
        polls_seen = 1;
      },
    )
    ∷ []

abbrev busy : ProcessUploadRecord ℕ
busy = record {
  pid = pos 7;
  name = codes "git";
  command = codes "git fetch";
  average_cpu = 30;
  peak_cpu = 90;
  average_rss_mb = 12;
  peak_rss_mb = 14;
  polls_seen = 2;
  command_present = true;
  cpu_total = 60;
  rss_total = 24;
}

abbrev processes : Dict ℤ (ProcessUploadRecord ℕ)
processes =
    (pos 8, record busy { pid = pos 8; average_cpu = 10 })
    ∷ (pos 9, record busy { pid = pos 9; name = [] })
    ∷ (pos 7, busy)
    ∷ []

abbrev full : Uploader ℕ
full = record uploader {
  window = record (empty_window 0) {
    processes = processes;
    domains = domains;
    connections = connections;
  };
}

build_payload-Carries_example :
    Carries full.window
      (build_payload (20 * second) laptop (current_summary_locked self true started) full)
build_payload-Carries_example =
    build_payload-Carries (20 * second) laptop (current_summary_locked self true started) full
      ((refl, refl), ((refl, refl), ((refl, refl), tt)))
