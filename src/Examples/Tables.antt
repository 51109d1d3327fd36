-- ===== src/Examples/Tables.antt =====
-- The theorems about the lists of a summary.
use dialtone_watcher.Service.{Service}
use dialtone_watcher.Service.Summary.Shown.{Shows, current_summary-Shows}
use dialtone_watcher.Examples.Parameters.{self, started}
use dialtone_watcher.Prelude.{true, ℕ, refl, [], ◌∷◌, Text, codes}
use dialtone_watcher.Prelude.Int.{ℤ, pos}
use dialtone_watcher.Dict.{Dict}
use dialtone_watcher.Records.{ProcessRecord, DomainRecord, ConnectionRecord}
use dialtone_watcher.Service.Summary.{current_summary_locked}
use dialtone_watcher.Examples.Parameters.{whole, sites}

abbrev process : ℕ → ℕ → ProcessRecord ℕ
process pid cpu = record {
  snapshot = record {
    pid = pos pid;
    name = codes "p";
    command = [];
    cpu_percent = cpu;
    memory_rss_mb = 1;
    polls_seen = 1;
  };
  last_seen = 1;
}

abbrev pids : Dict ℤ (ProcessRecord ℕ)
pids = (pos 1, process 1 5) ∷ (pos 2, process 2 9) ∷ (pos 3, process 3 7) ∷ []

abbrev domain : Text → ℕ → DomainRecord
domain name rx = record {
  snapshot = record {
    domain = name;
    display_name = [];
    rx_bytes = rx;
    tx_bytes = 1;
    polls_seen = 1;
  };
  last_seen = 1;
}

abbrev domains : Dict Text DomainRecord
domains =
    (codes "a.org", domain (codes "a.org") 5)
    ∷ (codes "8.8.8.8", domain (codes "8.8.8.8") 50)
    ∷ (codes "b.org", domain (codes "b.org") 9)
    ∷ []

abbrev connection : Text → ℕ → ConnectionRecord
connection name rx = record {
  snapshot = record {
    pid = pos 1;
    process_name = codes "p";
    domain = name;
    display_name = [];
    protocol = codes "TCP";
    rx_bytes = rx;
    tx_bytes = 1;
    polls_seen = 1;
  };
  last_seen = 1;
}

abbrev connections : Dict Text ConnectionRecord
connections =
    (codes "1|TCP|a.org", connection (codes "a.org") 5)
    ∷ (codes "1|TCP|b.org", connection (codes "b.org") 5)
    ∷ []

abbrev tables : Service ℕ
tables = record started { pids = pids; domains = domains; connections = connections }

current_summary-Shows_example : Shows tables (current_summary_locked self true tables)
current_summary-Shows_example =
    current_summary-Shows tables self true ((refl, refl), ((refl, refl), ((refl, refl), tt)))
