-- ===== src/Cli/Print/Laws.antt =====
-- What `printSummary` of main.go prints: one line for each entry, and never a panic.
use dialtone_watcher.Prelude.{codes}
use dialtone_watcher.Cli.{codes}
