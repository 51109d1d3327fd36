-- ===== src/Examples/Commands.antt =====
-- The theorems about the commands.
use dialtone_watcher.TestTraffic.Loops.{run_udp_dns_loop}
use dialtone_watcher.TestTraffic.Loops.Laws.{IsQuery, dialled, run_udp_dns_loop_lem}
use dialtone_watcher.Cli.Commands.Laws.{commands_iff}
use dialtone_watcher.Prelude.{Text, All, length}
use dialtone_watcher.Prelude.{
  ℕ, ◌≡◌, ◌≢◌, ◌↔◌, ◌⊎◌, true, none, some, List, [], ◌∷◌, codes, Text, length,
}
use dialtone_watcher.Prelude.Int.{pos}
use dialtone_watcher.Decimal.{format_uint}
use dialtone_watcher.Records.{Summary}
use dialtone_watcher.State.{holds}
use dialtone_watcher.Cli.Commands.{System, send_term, start_watcher, stop_watcher}
use dialtone_watcher.Cli.Commands.Laws.{IsAlive, IsFound, IsStoppable}
use dialtone_watcher.Examples.Parameters.{whole, idle_summary}

abbrev summary : Summary ℕ
summary = record idle_summary {
  top_domains =
      record {
        domain = codes "8.8.8.8";
        display_name = codes "dns.google";
        rx_bytes = 2048;
        tx_bytes = 60;
        polls_seen = 3;
      }
      ∷ [];
}

abbrev system : System ℕ
system = record {
  identity = some (codes "m");
  identity_path = codes "id";
  status = holds (record { pid = pos 42; pid_namespace = [] });
  summary = holds summary;
  finds = λ _. true;
  answers = λ _. true;
  terminates = λ _. true;
  detached = some (pos 43);
  daemon = λ _. true;
  format_float = λ _ n. format_uint n;
}

commands_iff_example :
    (((start_watcher system).actions ≡ []) ↔ IsAlive system system.status)
    × (((start_watcher system).error ≡ none)
        ↔ (IsAlive system system.status ⊎ (system.detached ≢ none)))
    × (((stop_watcher system).actions ≡ send_term (pos 42) ∷ [])
        ↔ IsFound system (pos 42) system.status)
    × (((stop_watcher system).error ≡ none) ↔ IsStoppable system system.status)
commands_iff_example = commands_iff system (pos 42)

run_udp_dns_loop_lem_example :
    (sent : List (Text × Text)) × (run_udp_dns_loop (λ _. true) (λ _. 7) 3 0 0 ≡ some sent)
    × All IsQuery sent
    × (length sent ≡ dialled (λ _. true) 3 0)
run_udp_dns_loop_lem_example = run_udp_dns_loop_lem (λ _. true) (λ _. 7) 3 0 0
