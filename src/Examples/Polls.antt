-- ===== src/Examples/Polls.antt =====
-- The theorems about polls, lookups and summaries.
use mathlib.Core.List.Perm
use dialtone_watcher.Service.Traffic.Order.{poll_domains_locked_order}
use dialtone_watcher.Dict.{insert}
use dialtone_watcher.Prelude.{
  ℕ, ◌≡◌, List, ◌⊎◌, refl, true, none, some, [], ◌∷◌, Text, codes, arith, nat_eq, list_eq, ◌*◌,
}
use dialtone_watcher.Prelude.Int.{pos, int_eq, ltb_ℤ}
use dialtone_watcher.Clock.{second, sub}
use dialtone_watcher.Dict.{Dict, lookup}
use dialtone_watcher.Dict.Laws.{unless, map_option}
use dialtone_watcher.Network.{NetworkObservation}
use dialtone_watcher.Uploader.Window.{empty_window-IsWindow}
use dialtone_watcher.Hosts.{is_public_ip}
use dialtone_watcher.Lookups.{cached_display_name_locked}
use dialtone_watcher.Lookups.Draining.{Works, IsDrained, worker_drains}
use dialtone_watcher.Lookups.Protocol.{Shared, ask, here, next, IsTracked, Reach-IsTracked}
use dialtone_watcher.Service.{Process}
use dialtone_watcher.Service.Processes.{poll_processes_locked}
use dialtone_watcher.Service.Processes.Refreshed.{IsRefreshed, poll_processes_locked_lem}
use dialtone_watcher.Records.{ProcessRecord}
use dialtone_watcher.Service.Traffic.{poll_domains_locked}
use dialtone_watcher.Service.Traffic.Samples.{poll_domains_locked_samples}
use dialtone_watcher.Service.Invariant.{IsService}
use dialtone_watcher.Service.Invariant.History.{new_service-IsService}
use dialtone_watcher.Service.Poll.{Surroundings, poll_once, processes_error}
use dialtone_watcher.Service.Poll.{count_poll}
use dialtone_watcher.Service.Poll.Stretches.{
  Held, taken, act, observed, sent, finished, Spread, rests, takes, finishes, Serial, reported,
  watched, spread-Serial,
}
use dialtone_watcher.Service.{Service}
use dialtone_watcher.Service.Poll.Polled.{Polls}
use dialtone_watcher.Service.Poll.Laws.{poll_once_lem}
use dialtone_watcher.Examples.Parameters.{uploader, whole, sites, laptop, up, self, started}

abbrev pub git : Process ℕ
git = record {
  pid = pos 7;
  name = some (codes "git");
  cmdline = none;
  cpu_percent = some 3;
  memory_rss = some (some 2097152);
}

abbrev pub shell : Process ℕ
shell = record git { pid = pos 8; name = some (codes "sh") }

abbrev to_server : ℕ → NetworkObservation
to_server rx = record {
  pid = pos 7;
  domain = codes "8.8.8.8";
  display_name = [];
  process_name = [];
  protocol = codes "HTTPS";
  sample = record { rx_bytes = rx; tx_bytes = 1 };
}

abbrev pub observations : Dict Text NetworkObservation
observations = (codes "7|3", to_server 100) ∷ (codes "7|4", to_server 50) ∷ []

abbrev swapped : Dict Text NetworkObservation
swapped = (codes "7|4", to_server 50) ∷ (codes "7|3", to_server 100) ∷ []

abbrev pub first_poll : Surroundings ℕ
first_poll = record {
  now = 20 * second;
  self = self;
  processes = some (shell ∷ git ∷ []);
  observations = some observations;
  web = up;
  writes = λ _. true;
}

abbrev failed_poll : Surroundings ℕ
failed_poll = record first_poll { processes = none }

started-IsService : IsService started
started-IsService = new_service-IsService laptop (some uploader) (empty_window-IsWindow 0)

-- The worker takes the address behind the second stretch and finishes behind the upload.
abbrev busy : Held ℕ
busy = taken (codes "8.8.8.8") [] (
    act (observed (shell ∷ git ∷ []) first_poll) (
      act (poll_processes_locked (shell ∷ git ∷ []) (20 * second))
        (record { service = started; in_flight = none })))

abbrev uploaded : Held ℕ
uploaded =
    act (sent (shell ∷ git ∷ []) first_poll (count_poll (20 * second) busy.service))
      (act (count_poll (20 * second)) busy)

abbrev spread :
    Spread
      (shell ∷ git ∷ [])
      first_poll
      (record { service = started; in_flight = none })
      (finished (codes "8.8.8.8") (codes "dns.google") uploaded)
unfolding poll_domains_locked cached_display_name_locked is_public_ip lookup poll_processes_locked
    insert
spread = record {
  first = _;
  second = busy;
  third = _;
  behind_processes = rests;
  behind_traffic = takes (codes "8.8.8.8") [] rests refl refl;
  behind_count = rests;
  behind_upload = finishes (codes "8.8.8.8") (codes "dns.google") rests refl;
}

spread-Serial_example :
    Serial
      (shell ∷ git ∷ [])
      first_poll
      (record { service = started; in_flight = none })
      (finished (codes "8.8.8.8") (codes "dns.google") uploaded)
    × ((s : Service ℕ)
        → (poll_once first_poll s).service
          ≡ reported (shell ∷ git ∷ []) first_poll (watched (shell ∷ git ∷ []) first_poll s))
spread-Serial_example = spread-Serial (shell ∷ git ∷ []) first_poll refl spread

poll_once_lem_example :
    ((some (shell ∷ git ∷ []) ≡ none)
      × (poll_once first_poll started
          ≡ record { service = started; written = none; error = some processes_error }))
    ⊎ ((processes : List (Process ℕ)) × (some (shell ∷ git ∷ []) ≡ some processes)
        × Polls first_poll processes started (poll_once first_poll started))
poll_once_lem_example = poll_once_lem first_poll started

poll_domains_locked_samples_example :
    lookup (codes "7|4") (poll_domains_locked observations (20 * second) started).network_samples
    ≡ map_option (λ o. o.sample) (lookup (codes "7|4") observations)
unfolding lookup
poll_domains_locked_samples_example =
    poll_domains_locked_samples (20 * second) observations started (codes "7|4") (refl, (refl, tt))
      started-IsService

poll_processes_locked_lem_example :
    ((r : ProcessRecord ℕ) × (lookup
          (pos 7)
          (poll_processes_locked (shell ∷ git ∷ []) 20 started).pids
        ≡ some r)
      × IsRefreshed 20 git (lookup (pos 7) started.pids) r)
    × (lookup (pos 9) (poll_processes_locked (shell ∷ git ∷ []) 20 started).pids
        ≡ unless
            (λ r. ltb_ℤ (pos (10 * second)) (sub 20 r.last_seen))
            (lookup (pos 9) started.pids))
poll_processes_locked_lem_example =
    poll_processes_locked_lem 20 git (shell ∷ []) [] (pos 9) started
      (record { dict = tt; named = tt }) refl refl refl

-- A poll asks for an address, and the worker takes it.
abbrev fresh : Shared
fresh = record { lookups = started.lookups; in_flight = none }

abbrev asked : Shared
asked = record fresh { lookups = (cached_display_name_locked (codes "8.8.8.8") fresh.lookups).1 }

fresh-IsTracked : IsTracked fresh
unfolding lookup
fresh-IsTracked = record { marked = λ h. refl; bounded = omega arith }

worker_drains_example : (t : Shared) × Works asked t × IsDrained t
worker_drains_example =
    worker_drains (λ _. codes "dns.google") asked
      (Reach-IsTracked fresh-IsTracked (next here (ask fresh (codes "8.8.8.8"))))

poll_domains_locked_order_example :
    lookup (codes "8.8.8.8") (poll_domains_locked observations (20 * second) started).domains
    ≡ lookup (codes "8.8.8.8") (poll_domains_locked swapped (20 * second) started).domains
unfolding lookup
poll_domains_locked_order_example =
    poll_domains_locked_order (20 * second) (codes "8.8.8.8") observations swapped started
      (Perm.swap _ _ []) (refl, (refl, tt)) (refl, (refl, tt)) started-IsService
