-- ===== src/Examples/Daemon.antt =====
-- The theorems about the daemon's start and end.
use dialtone_watcher.Cli.Commands.{System, start_detached, send_term, start_watcher, stop_watcher}
use dialtone_watcher.Cli.Commands.OnDaemon.{commands_on_daemon}
use dialtone_watcher.Prelude.{◌≢◌, ◌↔◌}
use dialtone_watcher.Cli.Commands.Cleaned.{IsGone, IsIdle, clean_on_daemon}
use dialtone_watcher.State.{
  clean_stale_status, clean_status, should_verify_process_liveness, load_error, remove_error,
}
use dialtone_watcher.Prelude.Int.{ℤ, pos, ltb_ℤ}
use dialtone_watcher.Service.Daemon.{own_status, ended, save, remember}
use dialtone_watcher.Words.{add64}
use dialtone_watcher.Uploader.Recording.{
  record_processes, record_network, ensure_window, increment_poll, should_upload,
}
use dialtone_watcher.Strings.{to_lower, trim_space}
use dialtone_watcher.Dict.{insert, lookup}
use dialtone_watcher.Lookups.{cached_display_name_locked}
use dialtone_watcher.Prelude.{Bool, ◌*◌, ℕ, ◌≡◌, ◌⊎◌, refl, true, false, none, some, [], ◌∷◌, codes}
use dialtone_watcher.Clock.{sub, second}
use dialtone_watcher.State.{machine_id, not_exist, succeeds}
use dialtone_watcher.Uploader.{Uploader}
use dialtone_watcher.Uploader.Config.{new_uploader}
use dialtone_watcher.Uploader.Config.Laws.{IsSwitchedOff, IsUsable, new_uploader_lem}
use dialtone_watcher.Service.Traffic.{poll_domains_locked}
use dialtone_watcher.Service.Processes.{poll_processes_locked}
use dialtone_watcher.Hosts.{is_public_ip}
use dialtone_watcher.Service.Daemon.{
  Files, Start, Daemon, launch, launched, see, observe_traffic, report, receive, Reach, here, next,
  list, collect, count, take_address, at_start, waiting,
}
use dialtone_watcher.Service.Daemon.Launching.{fresh}
use dialtone_watcher.Service.Daemon.Registered.{status_at, launched_status}
use dialtone_watcher.Service.Daemon.Threads.{shared, launched-IsService, launched-IsTracked}
use dialtone_watcher.Service.Daemon.Ending.{CanEnd, late_lookup}
use dialtone_watcher.Service.Invariant.{IsService}
use dialtone_watcher.Lookups.Protocol.{IsTracked}
use dialtone_watcher.Records.{Summary}
use dialtone_watcher.State.{create_identity, holds}
use dialtone_watcher.Examples.Polls.{shell, git, observations}
use dialtone_watcher.Examples.Parameters.{whole, sites, laptop, self, up, environment, production}

new_uploader_lem_example :
    ((new_uploader {F = ℕ} environment (codes "m") production ≡ none)
      × (IsSwitchedOff environment ⊎ (codes "m" ≡ [])))
    ⊎ ((u : Uploader ℕ) × (new_uploader environment (codes "m") production ≡ some u)
        × IsUsable environment (codes "m") production u
        × (¬ IsSwitchedOff environment)
        × (codes "m" ≢ []))
new_uploader_lem_example = new_uploader_lem environment (codes "m") production

abbrev start : Start ℕ
start = record {
  hardware = some laptop;
  self = self;
  uuid = codes "m";
  identity_write = succeeds;
  status_write = succeeds;
  environment = environment;
  options = production;
}

abbrev nothing_yet : Files ℕ
nothing_yet = record { identity = not_exist; status = not_exist; summary = none }

-- the two threads at their start, behind each stretch of the first poll, and while the worker looks
-- an address up
abbrev launched_daemon : Daemon ℕ
launched_daemon = fresh start (holds (codes "m")) laptop (codes "m") none

abbrev saves : Summary ℕ → Bool
saves _ = true

abbrev seen_daemon : Daemon ℕ
seen_daemon = see true (shell ∷ git ∷ []) (20 * second) launched_daemon

abbrev observed_daemon : Daemon ℕ
observed_daemon = observe_traffic true (some observations) (20 * second) seen_daemon

abbrev counted_daemon : Daemon ℕ
counted_daemon = report start.self saves true (20 * second) observed_daemon

abbrev busy_daemon : Daemon ℕ
busy_daemon = receive (codes "8.8.8.8") [] counted_daemon

launch_example : launch start nothing_yet ≡ launched launched_daemon
unfolding launch machine_id create_identity
launch_example = refl

busy : Reach start.self launched_daemon busy_daemon
unfolding see observe_traffic report poll_domains_locked poll_processes_locked is_public_ip
    cached_display_name_locked lookup insert
busy =
    next
      (next
        (next (next here (list true (shell ∷ git ∷ []) (20 * second) at_start))
          (collect true (some observations) (20 * second) refl))
        (count true (20 * second) saves refl))
      (take_address (codes "8.8.8.8") [] refl refl)

waits : busy_daemon.main ≡ waiting
unfolding report receive see observe_traffic poll_domains_locked poll_processes_locked is_public_ip
    new_uploader trim_space to_lower should_upload increment_poll ensure_window record_network
    record_processes add64 sub
waits = refl

launched_status_example : busy_daemon.files.status ≡ status_at start.self busy_daemon.main
launched_status_example = launched_status start nothing_yet launch_example busy

launched-IsService_example : IsService busy_daemon.service
launched-IsService_example = launched-IsService start nothing_yet launch_example busy

launched-IsTracked_example : IsTracked (shared busy_daemon.service busy_daemon.in_flight)
launched-IsTracked_example = launched-IsTracked start nothing_yet launch_example busy

late_lookup_example : CanEnd start.self busy_daemon false × CanEnd start.self busy_daemon true
unfolding receive
late_lookup_example =
    late_lookup start nothing_yet (codes "8.8.8.8") (codes "dns.google") up (25 * second)
      launch_example busy waits refl

-- The system finds the daemon, which answers and takes signals.
abbrev beside : System ℕ
beside = record {
  identity = some (codes "m");
  identity_path = codes "/home/u/machine-id.json";
  status = holds (record { pid = pos 42; pid_namespace = codes "pid:[1]" });
  summary = not_exist;
  finds = λ _. true;
  answers = λ _. true;
  terminates = λ _. true;
  detached = some (pos 43);
  daemon = λ _. true;
  format_float = λ _ _. [];
}

commands_on_daemon_example :
    ((busy_daemon.main ≡ ended none)
      × ((stop_watcher beside).actions ≡ [])
      × ((stop_watcher beside).error ≡ none)
      × ((start_watcher beside).actions ≡ start_detached ∷ []))
    ⊎ ((busy_daemon.main ≢ ended none)
        × (((stop_watcher beside).actions ≡ send_term (pos 42) ∷ []) ↔ (true ≡ true))
        × (((start_watcher beside).actions ≡ [])
            ↔ ((ltb_ℤ (pos 0) (pos 42) ≡ true) × (true ≡ true) × (true ≡ true))))
unfolding report see observe_traffic receive save remember
commands_on_daemon_example = commands_on_daemon start nothing_yet beside launch_example busy refl

-- a command behind the same daemon, whose process does not answer any more
abbrev gone : ℤ → Bool
gone _ = false

abbrev cleaned : System ℕ
cleaned = record beside { status = not_exist }

clean_on_daemon_example :
    ((busy_daemon.main ≡ ended none)
      × (clean_stale_status (codes "pid:[1]") gone true busy_daemon.files.status
          ≡ (not_exist, some load_error))
      × IsIdle cleaned)
    ⊎ (((busy_daemon.main ≢ ended none)
          × IsGone (codes "pid:[1]") gone (own_status start.self)
          × (((true ≡ true)
                × (clean_stale_status (codes "pid:[1]") gone true busy_daemon.files.status
                    ≡ (not_exist, none))
                × IsIdle cleaned)
              ⊎ ((true ≡ false)
                  × (clean_stale_status (codes "pid:[1]") gone true busy_daemon.files.status
                      ≡ (holds (own_status start.self), some remove_error)))))
        ⊎ ((busy_daemon.main ≢ ended none)
            × (¬ IsGone (codes "pid:[1]") gone (own_status start.self))
            × (clean_stale_status (codes "pid:[1]") gone true busy_daemon.files.status
                ≡ (holds (own_status start.self), none))))
unfolding report see observe_traffic receive save remember clean_stale_status clean_status
    should_verify_process_liveness
clean_on_daemon_example =
    clean_on_daemon start nothing_yet (codes "pid:[1]") gone true cleaned launch_example busy refl
