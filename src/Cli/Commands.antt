-- ===== src/Cli/Commands.antt =====
-- `run`, `startWatcher`, `stopWatcher` and `printSummary` of main.go. What the system answers is an
-- argument; what the commands do to it are actions.
pub mod Laws
pub mod OnDaemon
pub mod Cleaned
use dialtone_watcher.Prelude.{
  ℕ, Bool, true, not, ◌&&◌, ◌||◌, Option, none, some, List, [], ◌∷◌, ◌++◌, Text, codes, is_empty,
  ◌==◌, nat_eq, list_eq, if◌then◌else◌,
}
use dialtone_watcher.Prelude.Int.{ℤ, pos, ltb_ℤ}
use dialtone_watcher.Decimal.{format_int}
use dialtone_watcher.Float.{Float64}
use dialtone_watcher.Records.{Summary}
use dialtone_watcher.State.{Status, File, holds, not_exist, read_error}
use dialtone_watcher.Cli.{RunOptions, split_command, parse_run_options}
use dialtone_watcher.Cli.Print.{print_help, print_machine_id, summary_lines}

pub data Action : Type 0 where
  start_detached : Action
  send_term : ℤ → Action
  run_daemon : RunOptions → Action

pub data CommandError : Type 0 where
  identity_error load_error start_error find_error signal_error daemon_error : CommandError
  unknown_option : CommandError
  unknown_command : Text → CommandError
  panic : CommandError

-- What a command did, what it printed, and its error.
pub record Outcome : Type 0 where
  pub actions : List Action
  pub printed : List Text
  pub error : Option CommandError

-- What the system answers: `watcher.MachineID` and its path, `watcher.LoadStatus`, `watcher.LoadSummary`,
-- `os.FindProcess`, `process.Signal` with the signals 0 and SIGTERM, `watcher.StartDetached`,
-- `watcher.RunDaemon` (whether it ends without an error), and the verb `%.<d>f`.
pub record System (F : Type 0) : Type 0 where
  pub identity : Option Text
  pub identity_path : Text
  pub status : File Status
  pub summary : File (Summary F)
  pub finds : ℤ → Bool
  pub answers : ℤ → Bool
  pub terminates : ℤ → Bool
  pub detached : Option ℤ
  pub daemon : RunOptions → Bool
  pub format_float : ℕ → F → Text

abbrev pub prints : List Text → Outcome
prints lines = record { actions = []; printed = lines; error = none }

abbrev pub fails_with : CommandError → Outcome
fails_with e = record { actions = []; printed = []; error = some e }

module _ {F : Type 0} (sys : System F) where
  -- the tests of `startWatcher` on the status
  abbrev pub is_running : File Status → Option ℤ
  is_running (holds s) =
      if ltb_ℤ (pos 0) s.pid && (sys.finds s.pid && sys.answers s.pid) then some s.pid else none
  is_running not_exist = none
  is_running read_error = none

  abbrev pub started : Option ℤ → Outcome
  started none = record { actions = start_detached ∷ []; printed = []; error = some start_error }
  started (some pid) = record {
    actions = start_detached ∷ [];
    printed = (codes "dialtone-watcher started with pid " ++ format_int pid) ∷ [];
    error = none;
  }

  abbrev pub start_unless : Option ℤ → Option ℤ → Outcome
  start_unless none detached = started detached
  start_unless (some pid) detached =
      prints ((codes "dialtone-watcher is already running with pid " ++ format_int pid) ∷ [])

  unfoldable pub start_watcher : Outcome
  unfolding format_int
  start_watcher = start_unless (is_running sys.status) sys.detached

  abbrev pub stop_process : ℤ → Outcome
  stop_process pid =
      if not (sys.finds pid)
      then fails_with find_error
      else if not (sys.terminates pid)
      then record { actions = send_term pid ∷ []; printed = []; error = some signal_error }
      else record {
        actions = send_term pid ∷ [];
        printed = (codes "sent stop signal to pid " ++ format_int pid) ∷ [];
        error = none;
      }

  abbrev pub stop_recorded : File Status → Outcome
  stop_recorded (holds s) = stop_process s.pid
  stop_recorded not_exist = prints (codes "dialtone-watcher is not running" ∷ [])
  stop_recorded read_error = fails_with load_error

  unfoldable pub stop_watcher : Outcome
  unfolding format_int
  stop_watcher = stop_recorded sys.status

  abbrev pub run_with : Option RunOptions → Outcome
  run_with none = fails_with unknown_option
  run_with (some options) =
      let tested : RunOptions = record options { test_mode = true } in
      record {
        actions = run_daemon tested ∷ [];
        printed = [];
        error = if sys.daemon tested then none else some daemon_error;
      }

  module _ ⦃fl : Float64 F⦄ where
    abbrev pub print_loaded : File (Summary F) → Outcome
    print_loaded (holds s) = elim (summary_lines sys.format_float s) [
      | some lines ↦ prints lines
      | none ↦ fails_with panic
    ]
    print_loaded not_exist =
        prints (codes "No watcher state found. Start it with: ./dialtone-watcher start" ∷ [])
    print_loaded read_error = fails_with load_error

    unfoldable pub print_summary : Outcome
    unfolding summary_lines
    print_summary = print_loaded sys.summary

    -- the switch of `run`, and the test for an empty command in front of it
    unfoldable pub run_command : Text → List Text → Outcome
    unfolding start_watcher stop_watcher print_summary print_help parse_run_options
    run_command command args =
        if is_empty command
        then prints print_help
        else if command == codes "start"
        then start_watcher
        else if command == codes "stop"
        then stop_watcher
        else if command == codes "summary"
        then print_summary
        else if command == codes "__run"
        then run_with (parse_run_options args)
        else if command == codes "help" || (command == codes "-h" || command == codes "--help")
        then prints print_help
        else record { actions = []; printed = print_help; error = some (unknown_command command) }

    abbrev pub behind_lines : List Text → Outcome → Outcome
    behind_lines lines o = record o { printed = lines ++ o.printed }

    unfoldable pub run : List Text → Outcome
    unfolding run_command split_command print_machine_id
    run args =
        let (command, command_args) = split_command args in
        if command == codes "__run" then run_command command command_args else elim sys.identity [
          | none ↦ fails_with identity_error
          | some id ↦
              behind_lines (print_machine_id id sys.identity_path)
                (run_command command command_args)
        ]
