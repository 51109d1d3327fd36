-- ===== src/State.antt =====
-- The files of internal/watcher/state.go, and `CleanStaleStatus` of internal/watcher/watcher.go. A file
-- is what `readJSON` finds: a record, no file, or another error (unreadable or malformed).
pub mod Disk
pub mod Identity
pub mod Liveness
use dialtone_watcher.Prelude.{
  ℕ, Bool, true, false, not, ◌&&◌, Option, none, some, [], ◌∷◌, Text, is_empty, nat_eq, list_eq,
  ◌==◌, if◌then◌else◌,
}
use dialtone_watcher.Prelude.Int.{ℤ, pos, int_eq}
use dialtone_watcher.Records.{Summary}

pub record Status : Type 0 where
  pub pid : ℤ
  pub pid_namespace : Text

pub data File (A : Type 0) : Type 0 where
  holds : A → File A
  not_exist read_error : File A

unfoldable pub should_verify_process_liveness : Text → Text → Bool
should_verify_process_liveness target current =
    if is_empty target then true else if is_empty current then false else target == current

module _ {F : Type 0} (current : Text) (is_process_running : ℤ → Bool) where
  -- the checks of `LoadSummary` on what it has read
  unfoldable pub check_summary : Summary F → Summary F
  check_summary s =
      if not s.running
      then record s { pid = pos 0 }
      else if s.pid == pos 0
      then record s { running = false; pid = pos 0 }
      else if should_verify_process_liveness s.pid_namespace current
          && not (is_process_running s.pid)
      then record s { running = false; pid = pos 0 }
      else s

  unfoldable pub load_summary : File (Summary F) → File (Summary F)
  unfolding check_summary
  load_summary (holds s) = holds (check_summary s)
  load_summary not_exist = not_exist
  load_summary read_error = read_error

pub data CleanError : Type 0 where
  load_error remove_error : CleanError

-- `removeStatus`: a missing file is no error; `removable` says whether `os.Remove` succeeds.
abbrev pub remove_status : Bool → File Status → File Status × Option CleanError
remove_status removable not_exist = (not_exist, none)
remove_status removable file = if removable then (not_exist, none) else (file, some remove_error)

-- `CleanStaleStatus` on a status that was read
unfoldable pub clean_status : Text → (ℤ → Bool) → Bool → Status → File Status × Option CleanError
unfolding should_verify_process_liveness
clean_status current is_process_running removable status =
    if status.pid == pos 0
    then (holds status, none)
    else if should_verify_process_liveness status.pid_namespace current
        && is_process_running status.pid
    then (holds status, none)
    else if not (should_verify_process_liveness status.pid_namespace current)
    then (holds status, none)
    else remove_status removable (holds status)

unfoldable pub clean_stale_status :
    Text → (ℤ → Bool) → Bool → File Status → File Status × Option CleanError
unfolding clean_status
clean_stale_status current is_process_running removable (holds status) =
    clean_status current is_process_running removable status
clean_stale_status current is_process_running removable file = (file, some load_error)

-- How `writeJSONFile` ends: the file holds the record, or there is an error and it is left as it may.
pub data Write (A : Type 0) : Type 0 where
  succeeds : Write A
  fails : File A → Write A

-- `newMachineIdentity` and the write behind it
unfoldable pub create_identity : Text → Write Text → File Text × Option Text
create_identity uuid succeeds = (holds uuid, some uuid)
create_identity uuid (fails file) = (file, none)

-- `MachineID`: the file of the machine's identity afterwards, and the identity, or `none` for an
-- error. `uuid` is what `uuid.NewString()` would return.
unfoldable pub machine_id : Text → Write Text → File Text → File Text × Option Text
unfolding create_identity
machine_id uuid write (holds id) =
    if not (is_empty id) then (holds id, some id) else create_identity uuid write
machine_id uuid write not_exist = create_identity uuid write
machine_id uuid write read_error = (read_error, none)
