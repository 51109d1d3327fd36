-- ===== src/State/Disk.antt =====
-- The directory of internal/watcher/state.go: its paths, and what is read, written and removed there.
-- The environment, `filepath.Join`, encoding/json and the calls of the system are parameters.
pub mod MachineIdentity
pub mod Registration
pub mod Views
pub mod Writes
use dialtone_watcher.Prelude.{
  ℕ, ◌≡◌, ◌⊎◌, inl, inr, Bool, true, false, not, ◌&&◌, Option, none, some, List, [], ◌∷◌, Text,
  codes, is_empty, nat_eq, list_eq, ◌==◌, if◌then◌else◌,
}
use dialtone_watcher.Prelude.Int.{ℤ}
use dialtone_watcher.Records.{Summary}
use dialtone_watcher.State.{
  Status, File, holds, not_exist, read_error, load_summary, remove_error, CleanError,
}

-- A name without a separator that is neither `.` nor `..`.
abbrev pub has_no_slash : Text → Bool
has_no_slash [] = true
has_no_slash (c ∷ s) = not (c == 47) && has_no_slash s

abbrev pub is_file_name : Text → Bool
is_file_name name =
    not (is_empty name) && has_no_slash name && not (name == codes ".") && not (name == codes "..")

-- The process's surroundings. `join` is `filepath.Join` on two elements: what it returns for a
-- directory and the name of a file ends in that name. `reads` says which files may be read.
pub record System : Type 0 where
  pub getenv : Text → Text
  pub user_cache_dir : Option Text
  pub temp_dir : Text
  pub join : Text → Text → Text
  pub reads : Text → Bool
  pub readlink : Text → Option Text
  pub join-injective :
      (dir a b : Text)
      → is_file_name a ≡ true
      → is_file_name b ≡ true
      → join dir a ≡ join dir b
      → a ≡ b

-- `json.MarshalIndent(value, "", "  ")` and `json.Unmarshal` into a fresh value. Not every value comes
-- back: bytes of a string that are no UTF-8 are replaced.
pub record Codec (A : Type 0) : Type 0 where
  pub marshal : A → Option Text
  pub unmarshal : Text → Option A
  pub is_kept : A → Bool
  pub unmarshal-marshal :
      (value : A) (encoded : Text)
      → is_kept value ≡ true
      → marshal value ≡ some encoded
      → unmarshal encoded ≡ some value

-- A file: its bytes, and the permissions that it was created with, less the umask.
pub record Stored : Type 0 where
  pub bytes : Text
  pub permissions : ℕ

abbrev pub Disk : Type 0
Disk = Text → Option Stored

abbrev pub put : Text → Option Stored → Disk → Disk
put path file disk p = if p == path then file else disk p

-- How a write goes on: whether `os.MkdirAll` succeeds, and whether `os.WriteFile` does, or else what it
-- leaves.
pub data WriteFile : Type 0 where
  written : WriteFile
  interrupted : Option Stored → WriteFile

pub record Attempt : Type 0 where
  pub mkdir_all : Bool
  pub write_file : WriteFile

pub data WriteError : Type 0 where
  directory_error encoding_error file_error : WriteError

-- `os.WriteFile` keeps the permissions of a file that is there
abbrev pub permissions_of : Option Stored → ℕ → ℕ
permissions_of none permissions = permissions
permissions_of (some file) permissions = file.permissions

unfoldable pub write_bytes : WriteFile → Text → Text → ℕ → Disk → Disk × Option WriteError
write_bytes written path encoded permissions disk = (
  put path (some (record { bytes = encoded; permissions = permissions_of (disk path) permissions }))
      disk,
  none,
)
write_bytes (interrupted left) path encoded permissions disk = (put path left disk, some file_error)

module _ {A : Type 0} (codec : Codec A) where
  unfoldable pub write_json_file : Attempt → Text → A → ℕ → Disk → Disk × Option WriteError
  unfolding write_bytes
  write_json_file attempt path value permissions disk =
      if not attempt.mkdir_all then (disk, some directory_error) else elim (codec.marshal value) [
        | none ↦ (disk, some encoding_error)
        | some encoded ↦ write_bytes attempt.write_file path encoded permissions disk
      ]

  -- 0o644
  abbrev pub write_json : Attempt → Text → A → Disk → Disk × Option WriteError
  write_json attempt path value disk = write_json_file attempt path value 420 disk

  abbrev pub decoded : Option Stored → File A
  decoded none = not_exist
  decoded (some file) = elim (codec.unmarshal file.bytes) [
    | none ↦ read_error
    | some value ↦ holds value
  ]

  unfoldable pub read_json : System → Text → Disk → File A
  read_json system path disk = if system.reads path then decoded (disk path) else read_error

pub record MachineIdentityRecord : Type 0 where
  pub machine_id : Text

pub data IdentityError : Type 0 where
  not_read : IdentityError
  not_written : WriteError → IdentityError

module _ (system : System) where
  unfoldable pub base_dir : Text
  base_dir =
      let override = system.getenv (codes "DIALTONE_WATCHER_HOME") in
      if not (is_empty override) then override else elim system.user_cache_dir [
        | none ↦ system.join system.temp_dir (codes "dialtone-watcher")
        | some cache_dir ↦ system.join cache_dir (codes "dialtone-watcher")
      ]

  abbrev pub status_file_path : Text
  status_file_path = system.join base_dir (codes "status.json")

  abbrev pub summary_file_path : Text
  summary_file_path = system.join base_dir (codes "summary.json")

  abbrev pub machine_identity_file_path : Text
  machine_identity_file_path = system.join base_dir (codes "machine-id.json")

  abbrev pub pid_namespace_of_self : Text
  pid_namespace_of_self = elim (system.readlink (codes "/proc/self/ns/pid")) [
    | none ↦ []
    | some namespace ↦ namespace
  ]

  module _ (statuses : Codec Status) where
    abbrev pub load_status : Disk → File Status
    load_status disk = read_json statuses system status_file_path disk

    abbrev pub write_status : Attempt → Status → Disk → Disk × Option WriteError
    write_status attempt status disk = write_json statuses attempt status_file_path status disk

  module _ {F : Type 0} (summaries : Codec (Summary F)) where
    abbrev pub load_summary_file : (ℤ → Bool) → Disk → File (Summary F)
    load_summary_file is_process_running disk =
        load_summary pid_namespace_of_self is_process_running
          (read_json summaries system summary_file_path disk)

    abbrev pub write_summary : Attempt → Summary F → Disk → Disk × Option WriteError
    write_summary attempt summary disk = write_json summaries attempt summary_file_path summary disk

  -- `removeStatus`; `removable` says whether `os.Remove` takes a file that is there
  unfoldable pub remove_status_file : Bool → Disk → Disk × Option CleanError
  remove_status_file removable disk = elim (disk status_file_path) [
    | none ↦ (disk, none)
    | some file ↦
        if removable then (put status_file_path none disk, none) else (disk, some remove_error)
  ]

  module _ (identities : Codec MachineIdentityRecord) where
    -- a fresh identity, 0o600
    unfoldable pub create_machine_identity :
        Text → Attempt → Disk → Disk × (IdentityError ⊎ MachineIdentityRecord)
    create_machine_identity uuid attempt disk =
        let fresh : MachineIdentityRecord = record { machine_id = uuid } in
        let (after, error) =
          write_json_file identities attempt machine_identity_file_path fresh 384 disk in
        elim error [ none ↦ (after, inr fresh) | some e ↦ (after, inl (not_written e)) ]

    unfoldable pub load_or_create_machine_identity :
        Text → Attempt → Disk → Disk × (IdentityError ⊎ MachineIdentityRecord)
    load_or_create_machine_identity uuid attempt disk =
        elim (read_json identities system machine_identity_file_path disk) [
          | holds found ↦
              if not (is_empty found.machine_id)
              then (disk, inr found)
              else create_machine_identity uuid attempt disk
          | not_exist ↦ create_machine_identity uuid attempt disk
          | read_error ↦ (disk, inl not_read)
        ]
