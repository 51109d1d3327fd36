-- ===== src/State/Disk/Views.antt =====
-- What `LoadStatus`, `LoadSummary` and `MachineID` of internal/watcher/state.go find on the disk, and how
-- writes and removals change it.
use dialtone_watcher.Prelude.{
  ◌≡◌, ◌≢◌, ◌⊎◌, inl, inr, refl, true, false, Option, none, some, Text, arith, eq_iff, nat_eq,
  list_eq, ◌==◌,
}
use dialtone_watcher.Records.{Summary}
use dialtone_watcher.State.{Status, File, holds, not_exist, read_error, Write, succeeds, fails}
use dialtone_watcher.State.Disk.{
  System, Codec, Disk, Stored, put, WriteError, read_json, MachineIdentityRecord, IdentityError,
  status_file_path, summary_file_path, machine_identity_file_path, load_status, is_file_name,
}
use dialtone_watcher.State.Disk.Writes.{put_other}

-- The three files, as they are read.
pub record View (F : Type 0) : Type 0 where
  pub identity : File Text
  pub status : File Status
  pub summary : File (Summary F)

abbrev pub identity_in : File MachineIdentityRecord → File Text
identity_in (holds r) = holds r.machine_id
identity_in not_exist = not_exist
identity_in read_error = read_error

-- what a write of `value` leaves
abbrev pub left_by : {A : Type 0} → A → Write A → File A
left_by value succeeds = holds value
left_by value (fails file) = file

-- how a write went, by its error and what is read afterwards
abbrev pub ends_as : {A : Type 0} → Option WriteError → File A → Write A
ends_as none file = succeeds
ends_as (some e) file = fails file

-- what a call of `MachineID` returns, without the kind of its error
abbrev pub returned : IdentityError ⊎ MachineIdentityRecord → Option Text
returned (inl e) = none
returned (inr r) = some r.machine_id

module _ (system : System) where
  -- files of two names are two files
  pub path_apart :
      (dir a b : Text)
      → is_file_name a ≡ true
      → is_file_name b ≡ true
      → (a == b) ≡ false
      → system.join dir a ≢ system.join dir b
  path_apart dir a b x y apart same =
      let named = system.join-injective dir a b x y same in absurd (ground (arith, eq_iff a b))

  pub read_json-put :
      {A : Type 0} (codec : Codec A) (path other : Text) (file : Option Stored) (disk : Disk)
      → other ≢ path
      → read_json codec system other (put path file disk) ≡ read_json codec system other disk
  unfolding read_json
  read_json-put codec path other file disk apart = rw (put_other path other file disk apart) refl

module _ {F : Type 0} (system : System) (identities : Codec MachineIdentityRecord)
    (statuses : Codec Status) (summaries : Codec (Summary F)) where
  abbrev pub view : Disk → View F
  view disk = record {
    identity = identity_in (read_json identities system (machine_identity_file_path system) disk);
    status = load_status system statuses disk;
    summary = read_json summaries system (summary_file_path system) disk;
  }

  pub view-put_status :
      (file : Option Stored) (disk : Disk)
      → view (put (status_file_path system) file disk) ≡ record (view disk) {
        status = load_status system statuses (put (status_file_path system) file disk);
      }
  view-put_status file disk =
      rw
        (
          read_json-put system identities (status_file_path system)
              (machine_identity_file_path system) file disk
              (path_apart system _ _ _ refl refl refl),
          read_json-put system summaries (status_file_path system) (summary_file_path system) file
              disk (path_apart system _ _ _ refl refl refl),
        )
        refl

  pub view-put_identity :
      (file : Option Stored) (disk : Disk)
      → view (put (machine_identity_file_path system) file disk) ≡ record (view disk) {
        identity = identity_in (
            read_json identities system
              (machine_identity_file_path system)
              (put (machine_identity_file_path system) file disk));
      }
  view-put_identity file disk =
      rw
        (
          read_json-put system statuses (machine_identity_file_path system)
              (status_file_path system) file disk (path_apart system _ _ _ refl refl refl),
          read_json-put system summaries (machine_identity_file_path system)
              (summary_file_path system) file disk (path_apart system _ _ _ refl refl refl),
        )
        refl
