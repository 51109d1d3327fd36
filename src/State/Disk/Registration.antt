-- ===== src/State/Disk/Registration.antt =====
-- `writeStatus` and `removeStatus` of internal/watcher/state.go on the disk.
use dialtone_watcher.Prelude.{
  ◌≡◌, ◌≢◌, ◌⊎◌, inl, inr, refl, ◌∙◌, Bool, true, false, Option, none, some, arith, Option-cases,
  nat_eq, list_eq, if◌then◌else◌,
}
use dialtone_watcher.Records.{Summary}
use dialtone_watcher.State.{remove_error, Status, File, holds, not_exist, read_error, remove_status}
use dialtone_watcher.State.Disk.{
  System, Codec, Disk, Stored, put, Attempt, WriteError, decoded, MachineIdentityRecord,
  status_file_path, write_status, load_status, remove_status_file,
}
use dialtone_watcher.State.Disk.Writes.{
  Result, stored, unchanged, cut, read_json_missing, read_json_there, read_json_stored,
  write_json_file-Result, put_self,
}
use dialtone_watcher.State.Disk.Views.{View, view, left_by, ends_as, view-put_status}

module _ {F : Type 0} (system : System) (identities : Codec MachineIdentityRecord)
    (statuses : Codec Status) (summaries : Codec (Summary F)) where
  abbrev found : Disk → View F
  found = view system identities statuses summaries

  write_status_go :
      (status : Status) (disk : Disk) {r : Disk × Option WriteError}
      → Result statuses (status_file_path system) status disk r
      → statuses.is_kept status ≡ true
      → system.reads (status_file_path system) ≡ true
      → found r.0 ≡ record (found disk) { status = left_by status (ends_as r.1 (found r.0).status) }
  write_status_go status disk (stored encoded permissions marshalled) kept readable =
      rw
        (
          view-put_status system identities statuses summaries _ disk,
          read_json_stored statuses system _ disk status encoded permissions readable kept
              marshalled,
        )
        refl
  write_status_go status disk (unchanged e) kept readable = refl
  write_status_go status disk (cut left) kept readable =
      view-put_status system identities statuses summaries left disk

  -- Writing a status that its encoding keeps, if the file can be read, changes what is found on the disk
  -- as the abstract write does that ended so: without an error the status is found, with one what the
  -- write left, and what is found of the identity and the summary is the same in every case.
  pub write_status-refines :
      (attempt : Attempt) (status : Status) (disk : Disk)
      → statuses.is_kept status ≡ true
      → system.reads (status_file_path system) ≡ true
      → found (write_status system statuses attempt status disk).0 ≡ record (found disk) {
        status = left_by status (
            ends_as
              (write_status system statuses attempt status disk).1
              (found (write_status system statuses attempt status disk).0).status);
      }
  write_status-refines attempt status disk =
      write_status_go status disk (write_json_file-Result statuses attempt _ status 420 disk)

  view_remove_status :
      (disk : Disk)
      → system.reads (status_file_path system) ≡ true
      → found (put (status_file_path system) none disk) ≡ record (found disk) { status = not_exist }
  view_remove_status disk readable =
      let path = status_file_path system in
      let removed =
        read_json_missing statuses system path (put path none disk) readable
          (put_self path none disk) in
      rw (view-put_status system identities statuses summaries none disk, removed) refl

  remove_status_file-there :
      (removable : Bool) (disk : Disk) (file : Stored)
      → disk (status_file_path system) ≡ some file
      → remove_status_file system removable disk ≡ (
          if removable
          then (put (status_file_path system) none disk, none)
          else (disk, some remove_error))
  unfolding remove_status_file
  remove_status_file-there removable disk file there = rw (remove_status_file, there) refl

  remove_status_file-missing :
      (removable : Bool) (disk : Disk)
      → disk (status_file_path system) ≡ none
      → remove_status_file system removable disk ≡ (disk, none)
  unfolding remove_status_file
  remove_status_file-missing removable disk missing = rw (remove_status_file, missing) refl

  decoded_status :
      (file : Stored)
      → ((s : Status) × (decoded statuses (some file) ≡ holds s))
        ⊎ (decoded statuses (some file) ≡ read_error)
  decoded_status file = elim (Option-cases (statuses.unmarshal file.bytes)) [
    | inl bad ↦ inr (rw (decoded, bad) refl)
    | inr (s, good) ↦ inl (s, rw (decoded, good) refl)
  ]

  -- Removing the status file, if it can be read, changes what is found on the disk as `remove_status`
  -- changes the status, and ends with the same error.
  pub remove_status_file-refines :
      (removable : Bool) (disk : Disk)
      → system.reads (status_file_path system) ≡ true
      → (found (remove_status_file system removable disk).0
          ≡ record (found disk) { status = (remove_status removable (found disk).status).0 })
        × ((remove_status_file system removable disk).1
            ≡ (remove_status removable (found disk).status).1)
  remove_status_file-refines removable disk readable =
      elim (Option-cases (disk (status_file_path system))) [
        | inl missing ↦
            rw
              (
                remove_status_file-missing removable disk missing,
                read_json_missing statuses system _ disk readable missing,
              )
              (refl, refl)
        | inr (file, there) ↦
            let there_read = read_json_there statuses system _ disk file readable there in
            elim (decoded_status file) [
              | inl (s, good) ↦
                  go removable file there (holds s) (there_read ∙ good) (λ h. absurd (ground arith))
              | inr bad ↦
                  go removable file there read_error (there_read ∙ bad) (λ h. absurd (ground arith))
            ]
      ]
    where
      go :
          (removable : Bool) (file : Stored)
          → disk (status_file_path system) ≡ some file
          → (old : File Status) → load_status system statuses disk ≡ old
          → old ≢ not_exist
          → (found (remove_status_file system removable disk).0
              ≡ record (found disk) { status = (remove_status removable (found disk).status).0 })
            × ((remove_status_file system removable disk).1
                ≡ (remove_status removable (found disk).status).1)
      go true file there (holds s) e old =
          rw (remove_status_file-there true disk file there, e)
            (view_remove_status disk readable, refl)
      go true file there read_error e old =
          rw (remove_status_file-there true disk file there, e)
            (view_remove_status disk readable, refl)
      go false file there (holds s) e old =
          rw (remove_status_file-there false disk file there, e) (refl, refl)
      go false file there read_error e old =
          rw (remove_status_file-there false disk file there, e) (refl, refl)
      go removable file there not_exist e old = absurd (old refl)

  -- If the status file can be read: writing a status that its encoding keeps, and removing the file, change
  -- what is found on the disk as the abstract operations on the status do, whatever the calls of the
  -- system do, with the same error of the removal. What is found of the identity and of the summary stays.
  pub status-refines :
      (attempt : Attempt) (status : Status) (removable : Bool) (disk : Disk)
      → statuses.is_kept status ≡ true
      → system.reads (status_file_path system) ≡ true
      → (found (write_status system statuses attempt status disk).0 ≡ record (found disk) {
        status = left_by status (
            ends_as
              (write_status system statuses attempt status disk).1
              (found (write_status system statuses attempt status disk).0).status);
      })
        × (found (remove_status_file system removable disk).0
            ≡ record (found disk) { status = (remove_status removable (found disk).status).0 })
        × ((remove_status_file system removable disk).1
            ≡ (remove_status removable (found disk).status).1)
  status-refines attempt status removable disk kept readable =
      let (status_gone, error) = remove_status_file-refines removable disk readable in
      (write_status-refines attempt status disk kept readable, status_gone, error)
