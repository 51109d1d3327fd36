-- ===== src/State/Disk/Writes.antt =====
-- `writeJSONFile` and `readJSON` of internal/watcher/state.go.
use dialtone_watcher.Prelude.{
  ℕ, ◌≡◌, ◌≢◌, ◌⊎◌, inl, inr, refl, true, false, Option, none, some, Text, arith, Bool-cases,
  Option-cases, eq_iff, eq_refl, nat_eq, list_eq,
}
use dialtone_watcher.State.{holds, not_exist}
use dialtone_watcher.State.Disk.{
  System, Codec, Disk, Stored, put, WriteFile, written, interrupted, Attempt, WriteError,
  directory_error, encoding_error, file_error, write_bytes, write_json_file, read_json, decoded,
}

pub put_self : (path : Text) (file : Option Stored) (disk : Disk) → put path file disk path ≡ file
put_self path file disk = rw (eq_refl path) refl

pub put_other :
    (path other : Text) (file : Option Stored) (disk : Disk)
    → other ≢ path
    → put path file disk other ≡ disk other
put_other path other file disk apart = ground (arith, eq_iff other path)

pub WriteFile-cases :
    (w : WriteFile) → (w ≡ written) ⊎ ((left : Option Stored) × (w ≡ interrupted left))
WriteFile-cases written = inl refl
WriteFile-cases (interrupted left) = inr (left, refl)

module _ {A : Type 0} (codec : Codec A) (system : System) (path : Text) (disk : Disk) where
  pub read_json_missing :
      system.reads path ≡ true → disk path ≡ none → read_json codec system path disk ≡ not_exist
  unfolding read_json
  read_json_missing readable missing = rw (readable, missing) refl

  pub read_json_there :
      (file : Stored)
      → system.reads path ≡ true
      → disk path ≡ some file
      → read_json codec system path disk ≡ decoded codec (some file)
  unfolding read_json
  read_json_there file readable there = rw (readable, there) refl

  pub read_json_stored :
      (value : A) (encoded : Text) (permissions : ℕ)
      → system.reads path ≡ true
      → codec.is_kept value ≡ true
      → codec.marshal value ≡ some encoded
      → read_json codec system path
          (put path (some (record { bytes = encoded; permissions = permissions })) disk)
        ≡ holds value
  unfolding read_json
  read_json_stored value encoded permissions readable kept marshalled =
      rw (readable, eq_refl path, codec.unmarshal-marshal value encoded kept marshalled) refl

-- What a write may do to the disk.
pub data Result {A : Type 0} (codec : Codec A) (path : Text) (value : A) (disk : Disk)
    : Disk × Option WriteError → Type 0 where
  stored :
      (encoded : Text) (permissions : ℕ)
      → codec.marshal value ≡ some encoded
      → Result codec path value disk
          (put path (some (record { bytes = encoded; permissions = permissions })) disk, none)
  unchanged : (e : WriteError) → Result codec path value disk (disk, some e)
  cut : (left : Option Stored) → Result codec path value disk (put path left disk, some file_error)

pub write_json_file-Result :
    {A : Type 0} (codec : Codec A) (attempt : Attempt) (path : Text) (value : A) (permissions : ℕ)
    (disk : Disk)
    → Result codec path value disk (write_json_file codec attempt path value permissions disk)
unfolding write_json_file write_bytes
write_json_file-Result codec attempt path value permissions disk =
    elim (Bool-cases attempt.mkdir_all) [
      | inr failed ↦ rw failed (unchanged directory_error)
      | inl made ↦ elim (Option-cases (codec.marshal value)) [
        | inl unmarshalled ↦ rw (made, unmarshalled) (unchanged encoding_error)
        | inr (encoded, marshalled) ↦ elim (WriteFile-cases attempt.write_file) [
          | inl whole ↦ rw (made, marshalled, whole) (stored encoded _ marshalled)
          | inr (left, short) ↦ rw (made, marshalled, short) (cut left)
        ]
      ]
    ]

module _ {A : Type 0} (codec : Codec A) (system : System) (path other : Text) (value : A)
    (disk : Disk) where
  -- How `writeJSONFile` ends: the value is in the file, or there is an error, of the directory or the
  -- encoding before anything is written, or of the write.
  pub data Saves (attempt : Attempt) : Disk × Option WriteError → Type 0 where
    saved :
        (after : Disk)
        → attempt.mkdir_all ≡ true
        → attempt.write_file ≡ written
        → read_json codec system path after ≡ holds value
        → after other ≡ disk other
        → Saves attempt (after, none)
    no_directory : attempt.mkdir_all ≡ false → Saves attempt (disk, some directory_error)
    no_encoding : codec.marshal value ≡ none → Saves attempt (disk, some encoding_error)
    no_file :
        (after : Disk) (left : Option Stored)
        → attempt.write_file ≡ interrupted left
        → after path ≡ left
        → after other ≡ disk other
        → Saves attempt (after, some file_error)

  -- Writing a value that its encoding keeps to a file that can be read ends in one of these ways: without
  -- an error, and then reading the file returns the value; with the error of the directory or of the
  -- encoding, and then the disk is as before; or with that of the write, and then the file holds what
  -- the write left. No other file is touched.
  pub write_json_file-Saves :
      (attempt : Attempt) (permissions : ℕ)
      → codec.is_kept value ≡ true
      → system.reads path ≡ true
      → other ≢ path
      → Saves attempt (write_json_file codec attempt path value permissions disk)
  unfolding write_json_file read_json write_bytes
  write_json_file-Saves attempt permissions kept readable apart =
      elim (Bool-cases attempt.mkdir_all) [
        | inr failed ↦ rw failed (no_directory refl)
        | inl made ↦ elim (Option-cases (codec.marshal value)) [
          | inl unmarshalled ↦ rw (made, unmarshalled) (no_encoding unmarshalled)
          | inr (encoded, marshalled) ↦ elim (WriteFile-cases attempt.write_file) [
            | inl whole ↦
                rw (made, marshalled, whole)
                  (saved _ refl refl
                    (rw
                      (
                        readable,
                        eq_refl path,
                        codec.unmarshal-marshal value encoded kept marshalled,
                      )
                      refl)
                    (put_other path other _ disk apart))
            | inr (left, short) ↦
                rw (made, marshalled, short)
                  (no_file _ left refl (put_self path left disk)
                    (put_other path other left disk apart))
          ]
        ]
      ]
