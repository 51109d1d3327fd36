-- ===== src/State/Disk/MachineIdentity.antt =====
-- `MachineID` of internal/watcher/state.go on the disk.
use dialtone_watcher.Prelude.{
  is_empty, ◌≡◌, ◌≢◌, ◌⊎◌, inl, inr, refl, sym, ◌∙◌, true, false, Option, none, some, Text, arith,
  Bool-cases, nat_eq, list_eq,
}
use dialtone_watcher.Records.{Summary}
use dialtone_watcher.State.{
  Status, File, holds, not_exist, read_error, Write, machine_id, create_identity,
}
use dialtone_watcher.State.Disk.{
  not_read, not_written, System, Codec, Disk, Attempt, WriteError, write_json_file, read_json,
  MachineIdentityRecord, IdentityError, machine_identity_file_path, create_machine_identity,
  load_or_create_machine_identity,
}
use dialtone_watcher.State.Disk.Writes.{
  Result, stored, unchanged, cut, read_json_stored, write_json_file-Result,
}
use dialtone_watcher.State.Disk.Views.{
  identity_in, view-put_identity, returned, View, view, ends_as,
}

module _ {F : Type 0} (system : System) (identities : Codec MachineIdentityRecord)
    (statuses : Codec Status) (summaries : Codec (Summary F)) where
  abbrev found : Disk → View F
  found = view system identities statuses summaries

  -- the abstract write that a write of the identity's file amounts to
  abbrev pub identity_write : Disk × Option WriteError → Write Text
  identity_write r = ends_as r.1 (found r.0).identity

  abbrev pub write_identity : Text → Attempt → Disk → Disk × Option WriteError
  write_identity uuid attempt disk =
      write_json_file identities attempt (machine_identity_file_path system)
        (record { machine_id = uuid }) 384 disk

  -- `loadOrCreateMachineIdentity` behind the write that ended so
  abbrev created : Text → Disk × Option WriteError → Disk × (IdentityError ⊎ MachineIdentityRecord)
  created uuid r = elim r.1 [
    | none ↦ (r.0, inr (record { machine_id = uuid }))
    | some e ↦ (r.0, inl (not_written e))
  ]

  abbrev Refines :
      Disk → Disk × (IdentityError ⊎ MachineIdentityRecord) → File Text × Option Text → Type 0
  Refines disk r a = (found r.0 ≡ record (found disk) { identity = a.0 }) × (returned r.1 ≡ a.1)

  created-Refines :
      (uuid : Text) (disk : Disk) {r : Disk × Option WriteError}
      → Result identities (machine_identity_file_path system) (record { machine_id = uuid }) disk r
      → identities.is_kept (record { machine_id = uuid }) ≡ true
      → system.reads (machine_identity_file_path system) ≡ true
      → Refines disk (created uuid r) (create_identity uuid (identity_write r))
  unfolding create_identity
  created-Refines uuid disk (stored encoded permissions marshalled) kept readable =
      let path = machine_identity_file_path system in
      (
        rw
            (
              view-put_identity system identities statuses summaries _ disk,
              read_json_stored identities system path disk (record { machine_id = uuid }) encoded
                  permissions readable kept marshalled,
            )
            refl,
        refl,
      )
  created-Refines uuid disk (unchanged e) kept readable = (refl, refl)
  created-Refines uuid disk (cut left) kept readable =
      (view-put_identity system identities statuses summaries left disk, refl)

  create_machine_identity-Refines :
      (uuid : Text) (attempt : Attempt) (disk : Disk)
      → identities.is_kept (record { machine_id = uuid }) ≡ true
      → system.reads (machine_identity_file_path system) ≡ true
      → Refines disk
          (create_machine_identity system identities uuid attempt disk)
          (create_identity uuid (identity_write (write_identity uuid attempt disk)))
  unfolding create_machine_identity
  create_machine_identity-Refines uuid attempt disk kept readable =
      created-Refines uuid disk (write_json_file-Result identities attempt _ _ 384 disk) kept
        readable

  readable_if :
      (disk : Disk) (file : File MachineIdentityRecord)
      → read_json identities system (machine_identity_file_path system) disk ≡ file
      → file ≢ read_error
      → system.reads (machine_identity_file_path system) ≡ true
  unfolding read_json
  readable_if disk file e sound =
      elim (Bool-cases (system.reads (machine_identity_file_path system))) [
        | inl readable ↦ readable
        | inr unreadable ↦ absurd (sound (sym e ∙ rw unreadable refl))
      ]

  -- `loadOrCreateMachineIdentity` by what it finds
  module _ (uuid : Text) (attempt : Attempt) (disk : Disk) where
    abbrev loaded : File MachineIdentityRecord
    loaded = read_json identities system (machine_identity_file_path system) disk

    abbrev outcome : Disk × (IdentityError ⊎ MachineIdentityRecord)
    outcome = load_or_create_machine_identity system identities uuid attempt disk

    abbrev fresh : Disk × (IdentityError ⊎ MachineIdentityRecord)
    fresh = create_machine_identity system identities uuid attempt disk

    load_missing : loaded ≡ not_exist → outcome ≡ fresh
    unfolding load_or_create_machine_identity
    load_missing e = rw (load_or_create_machine_identity, e) refl

    load_unread : loaded ≡ read_error → outcome ≡ (disk, inl not_read)
    unfolding load_or_create_machine_identity
    load_unread e = rw (load_or_create_machine_identity, e) refl

    load_empty :
        (r : MachineIdentityRecord)
        → loaded ≡ holds r
        → is_empty r.machine_id ≡ true
        → outcome ≡ fresh
    unfolding load_or_create_machine_identity
    load_empty r e empty = rw (load_or_create_machine_identity, e, empty) refl

    load_named :
        (r : MachineIdentityRecord)
        → loaded ≡ holds r
        → is_empty r.machine_id ≡ false
        → outcome ≡ (disk, inr r)
    unfolding load_or_create_machine_identity
    load_named r e named = rw (load_or_create_machine_identity, e, named) refl

    abstract_empty :
        (w : Write Text) (id : Text)
        → is_empty id ≡ true
        → machine_id uuid w (holds id) ≡ create_identity uuid w
    unfolding machine_id
    abstract_empty w id empty = rw empty refl

    abstract_named :
        (w : Write Text) (id : Text)
        → is_empty id ≡ false
        → machine_id uuid w (holds id) ≡ (holds id, some id)
    unfolding machine_id
    abstract_named w id named = rw named refl

    load_or_create :
        identities.is_kept (record { machine_id = uuid }) ≡ true
        → (file : File MachineIdentityRecord) → loaded ≡ file
        → Refines disk outcome
            (machine_id uuid (identity_write (write_identity uuid attempt disk)) (identity_in file))
    unfolding machine_id
    load_or_create kept not_exist e = rw (load_missing e) (
        create_machine_identity-Refines uuid attempt disk kept
          (readable_if disk _ e (λ h. absurd (ground arith))))
    load_or_create kept read_error e = rw (load_unread e, e) (refl, refl)
    load_or_create kept (holds r) e = elim (Bool-cases (is_empty r.machine_id)) [
      | inl empty ↦
          rw
            (
              load_empty r e empty,
              abstract_empty (identity_write (write_identity uuid attempt disk)) r.machine_id empty,
            )
            (create_machine_identity-Refines uuid attempt disk kept
              (readable_if disk _ e (λ h. absurd (ground arith))))
      | inr named ↦
          rw
            (
              load_named r e named,
              abstract_named (identity_write (write_identity uuid attempt disk)) r.machine_id named,
              e,
            )
            (refl, refl)
    ]

  -- `MachineID` changes what is found on the disk, and returns, what the abstract `machine_id` does with
  -- the identity that is found there, if the encoding keeps the new identity: of the status and the
  -- summary the same is found in every case.
  pub machine_id-refines :
      (uuid : Text) (attempt : Attempt) (disk : Disk)
      → identities.is_kept (record { machine_id = uuid }) ≡ true
      → (found (load_or_create_machine_identity system identities uuid attempt disk).0
          ≡ record (found disk) {
            identity =
                (machine_id uuid
                  (identity_write (write_identity uuid attempt disk))
                  (found disk).identity).0;
          })
        × (returned (load_or_create_machine_identity system identities uuid attempt disk).1
            ≡ (machine_id uuid
                (identity_write (write_identity uuid attempt disk))
                (found disk).identity).1)
  machine_id-refines uuid attempt disk kept = load_or_create uuid attempt disk kept _ refl
