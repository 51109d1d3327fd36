-- ===== src/State/Identity.antt =====
-- `MachineID` of internal/watcher/state.go, called again and again.
use dialtone_watcher.State.Disk.{
  System, Codec, MachineIdentityRecord, Attempt, Disk, IdentityError,
  load_or_create_machine_identity,
}
use dialtone_watcher.State.Disk.Views.{View, view, returned}
use dialtone_watcher.State.Disk.MachineIdentity.{write_identity, identity_write, machine_id-refines}
use dialtone_watcher.Prelude.{
  refl, Option, ap, ◌∙◌, sym, true, ◌⊎◌, some, [], ◌∷◌, ◌≡◌, ◌≢◌, Text, arith,
}
use dialtone_watcher.State.{
  Summary, Status, File, holds, not_exist, read_error, Write, succeeds, fails, machine_id,
}

-- A call that returns an identity leaves it in the file, and whatever a later call would make and
-- however it would end, it returns that identity and leaves the file alone, if `uuid.NewString`
-- returned a text that is not empty in the first call.
pub machine_id_stable :
    (uuid : Text) (write : Write Text) (file : File Text) (id : Text) (later_uuid : Text)
    (later_write : Write Text)
    → uuid ≢ []
    → (machine_id uuid write file).1 ≡ some id
    → ((machine_id uuid write file).0 ≡ holds id)
      × (id ≢ [])
      × (machine_id later_uuid later_write (machine_id uuid write file).0 ≡ (holds id, some id))
unfolding machine_id
machine_id_stable uuid succeeds (holds []) id u w v h = (ground arith, ground arith, ground arith)
machine_id_stable uuid (fails f) (holds []) id u w v h = absurd (ground arith)
machine_id_stable uuid write (holds (c ∷ s)) id u w v h = (ground arith, ground arith, ground arith)
machine_id_stable uuid succeeds not_exist id u w v h = (ground arith, ground arith, ground arith)
machine_id_stable uuid (fails f) not_exist id u w v h = absurd (ground arith)
machine_id_stable uuid write read_error id u w v h = absurd (ground arith)

machine_id_again :
    (uuid : Text) (write : Write Text) (id : Text)
    → id ≢ []
    → machine_id uuid write (holds id) ≡ (holds id, some id)
unfolding machine_id
machine_id_again uuid write [] named = absurd (named refl)
machine_id_again uuid write (c ∷ s) named = refl

module _ {F : Type 0} (system : System) (identities : Codec MachineIdentityRecord)
    (statuses : Codec Status) (summaries : Codec (Summary F)) (disk : Disk) where
  abbrev call : Text → Attempt → Disk → Disk × (IdentityError ⊎ MachineIdentityRecord)
  call = load_or_create_machine_identity system identities

  abbrev found : Disk → View F
  found = view system identities statuses summaries

  -- A call of `MachineID` that returns an identity leaves it on the disk, and whatever a later call would
  -- make and however its write would end, it returns that identity and leaves what is found on the disk
  -- as it is, if `uuid.NewString` returned a text that is not empty in the first call and the encoding
  -- keeps what either call would write.
  pub machine_id_kept :
      (uuid : Text) (attempt : Attempt) (id : Text) (later_uuid : Text) (later : Attempt)
      → uuid ≢ []
      → identities.is_kept (record { machine_id = uuid }) ≡ true
      → identities.is_kept (record { machine_id = later_uuid }) ≡ true
      → returned (call uuid attempt disk).1 ≡ some id
      → ((found (call uuid attempt disk).0).identity ≡ holds id)
        × (returned (call later_uuid later (call uuid attempt disk).0).1 ≡ some id)
        × (found (call later_uuid later (call uuid attempt disk).0).0
            ≡ found (call uuid attempt disk).0)
  machine_id_kept uuid attempt id later_uuid later named kept kept' e =
      let after = (call uuid attempt disk).0 in
      let (first_view, first_id) =
        machine_id-refines system identities statuses summaries uuid attempt disk kept in
      let (next_view, next_id) =
        machine_id-refines system identities statuses summaries later_uuid later after kept' in
      let stable = machine_id_stable uuid _ _ id [] succeeds named (sym first_id ∙ e) in
      let there : (found after).identity ≡ holds id = ap (λ v. v.identity) first_view ∙ stable.0 in
      let read : File Text → File Text × Option Text = machine_id later_uuid (
        identity_write system identities statuses summaries
          (write_identity system identities statuses summaries later_uuid later after)) in
      let again : read (found after).identity ≡ (holds id, some id) =
        ap read there ∙ machine_id_again later_uuid _ id stable.1 in
      (
        there,
        next_id ∙ ap (λ x. x.1) again,
        next_view
            ∙ ap (λ x. record (found after) { identity = x }) (ap (λ x. x.0) again ∙ sym there),
      )
