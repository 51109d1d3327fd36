-- ===== src/Examples/Disk.antt =====
-- The theorems about the files on the disk.
use dialtone_watcher.State.Disk.{create_machine_identity}
use dialtone_watcher.State.Disk.{read_json}
use dialtone_watcher.Prelude.{nat_eq}
use dialtone_watcher.Prelude.{
  ◌∙◌, ap, ◌==◌, ◌⊎◌, if◌then◌else◌, sym, ℕ, ◌≡◌, refl, true, Option, none, some, [], ◌∷◌, ◌++◌,
  Text, codes, arith,
}
use dialtone_watcher.Prelude.Int.{ℤ, pos, negsuc}
use dialtone_watcher.Records.{Summary}
use dialtone_watcher.State.{machine_id, remove_status, Status, holds}
use dialtone_watcher.State.Disk.Writes.{Saves, write_json_file-Saves}
use dialtone_watcher.State.Disk.Views.{path_apart, View, view, returned, left_by, ends_as}
use dialtone_watcher.State.Disk.MachineIdentity.{machine_id-refines, identity_write, write_identity}
use dialtone_watcher.State.Disk.Registration.{status-refines}
use dialtone_watcher.State.Identity.{machine_id_kept}
use dialtone_watcher.State.Disk.{
  base_dir, IdentityError, write_status, remove_status_file, machine_identity_file_path,
  status_file_path, write_json_file, System, Codec, Disk, Attempt, written, interrupted,
  MachineIdentityRecord, load_or_create_machine_identity,
}

append-injective : (xs ys zs : Text) → xs ++ ys ≡ xs ++ zs → ys ≡ zs
append-injective [] ys zs e = e
append-injective (x ∷ xs) ys zs e = append-injective xs ys zs (ground arith)

join-injective_lem : (dir a b : Text) → dir ++ 47 ∷ a ≡ dir ++ 47 ∷ b → a ≡ b
join-injective_lem dir a b e = ground (arith, append-injective dir (47 ∷ a) (47 ∷ b) e)

abbrev home : System
home = record {
  getenv = λ _. [];
  user_cache_dir = some (codes "/home/u/.cache");
  temp_dir = codes "/tmp";
  join = λ dir name. dir ++ 47 ∷ name;
  reads = λ _. true;
  readlink = λ _. some (codes "pid:[1]");
  join-injective = λ dir a b _ _ e. join-injective_lem dir a b e;
}

abbrev then_decode : {A : Type 0} → (Text → Option A) → Option Text → Option A
then_decode decode none = none
then_decode decode (some s) = decode s

-- an encoding that never fails
abbrev total :
    {A : Type 0} (encode : A → Text) (decode : Text → Option A)
    → ((a : A) → decode (encode a) ≡ some a)
    → Codec A
total encode decode law = record {
  marshal = λ a. some (encode a);
  unmarshal = decode;
  is_kept = λ _. true;
  unmarshal-marshal = λ a encoded _ e. sym (ap (then_decode decode) e) ∙ law a;
}

-- the identity behind a brace
abbrev decode_identity : Text → Option MachineIdentityRecord
decode_identity [] = none
decode_identity (c ∷ s) = some (record { machine_id = s })

abbrev identities : Codec MachineIdentityRecord
identities = total (λ r. 123 ∷ r.machine_id) decode_identity (λ r. refl)

-- the process's number, with its sign in front, and then the namespace
abbrev encode_pid : ℤ → Text → Text
encode_pid (pos n) s = 0 ∷ n ∷ s
encode_pid (negsuc n) s = 1 ∷ n ∷ s

abbrev decode_status : Text → Option Status
decode_status (sign ∷ n ∷ s) =
    some (record { pid = if sign == 0 then pos n else negsuc n; pid_namespace = s })
decode_status _ = none

decode-encode_pid :
    (pid : ℤ) (s : Text)
    → decode_status (encode_pid pid s) ≡ some (record { pid = pid; pid_namespace = s })
decode-encode_pid (pos n) s = refl
decode-encode_pid (negsuc n) s = refl

abbrev statuses : Codec Status
statuses =
    total (λ s. encode_pid s.pid s.pid_namespace) decode_status
      (λ s. decode-encode_pid s.pid s.pid_namespace)

never_kept : (summary : Summary ℕ) (encoded : Text) → none ≡ some encoded → none ≡ some summary
never_kept summary encoded e = absurd (ground arith)

-- No summary can be encoded, as when a reading is a NaN.
abbrev summaries : Codec (Summary ℕ)
summaries = record {
  marshal = λ _. none;
  unmarshal = λ _. none;
  is_kept = λ _. true;
  unmarshal-marshal = λ a encoded _ e. never_kept a encoded e;
}

abbrev blank : Disk
blank _ = none

abbrev whole_write : Attempt
whole_write = record { mkdir_all = true; write_file = written }

abbrev cut_write : Attempt
cut_write = record { mkdir_all = true; write_file = interrupted none }

abbrev named : Disk × (IdentityError ⊎ MachineIdentityRecord)
named = load_or_create_machine_identity home identities (codes "u1") whole_write blank

abbrev shown : Disk → View ℕ
shown = view home identities statuses summaries

machine_id-refines_example :
    (shown named.0 ≡ record (shown blank) {
      identity =
          (machine_id
            (codes "u1")
            (identity_write home identities statuses summaries
              (write_identity home identities statuses summaries (codes "u1") whole_write blank))
            (shown blank).identity).0;
    })
    × (returned named.1
        ≡ (machine_id
            (codes "u1")
            (identity_write home identities statuses summaries
              (write_identity home identities statuses summaries (codes "u1") whole_write blank))
            (shown blank).identity).1)
machine_id-refines_example =
    machine_id-refines home identities statuses summaries (codes "u1") whole_write blank refl

machine_id_kept_example :
    ((shown named.0).identity ≡ holds (codes "u1"))
    × (returned (load_or_create_machine_identity home identities (codes "u2") cut_write named.0).1
        ≡ some (codes "u1"))
    × (shown (load_or_create_machine_identity home identities (codes "u2") cut_write named.0).0
        ≡ shown named.0)
unfolding load_or_create_machine_identity read_json create_machine_identity write_json_file
machine_id_kept_example =
    machine_id_kept home identities statuses summaries blank (codes "u1") whole_write (codes "u1")
      (codes "u2") cut_write (λ h. absurd (ground arith)) refl refl refl

abbrev daemon_status : Status
daemon_status = record { pid = pos 42; pid_namespace = codes "pid:[1]" }

write_json_file-Saves_example :
    Saves identities home
      (machine_identity_file_path home)
      (status_file_path home)
      (record { machine_id = codes "u1" })
      blank
      whole_write
      (write_json_file identities whole_write
        (machine_identity_file_path home)
        (record { machine_id = codes "u1" })
        384
        blank)
write_json_file-Saves_example =
    write_json_file-Saves identities home (machine_identity_file_path home) (status_file_path home)
      (record { machine_id = codes "u1" }) blank whole_write 384 refl refl
      (path_apart home (base_dir home) (codes "status.json") (codes "machine-id.json") refl refl
        refl)

status-refines_example :
    (shown (write_status home statuses whole_write daemon_status blank).0 ≡ record (shown blank) {
      status = left_by daemon_status (
          ends_as
            (write_status home statuses whole_write daemon_status blank).1
            (shown (write_status home statuses whole_write daemon_status blank).0).status);
    })
    × (shown (remove_status_file home true blank).0
        ≡ record (shown blank) { status = (remove_status true (shown blank).status).0 })
    × ((remove_status_file home true blank).1 ≡ (remove_status true (shown blank).status).1)
status-refines_example =
    status-refines home identities statuses summaries whole_write daemon_status true blank refl refl
