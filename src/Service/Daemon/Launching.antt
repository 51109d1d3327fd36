-- ===== src/Service/Daemon/Launching.antt =====
-- How `RunDaemon` of internal/watcher/watcher.go starts.
use mathlib.Core.Path.{subst}
use dialtone_watcher.Prelude.{◌≡◌, ◌⊎◌, inl, inr, refl, Option, none, some, Text, Option-cases}
use dialtone_watcher.Records.{Summary, HardwareProfile}
use dialtone_watcher.State.{Status, File, holds, Write, succeeds, fails, machine_id}
use dialtone_watcher.Uploader.Config.{new_uploader}
use dialtone_watcher.Service.Poll.{new_service}
use dialtone_watcher.Service.Daemon.{
  launched, refused, Start, Files, Daemon, Launch, launch, starting, own_status, hardware_error,
  identity_error, status_error,
}

Write-cases : {A : Type 0} (w : Write A) → (w ≡ succeeds) ⊎ ((left : File A) × (w ≡ fails left))
Write-cases succeeds = inl refl
Write-cases (fails left) = inr (left, refl)

module _ {F : Type 0} where
  -- the daemon with both threads at their start
  abbrev pub fresh : Start F → File Text → HardwareProfile F → Text → Option (Summary F) → Daemon F
  fresh start identity hardware id summary = record {
    service = new_service hardware (new_uploader start.environment id start.options);
    files = record {
      identity = identity;
      status = holds (own_status start.self);
      summary = summary;
    };
    in_flight = none;
    main = starting;
  }

  -- the file of the machine's identity after `MachineID`, and the identity
  abbrev pub identified : Start F → Files F → File Text × Option Text
  identified start files = machine_id start.uuid start.identity_write files.identity

  -- How a start goes: refused for one of three reasons, before the status is written, or launched.
  data Starts (start : Start F) (files : Files F) : Launch F → Type 0 where
    no_hardware : start.hardware ≡ none → Starts start files (refused hardware_error files)
    no_identity :
        (identified start files).1 ≡ none
        → Starts start files
            (refused identity_error (record files { identity = (identified start files).0 }))
    no_status :
        (id : Text) (left : File Status)
        → (identified start files).1 ≡ some id
        → start.status_write ≡ fails left
        → Starts start files (
            refused status_error
              (record files { identity = (identified start files).0; status = left }))
    in_service :
        (hardware : HardwareProfile F) (id : Text)
        → start.hardware ≡ some hardware
        → (identified start files).1 ≡ some id
        → start.status_write ≡ succeeds
        → Starts start files
            (launched (fresh start (identified start files).0 hardware id files.summary))

  -- `RunDaemon` starts in one of four ways: it returns the error of the hardware, and no file changes;
  -- that of the identity, with the identity's file as `MachineID` leaves it; or that of the status,
  -- whose file is as the write left it; or it has written its status and both threads are at their
  -- start, with empty tables and an uploader for the machine's identity.
  launch-Starts : (start : Start F) (files : Files F) → Starts start files (launch start files)
  unfolding launch
  launch-Starts start files = elim (Option-cases start.hardware) [
    | inl unknown ↦ simp (launch, unknown) (no_hardware unknown)
    | inr (hardware, known) ↦ elim (Option-cases (identified start files).1) [
      | inl nameless ↦ simp (launch, known, nameless) (no_identity nameless)
      | inr (id, named) ↦ elim (Write-cases start.status_write) [
        | inl written ↦
            simp (launch, known, named, written) (in_service hardware id known named written)
        | inr (left, unwritten) ↦
            simp (launch, known, named, unwritten) (no_status id left named unwritten)
      ]
    ]
  ]

  -- what a launched daemon starts with
  abbrev pub Fresh : Start F → Files F → Launch F → Type 0
  Fresh start files (refused e after) = Unit
  Fresh start files (launched d) =
      (hardware : HardwareProfile F) × (id : Text) × (d
        ≡ fresh start (identified start files).0 hardware id files.summary)

  Starts-Fresh :
      (start : Start F) (files : Files F) {l : Launch F}
      → Starts start files l
      → Fresh start files l
  Starts-Fresh start files (no_hardware unknown) = record {}
  Starts-Fresh start files (no_identity nameless) = record {}
  Starts-Fresh start files (no_status id left named unwritten) = record {}
  Starts-Fresh start files (in_service hardware id known named written) = (hardware, id, refl)

  pub launched-Fresh :
      (start : Start F) (files : Files F) (d : Daemon F)
      → launch start files ≡ launched d
      → Fresh start files (launched d)
  launched-Fresh start files d e =
      subst (Fresh start files) e (Starts-Fresh start files (launch-Starts start files))
