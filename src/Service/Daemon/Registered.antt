-- ===== src/Service/Daemon/Registered.antt =====
-- The status file while `RunDaemon` of internal/watcher/watcher.go runs, and after.
use dialtone_watcher.Prelude.{
  Bool-cases, ◌≡◌, inl, inr, refl, Bool, true, false, Option, none, some, Text, Option-cases,
}
use dialtone_watcher.Float.{Float64}
use dialtone_watcher.Netip.{Netip}
use dialtone_watcher.Records.{Summary}
use dialtone_watcher.State.{Status, File, holds, not_exist}
use dialtone_watcher.Service.{Dict, Service}
use dialtone_watcher.Service.Summary.{Self}
use dialtone_watcher.Service.Daemon.{
  is_due, NetworkObservation, count_poll, current_summary_locked, PollError, apply_lookup, Time,
  Web, remove_own_status, send_window, resolve, shut_down, retry, report, observe_traffic, see,
  launched, Start, Files, Daemon, launch, own_status, ended, Main, remember, save, receive, list,
  collect, list_fails, count, send, give_up, persist_again, signalled, unregister, take_address,
  look_up, Step, Reach, here, next, Polls, at_start, at_tick, returned, save_error,
}
use dialtone_watcher.Service.Daemon.Launching.{launched-Fresh, fresh}

module _ {F : Type 0} where
  -- the status file while the main thread stands there
  abbrev pub status_at : Self → Main F → File Status
  status_at self (ended none) = not_exist
  status_at self _ = holds (own_status self)

  -- the status file is what it should be where the main thread stands
  abbrev pub IsRegistered : Self → Daemon F → Type 0
  IsRegistered self d = d.files.status ≡ status_at self d.main

  Polls-status :
      (self : Self) {m : Main F} {first : Bool}
      → Polls m first
      → status_at self m ≡ holds (own_status self)
  Polls-status self at_start = refl
  Polls-status self at_tick = refl

returned_status :
    (F : Type 0) (self : Self) (first : Bool) (e : Option PollError)
    → status_at self (returned {F = F} first e) ≡ holds (own_status self)
returned_status F self first none = refl
returned_status F self first (some e) = refl

module _ {F : Type 0} ⦃fl : Float64 F⦄ ⦃ip : Netip⦄ where
  save_status :
      (self : Self) (writes : Summary F → Bool) (running : Bool) (s : Service F) (files : Files F)
      → (save self writes running s files).status ≡ files.status
  unfolding save remember
  save_status self writes running s files =
      elim (Bool-cases (writes (current_summary_locked self running s))) [
        | inl written ↦ rw written refl
        | inr unwritten ↦ rw unwritten refl
      ]

  report-IsRegistered :
      (self : Self) (writes : Summary F → Bool) (first : Bool) (now : Time) (d : Daemon F)
      → d.files.status ≡ holds (own_status self)
      → IsRegistered self (report self writes first now d)
  unfolding report
  report-IsRegistered self writes first now d own =
      let s = count_poll now d.service in
      rw (save_status self writes true s d.files, own)
        (elim (Bool-cases (is_due now s.uploader)) [
          | inl due ↦ rw due refl
          | inr early ↦
              rw (early, returned_status F self first (save_error self writes true s)) refl
        ])

  shut_down-IsRegistered :
      (self : Self) (writes : Summary F → Bool) (web : Web F) (now : Time) (d : Daemon F)
      → d.files.status ≡ holds (own_status self)
      → IsRegistered self (shut_down self writes web now d)
  unfolding shut_down
  shut_down-IsRegistered self writes web now d own =
      let kept = save_status self writes false d.service d.files in
      elim (Option-cases (save_error self writes false d.service)) [
        | inl saved ↦ rw (shut_down, kept, saved) own
        | inr (e, failed) ↦ rw (shut_down, kept, failed) own
      ]

  remove_own_status-IsRegistered :
      (self : Self) (removable : Bool) (d : Daemon F)
      → d.files.status ≡ holds (own_status self)
      → IsRegistered self (remove_own_status removable d)
  unfolding remove_own_status
  remove_own_status-IsRegistered self true d own = rw own refl
  remove_own_status-IsRegistered self false d own = rw own refl

  observe_traffic-IsRegistered :
      (self : Self) (first : Bool) (observations : Option (Dict Text NetworkObservation))
      (now : Time) (d : Daemon F)
      → d.files.status ≡ holds (own_status self)
      → IsRegistered self (observe_traffic first observations now d)
  unfolding observe_traffic
  observe_traffic-IsRegistered self first none now d own = own
  observe_traffic-IsRegistered self first (some observations) now d own = own

module _ {F : Type 0} ⦃fl : Float64 F⦄ ⦃ip : Netip⦄ {self : Self} where
  Step-IsRegistered : {d t : Daemon F} → Step self d t → IsRegistered self d → IsRegistered self t
  unfolding see retry resolve send_window receive
  Step-IsRegistered (list first processes now p) h = rw (h, Polls-status self p) refl
  Step-IsRegistered (list_fails first p) h = rw (h, Polls-status self p) refl
  Step-IsRegistered {d} (collect first observations now e) h =
      observe_traffic-IsRegistered self first observations now d (rw (h, e) refl)
  Step-IsRegistered {d} (count first now writes e) h =
      report-IsRegistered self writes first now d (rw (h, e) refl)
  Step-IsRegistered (send first now summary error web e) h =
      rw (h, e, returned_status F self first error) refl
  Step-IsRegistered (give_up error e) h = rw (h, e) refl
  Step-IsRegistered {d} (persist_again error writes e) h =
      rw (save_status self writes true d.service d.files, h, e) refl
  Step-IsRegistered {d} (signalled web now writes e) h =
      shut_down-IsRegistered self writes web now d (rw (h, e) refl)
  Step-IsRegistered {d} (unregister removable e) h =
      remove_own_status-IsRegistered self removable d (rw (h, e) refl)
  Step-IsRegistered (take_address host rest idle q) h = h
  Step-IsRegistered {d} (look_up host name writes busy) h =
      rw (save_status self writes true (apply_lookup host name d.service) d.files) h

  Reach-IsRegistered : {d t : Daemon F} → Reach self d t → IsRegistered self d → IsRegistered self t
  Reach-IsRegistered here h = h
  Reach-IsRegistered (next r st) h = Step-IsRegistered st (Reach-IsRegistered r h)

module _ {F : Type 0} ⦃fl : Float64 F⦄ ⦃ip : Netip⦄ (start : Start F) (files : Files F)
    {d t : Daemon F} where
  -- Whatever a launched daemon meets, in every state that its two threads reach the status file names
  -- this process, unless `RunDaemon` has ended without an error: then, and only then, there is none.
  pub launched_status :
      launch start files ≡ launched d
      → Reach start.self d t
      → t.files.status ≡ status_at start.self t.main
  launched_status e r =
      let (hardware, id, fresh) = launched-Fresh start files d e in
      Reach-IsRegistered r (rw fresh refl)
