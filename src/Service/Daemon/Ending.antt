-- ===== src/Service/Daemon/Ending.antt =====
-- How the order of the two threads of internal/watcher/watcher.go and internal/watcher/resolver.go
-- decides what `RunDaemon` leaves behind.
use dialtone_watcher.Prelude.{◌≡◌, refl, Bool, true, false, none, some, Text}
use dialtone_watcher.Float.{Float64}
use dialtone_watcher.Netip.{Netip}
use dialtone_watcher.Records.{Summary}
use dialtone_watcher.State.{not_exist}
use dialtone_watcher.Uploader.Flush.{Web}
use dialtone_watcher.Clock.{Time}
use dialtone_watcher.Service.Summary.{Self, current_summary_locked}
use dialtone_watcher.Service.Daemon.{
  own_status, holds, Start, Files, Daemon, launch, launched, Reach, here, next, signalled,
  unregister, look_up, waiting, ended, shut_down, resolve, remove_own_status, save, remember,
}
use dialtone_watcher.Service.Daemon.Registered.{launched_status}

module _ {F : Type 0} ⦃fl : Float64 F⦄ ⦃ip : Netip⦄ (self : Self) where
  -- The threads reach an end without an error, with no status file, and with a summary that says
  -- whether the daemon runs.
  pub record CanEnd (d : Daemon F) (running : Bool) : Type 0 where
    pub last : Daemon F
    pub run : Reach self d last
    pub main : last.main ≡ ended none
    pub status : last.files.status ≡ not_exist
    pub summary : Summary F
    pub saved : last.files.summary ≡ some summary
    pub says : summary.running ≡ running

module _ {F : Type 0} ⦃fl : Float64 F⦄ ⦃ip : Netip⦄ (start : Start F) (files : Files F)
    {d t : Daemon F} where
  -- A launched daemon that waits while the worker looks an address up can end, on a signal, without an
  -- error and with no status file in two ways: with a summary that says that it does not run, and, if
  -- the worker finishes its lookup behind `shutdown`, with one that says that it runs.
  pub late_lookup :
      (host name : Text) (web : Web F) (now : Time)
      → launch start files ≡ launched d
      → Reach start.self d t
      → t.main ≡ waiting
      → t.in_flight ≡ some host
      → CanEnd start.self t false × CanEnd start.self t true
  unfolding shut_down resolve remove_own_status save remember current_summary_locked
  late_lookup host name web now e r m busy =
      let stopped = shut_down start.self (λ s. true) web now t in
      let late = resolve start.self (λ s. true) host name stopped in
      let stop = signalled web now (λ s. true) m in
      let own : t.files.status ≡ holds (own_status start.self) =
        rw (launched_status start files e r, m) refl in
      (
        record {
          last = remove_own_status true stopped;
          run = next (next here stop) (unregister true refl);
          main = rw own refl;
          status = rw own refl;
          summary = current_summary_locked start.self false t.service;
          saved = refl;
          says = refl;
        },
        record {
          last = remove_own_status true late;
          run =
              next (next (next here stop) (look_up host name (λ s. true) busy))
                (unregister true refl);
          main = rw own refl;
          status = rw own refl;
          summary = current_summary_locked start.self true late.service;
          saved = refl;
          says = refl;
        },
      )
