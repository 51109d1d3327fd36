-- ===== src/Service/Daemon.antt =====
-- `RunDaemon` of internal/watcher/watcher.go as a system of two threads: the main one, which polls and
-- stops, and the worker of `startReverseLookupWorker` in internal/watcher/resolver.go. A step is a
-- stretch under the mutex or a call between two of them. `persist` behind a failed poll is one step
-- too, although the code makes it without the mutex.
pub mod Ending
pub mod Launching
pub mod Registered
pub mod Threads
use dialtone_watcher.Service.Processes.{poll_processes_locked}
use dialtone_watcher.Service.Traffic.{poll_domains_locked}
use dialtone_watcher.Clock.{Time}
use dialtone_watcher.Uploader.Flush.{Web}
use dialtone_watcher.Network.{NetworkObservation}
use dialtone_watcher.Prelude.{
  ◌≡◌, false, if◌then◌else◌, Bool, true, Option, none, some, List, [], ◌∷◌, Text,
}
use dialtone_watcher.Float.{Float64}
use dialtone_watcher.Netip.{Netip}
use dialtone_watcher.Records.{HardwareProfile, Summary}
use dialtone_watcher.State.{
  CleanError, Status, File, holds, Write, succeeds, fails, machine_id, remove_status,
}
use dialtone_watcher.Uploader.Config.{RunOptions, Environment, new_uploader}
use dialtone_watcher.Service.{Dict, Process, Service}
use dialtone_watcher.Service.Summary.{Self, current_summary_locked}
use dialtone_watcher.Service.Poll.{
  processes_error, is_due, write_error, upload, count_poll, PollError, Surroundings, new_service,
  apply_lookup, persist, poll_once, shutdown,
}

-- The files of the base directory, the summary as it was last written.
pub record Files (F : Type 0) : Type 0 where
  pub identity : File Text
  pub status : File Status
  pub summary : Option (Summary F)

pub data DaemonError : Type 0 where
  hardware_error identity_error status_error : DaemonError
  poll_failed shutdown_failed : PollError → DaemonError
  status_not_removed : DaemonError

-- What a start meets: the hardware, the process, a fresh identity, the writes, and the environment.
pub record Start (F : Type 0) : Type 0 where
  pub hardware : Option (HardwareProfile F)
  pub self : Self
  pub uuid : Text
  pub identity_write : Write Text
  pub status_write : Write Status
  pub environment : Environment
  pub options : RunOptions

-- `Status{PID: os.Getpid(), PIDNamespace: pidNamespace}`
abbrev pub own_status : Self → Status
own_status self = record { pid = self.getpid; pid_namespace = self.current_pid_namespace }

module _ {F : Type 0} where
  unfoldable pub remember : Option (Summary F) → Files F → Files F
  remember none files = files
  remember (some summary) files = record files { summary = some summary }

-- Where the main thread stands. A poll knows whether it is the first one, and from the list of the
-- processes on its time; `uploading` holds the summary to send and the error that `pollOnce` returns.
pub data Main (F : Type 0) : Type 0 where
  starting waiting stopped : Main F
  seen observed : Bool → Time → Main F
  uploading : Bool → Time → Summary F → Option PollError → Main F
  failed : Bool → PollError → Main F
  ended : Option DaemonError → Main F

-- The two threads with what they share; `in_flight` is the address that the worker looks up.
pub record Daemon (F : Type 0) : Type 0 where
  pub service : Service F
  pub files : Files F
  pub in_flight : Option Text
  pub main : Main F

-- A poll begins where the daemon starts and at each tick.
pub data Polls {F : Type 0} : Main F → Bool → Type 0 where
  at_start : Polls starting true
  at_tick : Polls waiting false

-- how `pollOnce` returns
abbrev pub returned : {F : Type 0} → Bool → Option PollError → Main F
returned first none = waiting
returned first (some e) = failed first e

-- `return removeStatus()`; `removable` says whether `os.Remove` succeeds
abbrev pub removed : {F : Type 0} → Option CleanError → Main F
removed none = ended none
removed (some e) = ended (some status_not_removed)

module _ {F : Type 0} ⦃fl : Float64 F⦄ ⦃ip : Netip⦄ where
  -- the first stretch of `pollOnce`, once the processes are listed
  unfoldable pub see : Bool → List (Process F) → Time → Daemon F → Daemon F
  see first processes now d = record d {
    service = poll_processes_locked processes now d.service;
    main = seen first now;
  }

  -- the second one, which needs the observations
  unfoldable pub observe_traffic :
      Bool → Option (Dict Text NetworkObservation) → Time → Daemon F → Daemon F
  observe_traffic first none now d = record d { main = observed first now }
  observe_traffic first (some observations) now d = record d {
    service = poll_domains_locked observations now d.service;
    main = observed first now;
  }

  module _ (self : Self) (writes : Summary F → Bool) where
    -- the file of the summary behind a call of `persist`
    unfoldable pub save : Bool → Service F → Files F → Files F
    unfolding remember
    save running s files =
        let summary = current_summary_locked self running s in
        remember (if writes summary then some summary else none) files

    abbrev pub save_error : Bool → Service F → Option PollError
    save_error running s =
        if writes (current_summary_locked self running s) then none else some write_error

    -- the third one, up to the call of `flush`
    unfoldable pub report : Bool → Time → Daemon F → Daemon F
    unfolding save count_poll
    report first now d =
        let s = count_poll now d.service in
        let error = save_error true s in
        record d {
          service = s;
          files = save true s d.files;
          main =
              if is_due now s.uploader
              then uploading first now (current_summary_locked self true s) error
              else returned first error;
        }

    -- the call of `persist` behind a failed poll
    unfoldable pub retry : Daemon F → Daemon F
    unfolding save
    retry d = record d { files = save true d.service d.files; main = waiting }

    -- `shutdown`, on a signal
    unfoldable pub shut_down : Web F → Time → Daemon F → Daemon F
    unfolding save upload
    shut_down web now d = record d {
      service = upload web now (current_summary_locked self false d.service) d.service;
      files = save false d.service d.files;
      main = elim (save_error false d.service) [
        | none ↦ stopped
        | some e ↦ ended (some (shutdown_failed e))
      ];
    }

    -- what the worker does under the mutex with the name that it found
    unfoldable pub resolve : Text → Text → Daemon F → Daemon F
    unfolding save apply_lookup
    resolve host name d =
        let s = apply_lookup host name d.service in
        record d { service = s; files = save true s d.files; in_flight = none }

  -- the call of `flush` behind the third stretch, without the mutex
  unfoldable pub send_window :
      Bool → Time → Summary F → Option PollError → Web F → Daemon F → Daemon F
  unfolding upload
  send_window first now summary error web d = record d {
    service = upload web now summary d.service;
    main = returned first error;
  }

  unfoldable pub remove_own_status : Bool → Daemon F → Daemon F
  remove_own_status removable d =
      let (status, failure) = remove_status removable d.files.status in
      record d { files = record d.files { status = status }; main = removed failure }

  -- the worker takes an address from the channel
  unfoldable pub receive : Text → List Text → Daemon F → Daemon F
  receive host rest d = record d {
    service = record d.service { lookups = record d.service.lookups { lookup_queue = rest } };
    in_flight = some host;
  }

  pub data Step (self : Self) (d : Daemon F) : Daemon F → Type 0 where
    list :
        (first : Bool) (processes : List (Process F)) (now : Time)
        → Polls d.main first
        → Step self d (see first processes now d)
    list_fails :
        (first : Bool)
        → Polls d.main first
        → Step self d (record d { main = failed first processes_error })
    collect :
        (first : Bool) (observations : Option (Dict Text NetworkObservation)) (now : Time)
        → d.main ≡ seen first now
        → Step self d (observe_traffic first observations now d)
    count :
        (first : Bool) (now : Time) (writes : Summary F → Bool)
        → d.main ≡ observed first now
        → Step self d (report self writes first now d)
    send :
        (first : Bool) (now : Time) (summary : Summary F) (error : Option PollError) (web : Web F)
        → d.main ≡ uploading first now summary error
        → Step self d (send_window first now summary error web d)
    give_up :
        (e : PollError)
        → d.main ≡ failed true e
        → Step self d (record d { main = ended (some (poll_failed e)) })
    persist_again :
        (e : PollError) (writes : Summary F → Bool)
        → d.main ≡ failed false e
        → Step self d (retry self writes d)
    signalled :
        (web : Web F) (now : Time) (writes : Summary F → Bool)
        → d.main ≡ waiting
        → Step self d (shut_down self writes web now d)
    unregister : (removable : Bool) → d.main ≡ stopped → Step self d (remove_own_status removable d)
    take_address :
        (host : Text) (rest : List Text)
        → d.in_flight ≡ none
        → d.service.lookups.lookup_queue ≡ host ∷ rest
        → Step self d (receive host rest d)
    look_up :
        (host name : Text) (writes : Summary F → Bool)
        → d.in_flight ≡ some host
        → Step self d (resolve self writes host name d)

  pub data Reach (self : Self) (d : Daemon F) : Daemon F → Type 0 where
    here : Reach self d d
    next : {t u : Daemon F} → Reach self d t → Step self t u → Reach self d u

-- How `RunDaemon` starts: with an error, or with both threads.
pub data Launch (F : Type 0) : Type 0 where
  refused : DaemonError → Files F → Launch F
  launched : Daemon F → Launch F

module _ {F : Type 0} where
  -- `RunDaemon` up to its first poll
  unfoldable pub launch : Start F → Files F → Launch F
  unfolding machine_id new_uploader
  launch start files = elim start.hardware [
    | none ↦ refused hardware_error files
    | some hardware ↦
        let (identity, id) = machine_id start.uuid start.identity_write files.identity in
        let identified : Files F = record files { identity = identity } in
        elim id [
          | none ↦ refused identity_error identified
          | some id ↦ elim start.status_write [
            | fails status ↦ refused status_error (record identified { status = status })
            | succeeds ↦ launched (record {
              service = new_service hardware (new_uploader start.environment id start.options);
              files = record identified { status = holds (own_status start.self) };
              in_flight = none;
              main = starting;
            })
          ]
        ]
  ]
