-- ===== src/Service/Poll/Polled.antt =====
-- What a poll of `pollOnce` of internal/watcher/watcher.go leaves: the service, the summary and the error.
use mathlib.Core.Option.{some-injective}
use dialtone_watcher.Uploader.Recording.{should_upload}
use dialtone_watcher.Prelude.Int.{leb_ℤ}
use dialtone_watcher.Uploader.Window.{Agrees}
use dialtone_watcher.Prelude.{
  ◌≢◌, ◌+◌, false, true, Option, none, some, List, [], ◌∷◌, ◌≡◌, ◌⊎◌, refl, Text, arith, length,
  list_eq, nat_eq,
}
use dialtone_watcher.Clock.{sub, Time}
use dialtone_watcher.Float.{Float64}
use dialtone_watcher.Netip.{Netip}
use dialtone_watcher.Dict.{Dict}
use dialtone_watcher.Records.{Summary}
use dialtone_watcher.Network.{NetworkObservation}
use dialtone_watcher.Service.{Uploader, Service, Process}
use dialtone_watcher.Service.Processes.{poll_processes_locked}
use dialtone_watcher.Service.Summary.{first_process, top_connections, top_domains, top_processes}
use dialtone_watcher.Service.Traffic.{observe, observe_all, expire, poll_domains_locked}
use dialtone_watcher.Service.Poll.{
  should_upload, increment_poll, flush, map_option, write_error, Self, Surroundings, Outcome,
  is_due,
}

-- A summary describes the service of a process: it runs, its counts are those of the tables, and its
-- lists are their tops.
pub record Describes {F : Type 0} ⦃fl : Float64 F⦄ ⦃ip : Netip⦄ (self : Self) (s : Service F)
    (summary : Summary F) : Type 0 where
  pub running : summary.running ≡ true
  pub pid : summary.pid ≡ self.getpid
  pub namespace : summary.pid_namespace ≡ self.current_pid_namespace
  pub polls : summary.poll_count ≡ s.polls
  pub hardware : summary.hardware ≡ s.hardware
  pub processes : summary.tracked_process_count ≡ length s.pids
  pub domains : summary.tracked_domain_count ≡ length s.domains
  pub connections : summary.tracked_connection_count ≡ length s.connections
  pub top_process : summary.top_process ≡ first_process (top_processes 1 s.pids)
  pub top_processes : summary.top_processes ≡ top_processes 6 s.pids
  pub top_domains : summary.top_domains ≡ top_domains 60 s.domains
  pub top_connections : summary.top_connections ≡ top_connections 20 s.connections

-- A summary is written, or the error says that it could not be.
abbrev pub IsSaved : {F : Type 0} → Surroundings F → Summary F → Outcome F → Type 0
IsSaved e summary o =
    ((e.writes summary ≡ true) × (o.written ≡ some summary) × (o.error ≡ none))
    ⊎ ((e.writes summary ≡ false) × (o.written ≡ none) × (o.error ≡ some write_error))

-- An uploader's window has a poll, and its interval has passed since the window began.
abbrev pub IsDue : {F : Type 0} → Time → Option (Uploader F) → Type 0
IsDue {F} now uploader =
    (u : Uploader F) × (uploader ≡ some u)
    × (u.window.started_at ≢ 0)
    × (u.window.polls ≢ 0)
    × (leb_ℤ u.config.interval (sub now u.window.started_at) ≡ true)

module _ {F : Type 0} (now : Time) where
  pub uploader-IsDue : (u : Option (Uploader F)) → is_due now u ≡ true → IsDue now u
  unfolding should_upload
  uploader-IsDue none h = absurd (ground (arith, h))
  uploader-IsDue (some u) h = (u, refl, ground (arith, h), ground (arith, h), ground (arith, h))

  pub uploader-NotDue : (u : Option (Uploader F)) → is_due now u ≡ false → ¬ IsDue now u
  unfolding should_upload
  uploader-NotDue none h (u, e, _, _, _) = absurd (ground (arith, e))
  uploader-NotDue (some v) h (u, e, started, polled, passed) =
      let same : v ≡ u = some-injective v u e in
      ground (arith, rw (same) at h, started, polled, passed)

module _ {F : Type 0} ⦃ip : Netip⦄ where
  -- the traffic of a poll, which may have no observations
  abbrev pub watch : Option (Dict Text NetworkObservation) → Time → Service F → Service F
  watch none now s = s
  watch (some observations) now s = poll_domains_locked observations now s

  observe_all_rest :
      (now : Time) (observations : Dict Text NetworkObservation) (s : Service F)
      → ((observe_all now observations s).polls ≡ s.polls)
        × ((observe_all now observations s).pids ≡ s.pids)
        × ((observe_all now observations s).hardware ≡ s.hardware)
  unfolding observe_all observe
  observe_all_rest now [] s = (refl, refl, refl)
  observe_all_rest now ((key, o) ∷ observations) s =
      observe_all_rest now observations (observe now key o s)

  pub watch_rest :
      (observations : Option (Dict Text NetworkObservation)) (now : Time) (s : Service F)
      → ((watch observations now s).polls ≡ s.polls)
        × ((watch observations now s).pids ≡ s.pids)
        × ((watch observations now s).hardware ≡ s.hardware)
  unfolding poll_domains_locked expire
  watch_rest none now s = (refl, refl, refl)
  watch_rest (some observations) now s = observe_all_rest now observations s

module _ {F : Type 0} ⦃fl : Float64 F⦄ ⦃ip : Netip⦄ where
  -- The service `t` after a poll of `s` that saw `processes`: one more poll, the process table of
  -- these processes, and the traffic tables and the lookups of the observations, if there are any; the
  -- uploader has recorded that and, if an upload is due, tried to send its window.
  pub record IsPolled (e : Surroundings F) (processes : List (Process F)) (summary : Summary F)
      (s t : Service F) : Type 0 where
    pub polls : Agrees t.polls (s.polls + 1)
    pub hardware : t.hardware ≡ s.hardware
    pub pids : t.pids ≡ (poll_processes_locked processes e.now s).pids
    pub domains :
        t.domains ≡ (watch e.observations e.now (poll_processes_locked processes e.now s)).domains
    pub connections :
        t.connections
        ≡ (watch e.observations e.now (poll_processes_locked processes e.now s)).connections
    pub samples :
        t.network_samples
        ≡ (watch e.observations e.now (poll_processes_locked processes e.now s)).network_samples
    pub lookups :
        t.lookups ≡ (watch e.observations e.now (poll_processes_locked processes e.now s)).lookups
    pub recorded : Option (Uploader F)
    pub records :
        recorded
        ≡ map_option
            (increment_poll e.now)
            (watch e.observations e.now (poll_processes_locked processes e.now s)).uploader
    pub sends :
        (IsDue e.now recorded
          × (t.uploader ≡ map_option (λ u. (flush e.web e.now s.hardware summary u).0) recorded))
        ⊎ ((¬ IsDue e.now recorded) × (t.uploader ≡ recorded))

  -- What a poll that saw `processes` ends with.
  pub record Polls (e : Surroundings F) (processes : List (Process F)) (s : Service F)
      (o : Outcome F) : Type 0 where
    pub summary : Summary F
    pub describes : Describes e.self o.service summary
    pub polled : IsPolled e processes summary s o.service
    pub saved : IsSaved e summary o
