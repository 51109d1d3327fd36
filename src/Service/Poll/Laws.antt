-- ===== src/Service/Poll/Laws.antt =====
-- `pollOnce` of internal/watcher/watcher.go on each of its branches.
use mathlib.Core.Path.{subst}
use dialtone_watcher.Uploader.Window.{Agrees}
use dialtone_watcher.Prelude.{
  ◌∙◌, sym, if◌then◌else◌, ap, ◌+◌, true, Option, none, some, List, ◌≡◌, ◌⊎◌, inl, inr, refl, arith,
  Option-cases, Bool-cases, list_eq, nat_eq,
}
use dialtone_watcher.Words.{add64}
use dialtone_watcher.Float.{Float64}
use dialtone_watcher.Netip.{Netip}
use dialtone_watcher.Records.{Summary}
use dialtone_watcher.Service.{Uploader, Service, Process}
use dialtone_watcher.Service.Processes.{poll_processes_locked}
use dialtone_watcher.Service.Summary.{top_process, current_summary_locked}
use dialtone_watcher.Service.Poll.{
  flush, map_option, persist, Surroundings, Outcome, processes_error, count_poll, is_due, upload,
  take_poll, poll_once,
}
use dialtone_watcher.Service.Poll.Polled.{
  IsSaved, IsDue, watch, Polls, uploader-IsDue, uploader-NotDue, watch_rest,
}

module _ {F : Type 0} ⦃fl : Float64 F⦄ ⦃ip : Netip⦄ where
  take_poll-watch :
      (processes : List (Process F)) (e : Surroundings F) (s : Service F)
      → take_poll processes e s
        ≡ count_poll e.now (watch e.observations e.now (poll_processes_locked processes e.now s))
  unfolding take_poll
  take_poll-watch processes e s = elim (Option-cases e.observations) [
    | inl failed ↦ rw failed refl
    | inr (observations, o) ↦ rw o refl
  ]

  persist-IsSaved :
      (e : Surroundings F) (summary : Summary F) (s : Service F)
      → IsSaved e summary (persist e summary s)
  persist-IsSaved e summary s = elim (Bool-cases (e.writes summary)) [
    | inl written ↦ rw written (inl (refl, refl, refl))
    | inr unwritten ↦ rw unwritten (inr (refl, refl, refl))
  ]

  module _ (e : Surroundings F) (processes : List (Process F)) (s : Service F) where
    abbrev after : Service F
    after = count_poll e.now (watch e.observations e.now (poll_processes_locked processes e.now s))

    after_polls : Agrees after.polls (s.polls + 1)
    unfolding count_poll poll_processes_locked add64
    after_polls =
        let (p, _, _) = watch_rest e.observations e.now (poll_processes_locked processes e.now s) in
        omega (arith, p)

    after_rest :
        (after.pids ≡ (poll_processes_locked processes e.now s).pids)
        × (after.hardware ≡ s.hardware)
    unfolding count_poll poll_processes_locked
    after_rest =
        let (_, q, r) = watch_rest e.observations e.now (poll_processes_locked processes e.now s) in
        (q, r)

    after-Polls :
        (u : Option (Uploader F))
        → (IsDue e.now after.uploader
            × (u
                ≡ map_option
                    (λ v.
                      (flush e.web e.now s.hardware (current_summary_locked e.self true after) v).0)
                    after.uploader))
          ⊎ ((¬ IsDue e.now after.uploader) × (u ≡ after.uploader))
        → Polls e processes s
            (persist e (current_summary_locked e.self true after) (record after { uploader = u }))
    unfolding current_summary_locked count_poll top_process
    after-Polls u sends = record {
      summary = current_summary_locked e.self true after;
      describes = record {
        running = refl;
        pid = refl;
        namespace = refl;
        polls = refl;
        hardware = refl;
        processes = refl;
        domains = refl;
        connections = refl;
        top_process = refl;
        top_processes = refl;
        top_domains = refl;
        top_connections = refl;
      };
      polled = record {
        polls = after_polls;
        hardware = after_rest.1;
        pids = after_rest.0;
        domains = refl;
        connections = refl;
        samples = refl;
        lookups = refl;
        recorded = after.uploader;
        records = refl;
        sends = sends;
      };
      saved = persist-IsSaved e _ (record after { uploader = u });
    }

    abbrev poll_of : Service F → Outcome F
    poll_of s' =
        let summary = current_summary_locked e.self true s' in
        persist e summary (if is_due e.now s'.uploader then upload e.web e.now summary s' else s')

    poll_once_listed :
        e.processes ≡ some processes → poll_once e s ≡ poll_of (take_poll processes e s)
    unfolding poll_once
    poll_once_listed listed = rw listed refl

    poll_of-Polls : Polls e processes s (poll_of after)
    unfolding upload
    poll_of-Polls =
        let summary = current_summary_locked e.self true after in
        elim (Bool-cases (is_due e.now after.uploader)) [
          | inl due ↦ rw due (
              after-Polls
                (map_option (λ v. (flush e.web e.now after.hardware summary v).0) after.uploader)
                (inl (
                  uploader-IsDue e.now after.uploader due,
                  ap (λ h. map_option (λ v. (flush e.web e.now h summary v).0) after.uploader)
                      after_rest.1,
                )))
          | inr early ↦
              rw early (
                after-Polls after.uploader (inr (uploader-NotDue e.now after.uploader early, refl)))
        ]

  -- A poll that cannot list the processes changes nothing, writes nothing and returns that error. Any
  -- other poll, also one without network observations, counts itself, has the process table and the
  -- traffic tables of what it saw, and, if the upload window has a poll and began at least its interval
  -- ago, tries to send it, whatever becomes of that. Its summary has the process's number and namespace,
  -- the counts and the top lists of the service that it leaves: it is written and there is no error, or
  -- the file does not take it and that is the error.
  pub poll_once_lem :
      (e : Surroundings F) (s : Service F)
      → ((e.processes ≡ none)
          × (poll_once e s ≡ record { service = s; written = none; error = some processes_error }))
        ⊎ ((processes : List (Process F)) × (e.processes ≡ some processes)
            × Polls e processes s (poll_once e s))
  unfolding poll_once
  poll_once_lem e s = elim (Option-cases e.processes) [
    | inl failed ↦ inl (failed, rw failed refl)
    | inr (processes, listed) ↦ inr (
      processes,
      listed,
      subst (λ o. Polls e processes s o)
          (sym (
            poll_once_listed e processes s listed
            ∙ ap (poll_of e processes s) (take_poll-watch processes e s)))
          (poll_of-Polls e processes s),
    )
  ]
