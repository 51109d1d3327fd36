-- ===== src/Service/Invariant/History.antt =====
-- The life of `service` of internal/watcher/watcher.go: polls and finished lookups in any sequence.
use dialtone_watcher.Uploader.Config.{Environment, RunOptions, new_uploader}
use dialtone_watcher.Prelude.{
  nat_beq, ◌||◌, true, false, Option, none, some, List, [], ◌∷◌, ◌≡◌, Text, nat_eq, list_eq, ◌==◌,
  if◌then◌else◌, Option-cases, inl, inr, Bool-cases,
}
use dialtone_watcher.Clock.{is_zero, Time}
use dialtone_watcher.Float.{Float64}
use dialtone_watcher.Netip.{Netip}
use dialtone_watcher.Dict.{lookup}
use dialtone_watcher.Dict.Laws.{
  AllEntries-lookup, map_option, insert-IsDict, insert-AllEntries, update_values-IsDict,
  update_values-AllEntries,
}
use dialtone_watcher.Records.{DomainRecord, ConnectionRecord, HardwareProfile, Summary}
use dialtone_watcher.Uploader.{Uploader}
use dialtone_watcher.Uploader.Recording.{reset_window}
use dialtone_watcher.Uploader.Flush.{Web, flush, build_payload, send}
use dialtone_watcher.Uploader.Window.{
  IsWindow, empty_window-IsWindow, increment_poll-IsWindow, record_processes-IsWindow,
}
use dialtone_watcher.Uploader.Config.Laws.{new_uploader_lem}
use dialtone_watcher.Service.{Service, Process}
use dialtone_watcher.Service.Processes.{poll_processes_locked}
use dialtone_watcher.Service.Processes.Laws.{poll_processes_locked-IsProcessTable}
use dialtone_watcher.Service.Poll.{
  is_due, Surroundings, new_service, count_poll, show_name, show_connection_name, apply_lookup,
  upload, take_poll, poll_once,
}
use dialtone_watcher.Service.Invariant.{record_key, HasWindow, IsService}
use dialtone_watcher.Service.Invariant.Traffic.{poll_domains_locked-IsService}

-- What happens to a service: a poll, or a lookup that the worker has finished.
pub data Happening (F : Type 0) : Type 0 where
  poll : Surroundings F → Happening F
  looked_up : Text → Text → Happening F

show_connection_name_key :
    (address name k : Text) (r : ConnectionRecord)
    → record_key r ≡ k
    → record_key (show_connection_name address name k r) ≡ k
show_connection_name_key address name k r h =
    elim (r.domain == address)
      as (λ b.
        record_key
          (if b then record r { snapshot = record r.snapshot { display_name = name } } else r)
        ≡ k) [ true ↦ h | false ↦ h ]

module _ {F : Type 0} where
  map_option-HasWindow :
      (f : Uploader F → Uploader F) (u : Option (Uploader F))
      → ((v : Uploader F) → IsWindow v.window → IsWindow (f v).window)
      → HasWindow u
      → HasWindow (map_option f u)
  map_option-HasWindow f none keep h = tt
  map_option-HasWindow f (some u) keep h = keep u h

  pub count_poll-IsService :
      (now : Time) (s : Service F) → IsService s → IsService (count_poll now s)
  unfolding count_poll
  count_poll-IsService now s h = record {
    processes = h.processes;
    traffic = h.traffic;
    uploads = map_option-HasWindow _ s.uploader (increment_poll-IsWindow now) h.uploads;
  }

  pub apply_lookup-IsService :
      (address name : Text) (s : Service F) → IsService s → IsService (apply_lookup address name s)
  unfolding apply_lookup
  apply_lookup-IsService address name s h =
      let t = h.traffic in
      elim (Option-cases (lookup address s.domains)) [
        | inl absent ↦ rw absent (record {
          processes = h.processes;
          traffic = record {
            domains_dict = t.domains_dict;
            domains_named = t.domains_named;
            connections_dict = update_values-IsDict _ s.connections t.connections_dict;
            connections_named =
                update_values-AllEntries _ _ s.connections (show_connection_name_key address name)
                  t.connections_named;
            samples_dict = t.samples_dict;
          };
          uploads = h.uploads;
        })
        | inr (r, there) ↦ rw there (record {
          processes = h.processes;
          traffic = record {
            domains_dict = insert-IsDict address _ s.domains t.domains_dict;
            domains_named =
                insert-AllEntries (λ k (d : DomainRecord). d.domain ≡ k) address (show_name name r)
                  s.domains
                  (AllEntries-lookup (λ k (d : DomainRecord). d.domain ≡ k) address r s.domains
                    t.domains_named there)
                  t.domains_named;
            connections_dict = update_values-IsDict _ s.connections t.connections_dict;
            connections_named =
                update_values-AllEntries _ _ s.connections (show_connection_name_key address name)
                  t.connections_named;
            samples_dict = t.samples_dict;
          };
          uploads = h.uploads;
        })
      ]

pub new_uploader-HasWindow :
    (F : Type 0) (env : Environment) (machine_id : Text) (options : RunOptions)
    → HasWindow {F = F} (new_uploader env machine_id options)
new_uploader-HasWindow F env machine_id options =
    elim (new_uploader_lem {F = F} env machine_id options) [
      | inl (nothing, why) ↦ rw nothing tt
      | inr (u, made, usable, on, named) ↦ rw (made, usable.window) (empty_window-IsWindow 0)
    ]

module _ {F : Type 0} ⦃fl : Float64 F⦄ ⦃ip : Netip⦄ where
  flush-IsWindow :
      (web : Web F) (now : Time) (hardware : HardwareProfile F) (summary : Summary F)
      (u : Uploader F)
      → IsWindow u.window
      → IsWindow (flush web now hardware summary u).0.window
  unfolding flush reset_window
  flush-IsWindow web now hardware summary u h =
      elim (Bool-cases (is_zero u.window.started_at || nat_beq u.window.polls 0)) [
        | inl idle ↦ rw idle h
        | inr busy ↦ elim (Option-cases (send web u (build_payload now hardware summary u))) [
          | inl sent ↦ rw (busy, sent) (empty_window-IsWindow now)
          | inr (e, failed) ↦ rw (busy, failed) h
        ]
      ]

  pub poll_processes-IsService :
      (processes : List (Process F)) (now : Time) (s : Service F)
      → IsService s
      → IsService (poll_processes_locked processes now s)
  unfolding poll_processes_locked
  poll_processes-IsService processes now s h = record {
    processes = poll_processes_locked-IsProcessTable now processes s h.processes;
    traffic = h.traffic;
    uploads = map_option-HasWindow _ s.uploader (record_processes-IsWindow now _) h.uploads;
  }

  pub upload-IsService :
      (web : Web F) (now : Time) (summary : Summary F) (s : Service F)
      → IsService s
      → IsService (upload web now summary s)
  unfolding upload
  upload-IsService web now summary s h = record {
    processes = h.processes;
    traffic = h.traffic;
    uploads =
        map_option-HasWindow _ s.uploader (flush-IsWindow web now s.hardware summary) h.uploads;
  }

  take_poll-IsService :
      (processes : List (Process F)) (e : Surroundings F) (s : Service F)
      → IsService s
      → IsService (take_poll processes e s)
  unfolding take_poll
  take_poll-IsService processes e s h = elim (Option-cases e.observations) [
    | inl failed ↦
        rw failed (count_poll-IsService e.now _ (poll_processes-IsService processes e.now s h))
    | inr (observations, o) ↦ rw o (
        count_poll-IsService e.now _ (
          poll_domains_locked-IsService e.now observations _
            (poll_processes-IsService processes e.now s h)))
  ]

  pub poll_once-IsService :
      (e : Surroundings F) (s : Service F) → IsService s → IsService (poll_once e s).service
  unfolding poll_once
  poll_once-IsService e s h = elim (Option-cases e.processes) [
    | inl failed ↦ rw failed h
    | inr (processes, listed) ↦
        let s' = take_poll processes e s in
        let h' = take_poll-IsService processes e s h in
        elim (Bool-cases (is_due e.now s'.uploader)) [
          | inl due ↦ rw (listed, due) (upload-IsService e.web e.now _ s' h')
          | inr early ↦ rw (listed, early) h'
        ]
  ]

  unfoldable pub happen : Happening F → Service F → Service F
  happen (poll e) s = (poll_once e s).service
  happen (looked_up address name) s = apply_lookup address name s

  unfoldable pub live : List (Happening F) → Service F → Service F
  unfolding happen
  live [] s = s
  live (x ∷ xs) s = live xs (happen x s)

  live_from : (xs : List (Happening F)) (s : Service F) → IsService s → IsService (live xs s)
  unfolding live
  live_from [] s h = h
  live_from (poll e ∷ xs) s h = live_from xs _ (poll_once-IsService e s h)
  live_from (looked_up address name ∷ xs) s h =
      live_from xs _ (apply_lookup-IsService address name s h)

  pub new_service-IsService :
      (hardware : HardwareProfile F) (u : Option (Uploader F))
      → HasWindow u
      → IsService (new_service hardware u)
  new_service-IsService hardware u h = record {
    processes = record { dict = tt; named = tt };
    traffic = record {
      domains_dict = tt;
      domains_named = tt;
      connections_dict = tt;
      connections_named = tt;
      samples_dict = tt;
    };
    uploads = h;
  }

  -- From the start of the daemon with any environment, through any sequence of polls (failed readings,
  -- failed writes and failed uploads among them) and finished lookups: no process, domain or
  -- connection is tracked twice, each record stands under the key that it spells, and in the upload
  -- window, if there is an uploader, the bytes of the domains, those of the connections and the totals
  -- agree modulo 2 ^ 64.
  pub live-IsService :
      (hardware : HardwareProfile F) (env : Environment) (machine_id : Text) (options : RunOptions)
      (xs : List (Happening F))
      → IsService (live xs (new_service hardware (new_uploader env machine_id options)))
  live-IsService hardware env machine_id options xs =
      live_from xs _
        (new_service-IsService hardware _ (new_uploader-HasWindow F env machine_id options))
