-- ===== src/Uploader/Ledger.antt =====
-- The books of an uploader of internal/watcher/upload.go, over sequences of its calls.
use dialtone_watcher.Prelude.{
  inl, inr, All, Option-cases, ℕ, ◌+◌, Option, none, some, List, [], ◌∷◌, ◌≡◌, ◌≢◌, arith,
}
use dialtone_watcher.Prelude.Int.{ℤ}
use dialtone_watcher.Words.{add64}
use dialtone_watcher.Clock.{Time}
use dialtone_watcher.Float.{Float64}
use dialtone_watcher.Netip.{Netip}
use dialtone_watcher.Dict.{Dict}
use dialtone_watcher.Dict.Sum.{or_zero}
use dialtone_watcher.Records.{ProcessRecord, HardwareProfile, Summary}
use dialtone_watcher.Network.{NetworkObservation}
use dialtone_watcher.Uploader.{UploadWindow, Uploader}
use dialtone_watcher.Uploader.Recording.{
  ensure_window, reset_window, increment_poll, count_network, record_network, record_processes,
}
use dialtone_watcher.Uploader.Payload.{WatcherUploadPayload}
use dialtone_watcher.Uploader.Flush.{Web, build_payload, flush}
use dialtone_watcher.Uploader.Window.{Agrees}

-- A call of one of the uploader's methods.
pub data Event (F : Type 0) : Type 0 where
  polled : Time → Event F
  processes : Time → Dict ℤ (ProcessRecord F) → Event F
  network : Time → NetworkObservation → ℕ → ℕ → ℕ → ℕ → Event F
  flushed : Web F → Time → HardwareProfile F → Summary F → Event F

module _ {F : Type 0} where
  abbrev pub time_of : Event F → Time
  time_of (polled now) = now
  time_of (processes now pids) = now
  time_of (network now o rx tx d c) = now
  time_of (flushed web now hardware summary) = now

  -- what an event adds to the polls, and to the bytes received and sent
  abbrev pub added_polls : Event F → ℕ
  added_polls (polled now) = 1
  added_polls _ = 0

  abbrev pub added_rx : Event F → ℕ
  added_rx (network now o rx tx d c) = rx
  added_rx _ = 0

  abbrev pub added_tx : Event F → ℕ
  added_tx (network now o rx tx d c) = tx
  added_tx _ = 0

-- A column of the books: what a window holds of it, a payload delivers and an event adds.
pub record Column (F : Type 0) : Type 0 where
  pub held : UploadWindow F → ℕ
  pub sent : WatcherUploadPayload F → ℕ
  pub added : Event F → ℕ

module _ {F : Type 0} where
  abbrev pub polls_column : Column F
  polls_column = record {
    held = λ w. w.polls;
    sent = λ p. p.summary.poll_count;
    added = added_polls;
  }

  abbrev pub rx_column : Column F
  rx_column = record {
    held = λ w. w.total_rx_bytes;
    sent = λ p. p.summary.total_rx_bytes;
    added = added_rx;
  }

  abbrev pub tx_column : Column F
  tx_column = record {
    held = λ w. w.total_tx_bytes;
    sent = λ p. p.summary.total_tx_bytes;
    added = added_tx;
  }

abbrev pub total {ℓ} : {A : Type ℓ} → (A → ℕ) → List A → ℕ
total f [] = 0
total f (x ∷ xs) = f x + total f xs

module _ {F : Type 0} where
  -- A window that has not started has counted nothing.
  pub record IsOpen (w : UploadWindow F) : Type 0 where
    pub unstarted :
        w.started_at ≡ 0 → (w.polls ≡ 0) × (w.total_rx_bytes ≡ 0) × (w.total_tx_bytes ≡ 0)

  ensure_window_counts :
      (now : Time) (w : UploadWindow F)
      → IsOpen w
      → (ensure_window now w).polls ≡ w.polls
        × (ensure_window now w).total_rx_bytes ≡ w.total_rx_bytes
        × (ensure_window now w).total_tx_bytes ≡ w.total_tx_bytes
  unfolding ensure_window
  ensure_window_counts now w h = ground (arith, h.unstarted)

  ensure_window_started :
      (now : Time) (w : UploadWindow F) → now ≢ 0 → (ensure_window now w).started_at ≢ 0
  unfolding ensure_window
  ensure_window_started now w h = ground arith

module _ {F : Type 0} ⦃fl : Float64 F⦄ ⦃ip : Netip⦄ where
  unfoldable pub step : Event F → Uploader F → Uploader F × Option (WatcherUploadPayload F)
  step (polled now) u = (increment_poll now u, none)
  step (processes now pids) u = (record_processes now pids u, none)
  step (network now o rx tx d c) u = (record_network now o rx tx d c u, none)
  step (flushed web now hardware summary) u =
      let (u', taken, error) = flush web now hardware summary u in (u', taken)

  unfoldable pub run : List (Event F) → Uploader F → Uploader F × List (WatcherUploadPayload F)
  unfolding step
  run [] u = (u, [])
  run (e ∷ events) u =
      let (u', taken) = step e u in
      let (u'', rest) = run events u' in (u'', elim taken [ none ↦ rest | some p ↦ p ∷ rest ])

  -- One column through one event.
  abbrev Books : Column F → Event F → Uploader F → Type 0
  Books c e u =
      Agrees (or_zero c.sent (step e u).1 + c.held (step e u).0.window)
        (c.held u.window + c.added e)

  abbrev AllBooks : Event F → Uploader F → Type 0
  AllBooks e u = Books polls_column e u × Books rx_column e u × Books tx_column e u

  step_books :
      (e : Event F) (u : Uploader F)
      → time_of e ≢ 0
      → IsOpen u.window
      → AllBooks e u × IsOpen (step e u).0.window
  unfolding step increment_poll record_processes record_network count_network add64 flush
      build_payload reset_window
  step_books (polled now) u t h =
      ground (arith, ensure_window_counts now u.window h, ensure_window_started now u.window t)
  step_books (processes now pids) u t h =
      ground (arith, ensure_window_counts now u.window h, ensure_window_started now u.window t)
  step_books (network now o rx tx d c) u t h =
      ground (arith, ensure_window_counts now u.window h, ensure_window_started now u.window t)
  step_books (flushed web now hardware summary) u t h = ground (arith, h.unstarted)

  -- One column through a run.
  abbrev pub Settled : Column F → List (Event F) → Uploader F → Type 0
  Settled c events u =
      Agrees (total c.sent (run events u).1 + c.held (run events u).0.window)
        (c.held u.window + total c.added events)

  Settled-cons :
      (c : Column F) (e : Event F) (events : List (Event F)) (u : Uploader F)
      → Books c e u
      → Settled c events (step e u).0
      → Settled c (e ∷ events) u
  unfolding run
  Settled-cons c e events u now later = elim (Option-cases (step e u).1) [
    | inl nothing ↦ ground arith
    | inr (p, taken) ↦ ground arith
  ]

  -- Over any sequence of calls at times after zero, failed uploads among them, the polls in the
  -- payloads that the server took and those still in the window are together the polls that the
  -- window held before and those recorded since, and so for the bytes received and the bytes sent,
  -- all as `uint64` counters: nothing is lost and nothing is sent twice.
  pub run_books :
      (events : List (Event F)) (u : Uploader F)
      → All (λ e. time_of e ≢ 0) events
      → IsOpen u.window
      → Settled polls_column events u × Settled rx_column events u × Settled tx_column events u
  unfolding run
  run_books [] u t h = ground arith
  run_books (e ∷ events) u (t, ts) h =
      let ((polls, rx, tx), still) = step_books e u t h in
      let (polls', rx', tx') = run_books events (step e u).0 ts still in
      (
        Settled-cons polls_column e events u polls polls',
        Settled-cons rx_column e events u rx rx',
        Settled-cons tx_column e events u tx tx',
      )
