-- ===== src/Uploader/Window.antt =====
-- The invariant of an upload window of internal/watcher/upload.go.
use dialtone_watcher.Prelude.{
  ℕ, ◌%◌, true, false, ◌∷◌, ◌≡◌, refl, Text, arith, nat_eq, list_eq, if◌then◌else◌, Option-cases,
  inl, inr, ◌++◌,
}
use dialtone_watcher.Prelude.Int.{ℤ, int_eq}
use dialtone_watcher.Words.{u64, add64}
use dialtone_watcher.Clock.{Time, is_zero}
use dialtone_watcher.Float.{Float64}
use dialtone_watcher.Decimal.{format_int}
use dialtone_watcher.Dict.{Dict, found_or, lookup, insert, IsDict}
use dialtone_watcher.Dict.Laws.{AllEntries, insert-IsDict, upsert-AllEntries}
use dialtone_watcher.Dict.Sum.{sum_by, sum_by-insert}
use dialtone_watcher.Records.{ProcessRecord}
use dialtone_watcher.Network.{NetworkObservation, observed_connection_key}
use dialtone_watcher.Uploader.{
  DomainUploadRecord, ConnectionUploadRecord, UploadWindow, Uploader, empty_window,
}
use dialtone_watcher.Uploader.Recording.{
  fresh_domain, fresh_connection, count_domain, count_connection, ensure_window, increment_poll,
  count_network, record_network, record_processes,
}

-- the key under which a connection's record belongs
abbrev pub connection_key : ConnectionUploadRecord → Text
connection_key c = format_int c.pid ++ b'|' ∷ (c.protocol ++ b'|' ∷ c.domain)

abbrev pub Agrees : ℕ → ℕ → Type 0
Agrees a b = a % u64 ≡ b % u64

pub record IsWindow {F : Type 0} (w : UploadWindow F) : Type 0 where
  pub domains_dict : IsDict w.domains
  pub connections_dict : IsDict w.connections
  pub domains_named : AllEntries (λ k (d : DomainUploadRecord). d.domain ≡ k) w.domains
  pub connections_named :
      AllEntries (λ k (c : ConnectionUploadRecord). connection_key c ≡ k) w.connections
  pub domains_rx :
      Agrees (sum_by (λ (d : DomainUploadRecord). d.rx_bytes) w.domains) w.total_rx_bytes
  pub domains_tx :
      Agrees (sum_by (λ (d : DomainUploadRecord). d.tx_bytes) w.domains) w.total_tx_bytes
  pub connections_rx :
      Agrees (sum_by (λ (c : ConnectionUploadRecord). c.rx_bytes) w.connections) w.total_rx_bytes
  pub connections_tx :
      Agrees (sum_by (λ (c : ConnectionUploadRecord). c.tx_bytes) w.connections) w.total_tx_bytes

pub empty_window-IsWindow : {F : Type 0} (now : Time) → IsWindow (empty_window {F = F} now)
unfolding sum_by
empty_window-IsWindow now = record {
  domains_dict = tt;
  connections_dict = tt;
  domains_named = tt;
  connections_named = tt;
  domains_rx = refl;
  domains_tx = refl;
  connections_rx = refl;
  connections_tx = refl;
}

-- A write that adds `n` to one record's counter adds `n` to the sum.
module _ {V : Type 0} (f : V → ℕ) (m : Dict Text V) (k : Text) (fresh : V) (step : V → V)
    (n : ℕ) where
  Agrees-insert :
      f fresh ≡ 0
      → f (step (found_or (lookup k m) fresh)) ≡ add64 (f (found_or (lookup k m) fresh)) n
      → (total : ℕ) → Agrees (sum_by f m) total
      → Agrees (sum_by f (insert k (step (found_or (lookup k m) fresh)) m)) (add64 total n)
  unfolding add64
  Agrees-insert start adds total h = elim (Option-cases (lookup k m)) [
    | inl absent ↦ ground (arith, sum_by-insert f k (step (found_or (lookup k m) fresh)) m)
    | inr (v, there) ↦ ground (arith, sum_by-insert f k (step (found_or (lookup k m) fresh)) m)
  ]

module _ {F : Type 0} where
  count_network-IsWindow :
      (o : NetworkObservation) (rx tx d c : ℕ) {w : UploadWindow F}
      → IsWindow w
      → IsWindow (count_network o rx tx d c w)
  unfolding count_network observed_connection_key
  count_network-IsWindow o rx tx d c {w} h = record {
    domains_dict = insert-IsDict o.domain _ w.domains h.domains_dict;
    connections_dict = insert-IsDict (observed_connection_key o) _ w.connections h.connections_dict;
    domains_named =
        upsert-AllEntries (λ k (e : DomainUploadRecord). e.domain ≡ k) o.domain
          (fresh_domain o.domain) (count_domain o rx tx) w.domains refl (λ v p. p) h.domains_named;
    connections_named =
        upsert-AllEntries (λ k (e : ConnectionUploadRecord). connection_key e ≡ k)
          (observed_connection_key o) (fresh_connection o) (count_connection o rx tx) w.connections
          refl (λ v p. p) h.connections_named;
    domains_rx =
        Agrees-insert (λ (e : DomainUploadRecord). e.rx_bytes) w.domains o.domain
          (fresh_domain o.domain) (count_domain o rx tx) rx (refl) (refl) w.total_rx_bytes
          h.domains_rx;
    domains_tx =
        Agrees-insert (λ (e : DomainUploadRecord). e.tx_bytes) w.domains o.domain
          (fresh_domain o.domain) (count_domain o rx tx) tx (refl) (refl) w.total_tx_bytes
          h.domains_tx;
    connections_rx =
        Agrees-insert (λ (e : ConnectionUploadRecord). e.rx_bytes) w.connections
          (observed_connection_key o) (fresh_connection o) (count_connection o rx tx) rx (refl)
          (refl) w.total_rx_bytes h.connections_rx;
    connections_tx =
        Agrees-insert (λ (e : ConnectionUploadRecord). e.tx_bytes) w.connections
          (observed_connection_key o) (fresh_connection o) (count_connection o rx tx) tx (refl)
          (refl) w.total_tx_bytes h.connections_tx;
  }

  ensure_window-IsWindow :
      (now : Time) {w : UploadWindow F} → IsWindow w → IsWindow (ensure_window now w)
  unfolding ensure_window
  ensure_window-IsWindow now {w} h =
      elim (is_zero w.started_at) as (λ b. IsWindow (if b then empty_window now else w)) [
        | true ↦ empty_window-IsWindow now
        | false ↦ h
      ]

  pub record_network-IsWindow :
      (now : Time) (o : NetworkObservation) (rx tx d c : ℕ) (u : Uploader F)
      → IsWindow u.window
      → IsWindow (record_network now o rx tx d c u).window
  unfolding record_network
  record_network-IsWindow now o rx tx d c u h =
      count_network-IsWindow o rx tx d c (ensure_window-IsWindow now h)

  pub increment_poll-IsWindow :
      (now : Time) (u : Uploader F) → IsWindow u.window → IsWindow (increment_poll now u).window
  unfolding increment_poll
  increment_poll-IsWindow now u h =
      let v = ensure_window-IsWindow now h in
      record {
        domains_dict = v.domains_dict;
        connections_dict = v.connections_dict;
        domains_named = v.domains_named;
        connections_named = v.connections_named;
        domains_rx = v.domains_rx;
        domains_tx = v.domains_tx;
        connections_rx = v.connections_rx;
        connections_tx = v.connections_tx;
      }

  pub record_processes-IsWindow :
      ⦃fl : Float64 F⦄ (now : Time) (pids : Dict ℤ (ProcessRecord F)) (u : Uploader F)
      → IsWindow u.window
      → IsWindow (record_processes now pids u).window
  unfolding record_processes
  record_processes-IsWindow now pids u h =
      let v = ensure_window-IsWindow now h in
      record {
        domains_dict = v.domains_dict;
        connections_dict = v.connections_dict;
        domains_named = v.domains_named;
        connections_named = v.connections_named;
        domains_rx = v.domains_rx;
        domains_tx = v.domains_tx;
        connections_rx = v.connections_rx;
        connections_tx = v.connections_tx;
      }
