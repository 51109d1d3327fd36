-- ===== src/Service/Traffic/Domains.antt =====
-- The domain table behind `pollDomainsLocked` of internal/watcher/watcher.go, against the sum over
-- the observations.
use dialtone_watcher.Prelude.{
  ℕ, ◌+◌, false, [], ◌∷◌, ◌≡◌, refl, Text, nat_eq, list_eq, ◌==◌, eq_iff, if◌then◌else◌, arith,
}
use dialtone_watcher.Words.{add64}
use dialtone_watcher.Clock.{Time}
use dialtone_watcher.Netip.{Netip}
use dialtone_watcher.Dict.{Dict, lookup, insert, IsDict, found_or, contains}
use dialtone_watcher.Dict.Laws.{lookup-insert}
use dialtone_watcher.Dict.Sum.{or_zero}
use dialtone_watcher.Records.{DomainRecord}
use dialtone_watcher.Network.{NetworkConnectionSample, NetworkObservation}
use dialtone_watcher.Lookups.{cached_display_name_locked}
use dialtone_watcher.Uploader.Window.{Agrees}
use dialtone_watcher.Service.{Service}
use dialtone_watcher.Service.Traffic.{
  delta, fresh_domain_record, add_to_domain, observe, observe_all,
}

-- The sum of what the observations of a domain moved, each against the sample of its connection from
-- the last poll.
abbrev pub moved :
    (NetworkConnectionSample → ℕ)
    → Text
    → Dict Text NetworkObservation
    → Dict Text NetworkConnectionSample
    → ℕ
moved amount domain [] samples = 0
moved amount domain ((key, o) ∷ observations) samples =
    (if o.domain == domain then amount (delta o.sample (lookup key samples)) else 0)
    + moved amount domain observations samples

-- another connection's sample changes nothing
moved-insert :
    (amount : NetworkConnectionSample → ℕ) (domain key : Text) (v : NetworkConnectionSample)
    (observations : Dict Text NetworkObservation) (samples : Dict Text NetworkConnectionSample)
    → contains key observations ≡ false
    → moved amount domain observations (insert key v samples)
      ≡ moved amount domain observations samples
unfolding lookup
moved-insert amount domain key v [] samples h = refl
moved-insert amount domain key v ((k, o) ∷ observations) samples h = ground (
  arith,
  eq_iff k key,
  eq_iff key k,
  lookup-insert key k v samples,
  moved-insert amount domain key v observations samples,
)

-- A counter of a domain's record, and what an observation adds to it.
pub record IsCounter (field : DomainRecord → ℕ) (amount : NetworkConnectionSample → ℕ)
    : Type 0 where
  pub start : (domain : Text) → field (fresh_domain_record domain) ≡ 0
  pub adds :
      (now : Time) (name : Text) (m : NetworkConnectionSample) (r : DomainRecord)
      → field (add_to_domain now name m r) ≡ add64 (field r) (amount m)

module _ {F : Type 0} ⦃ip : Netip⦄ (now : Time) where
  observe_samples :
      (key : Text) (o : NetworkObservation) (s : Service F)
      → (observe now key o s).network_samples ≡ insert key o.sample s.network_samples
  unfolding observe
  observe_samples key o s = refl

  module _ (field : DomainRecord → ℕ) (amount : NetworkConnectionSample → ℕ)
      (c : IsCounter field amount) (domain : Text) where
    observe_counts :
        (key : Text) (o : NetworkObservation) (s : Service F)
        → Agrees (or_zero field (lookup domain (observe now key o s).domains)) (
            or_zero field (lookup domain s.domains)
            + (if o.domain == domain
                then amount (delta o.sample (lookup key s.network_samples))
                else 0))
    unfolding observe add64
    observe_counts key o s =
        let m = delta o.sample (lookup key s.network_samples) in
        let name = (cached_display_name_locked o.domain s.lookups).0 in
        let r = found_or (lookup o.domain s.domains) (fresh_domain_record o.domain) in
        ground (
          arith,
          eq_iff o.domain domain,
          lookup-insert o.domain domain (add_to_domain now name m r) s.domains,
          c.start o.domain,
          c.adds now name m r,
        )

    pub observe_all_counts :
        (observations : Dict Text NetworkObservation) (s : Service F)
        → IsDict observations
        → Agrees (or_zero field (lookup domain (observe_all now observations s).domains)) (
            or_zero field (lookup domain s.domains)
            + moved amount domain observations s.network_samples)
    unfolding observe_all
    observe_all_counts [] s h = omega arith
    observe_all_counts ((key, o) ∷ observations) s (new, h) =
        let later =
          rw
            (
              observe_samples key o s,
              moved-insert amount domain key o.sample observations s.network_samples new,
            )
            at (observe_all_counts observations (observe now key o s) h) in
        omega (arith, later, observe_counts key o s)

pub rx-IsCounter : IsCounter (λ r. r.rx_bytes) (λ m. m.rx_bytes)
unfolding fresh_domain_record add_to_domain
rx-IsCounter = record { start = λ _. refl; adds = λ _ _ _ _. refl }

pub tx-IsCounter : IsCounter (λ r. r.tx_bytes) (λ m. m.tx_bytes)
unfolding fresh_domain_record add_to_domain
tx-IsCounter = record { start = λ _. refl; adds = λ _ _ _ _. refl }

pub polls-IsCounter : IsCounter (λ r. r.polls_seen) (λ _. 1)
unfolding fresh_domain_record add_to_domain
polls-IsCounter = record { start = λ _. refl; adds = λ _ _ _ _. refl }
