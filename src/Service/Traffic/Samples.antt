-- ===== src/Service/Traffic/Samples.antt =====
-- The samples behind `pollDomainsLocked` of internal/watcher/watcher.go, and its differences.
use dialtone_watcher.Prelude.{
  ℕ, ◌+◌, not, Option, none, some, List, [], ◌∷◌, ◌≡◌, refl, Text, nat_eq, list_eq, eq_iff,
  if◌then◌else◌, arith, leb,
}
use dialtone_watcher.Clock.{Time}
use dialtone_watcher.Netip.{Netip}
use dialtone_watcher.Dict.{Dict, lookup, IsDict, contains}
use dialtone_watcher.Dict.Laws.{map_option, lookup-insert, lookup-delete_if}
use dialtone_watcher.Network.{NetworkConnectionSample, NetworkObservation}
use dialtone_watcher.Service.{Service}
use dialtone_watcher.Service.Traffic.{
  diff_or_current, observe, observe_all, expire, poll_domains_locked,
}
use dialtone_watcher.Service.Invariant.{IsService}
use dialtone_watcher.Service.Invariant.Traffic.{observe_all-IsService}

abbrev sampled :
    Option NetworkObservation → Option NetworkConnectionSample → Option NetworkConnectionSample
sampled none old = old
sampled (some o) old = some o.sample

module _ {F : Type 0} ⦃ip : Netip⦄ (now : Time) where
  observe_all_samples :
      (key : Text) (observations : Dict Text NetworkObservation) (s : Service F)
      → IsDict observations
      → lookup key (observe_all now observations s).network_samples
        ≡ sampled (lookup key observations) (lookup key s.network_samples)
  unfolding observe_all observe lookup
  observe_all_samples key [] s h = refl
  observe_all_samples key ((k, o) ∷ observations) s (new, h) = ground (
    arith,
    observe_all_samples key observations (observe now k o s) h,
    lookup-insert k key o.sample s.network_samples,
    eq_iff k key,
  )

  -- After a poll, the samples kept for the next one are those of the poll's observations, under their
  -- keys, and no others: a connection that has gone starts anew when its key comes back.
  pub poll_domains_locked_samples :
      (observations : Dict Text NetworkObservation) (s : Service F) (key : Text)
      → IsDict observations
      → IsService s
      → lookup key (poll_domains_locked observations now s).network_samples
        ≡ map_option (λ o. o.sample) (lookup key observations)
  unfolding poll_domains_locked expire
  poll_domains_locked_samples observations s key d v = ground (
    arith,
    observe_all_samples key observations s d,
    lookup-delete_if (λ k (_ : NetworkConnectionSample). not (contains k observations)) key
        (observe_all now observations s).network_samples
        (observe_all-IsService now observations s v).traffic.samples_dict,
  )

-- What a row of counter readings adds up to, each against the one before.
abbrev pub sum_of_differences : ℕ → List ℕ → ℕ
sum_of_differences previous [] = 0
sum_of_differences previous (x ∷ xs) = diff_or_current x previous + sum_of_differences x xs

abbrev pub last_reading : ℕ → List ℕ → ℕ
last_reading previous [] = previous
last_reading previous (x ∷ xs) = last_reading x xs

-- The readings after which the counter fell, because it was reset.
abbrev pub readings_before_resets : ℕ → List ℕ → ℕ
readings_before_resets previous [] = 0
readings_before_resets previous (x ∷ xs) =
    (if leb previous x then 0 else previous) + readings_before_resets x xs
