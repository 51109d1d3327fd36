-- ===== src/Names/Whois.antt =====
-- `bestWhoisCandidate` of internal/watcher/resolver.go, on the hosts that `extractHost` returns.
pub mod Best
pub mod Counts
use dialtone_watcher.Prelude.{
  not, ℕ, ◌+◌, Bool, true, false, ◌&&◌, ◌||◌, List, [], ◌∷◌, Text, codes, is_empty, ◌==◌, nat_eq,
  list_eq, if◌then◌else◌, ltb,
}
use dialtone_watcher.Dict.{Dict, lookup, insert, found_or}
use dialtone_watcher.Netip.{Netip}
use dialtone_watcher.Strings.{text_ltb}
use dialtone_watcher.Hosts.Domains.{registrable_domain}

-- `whoisIgnoredDomains[host]`
abbrev pub is_ignored : Text → Bool
is_ignored host =
    host == codes "iana.org"
    || (host == codes "arin.net"
        || (host == codes "apnic.net"
            || (host == codes "afrinic.net" || host == codes "lacnic.net")))

-- The hosts that are counted.
unfoldable pub is_candidate : Text → Bool
is_candidate host = not (is_empty host || is_ignored host)

-- the test in the second loop
abbrev pub beats : Text × ℕ → Text × ℕ → Bool
beats (host, count) (best_host, best_count) =
    ltb best_count count || (count == best_count && text_ltb host best_host)

-- the second loop
unfoldable pub best_of : Dict Text ℕ → Text × ℕ → Text × ℕ
best_of [] best = best
best_of (entry ∷ counts) best = best_of counts (if beats entry best then entry else best)

module _ ⦃ip : Netip⦄ where
  -- the first loop
  unfoldable pub count_hosts : List Text → Dict Text ℕ → Dict Text ℕ
  unfolding is_candidate
  count_hosts [] counts = counts
  count_hosts (extracted ∷ more) counts =
      let host = registrable_domain extracted in
      count_hosts more (
        if is_candidate host
        then insert host (found_or (lookup host counts) 0 + 1) counts
        else counts)

  unfoldable pub best_whois_candidate : List Text → Text
  unfolding count_hosts best_of
  best_whois_candidate extracted = (best_of (count_hosts extracted []) ([], 0)).0
