-- ===== src/Names/Hostnames.antt =====
-- `bestHostnameCandidate` of internal/watcher/resolver.go.
use dialtone_watcher.Prelude.{
  Bool, false, not, ◌||◌, Option, none, some, List, [], ◌∷◌, Text, is_empty, ◌==◌, nat_eq, list_eq,
  if◌then◌else◌, ltb, length,
}
use dialtone_watcher.Strings.{text_ltb}
use dialtone_watcher.Sort.{sort_slice}
use dialtone_watcher.Netip.{Netip}
use dialtone_watcher.Hosts.Domains.{registrable_domain}

-- `unique[host]`
abbrev pub is_seen : Text → List Text → Bool
is_seen host [] = false
is_seen host (x ∷ xs) = x == host || is_seen host xs

-- the loop over the hosts; `seen` holds the keys of `unique`
unfoldable pub filter_hosts : List Text → List Text → List Text
filter_hosts seen [] = []
filter_hosts seen (host ∷ hosts) =
    let without = filter_hosts seen hosts in
    let rest = filter_hosts (host ∷ seen) hosts in
    if is_empty host || is_seen host seen then without else host ∷ rest

-- `filtered[0]`
abbrev pub first_of : List Text → Option Text
first_of [] = none
first_of (x ∷ xs) = some x

module _ ⦃ip : Netip⦄ where
  -- the comparison is negative
  unfoldable pub hostname_before : Text → Text → Bool
  unfolding registrable_domain
  hostname_before a b =
      let a_wildcardish = registrable_domain a == a in
      let b_wildcardish = registrable_domain b == b in
      if not (if a_wildcardish then b_wildcardish else not b_wildcardish)
      then not a_wildcardish
      else if not (length a == length b)
      then ltb (length a) (length b)
      else text_ltb a b

  -- `none` is the panic of an index out of range
  unfoldable pub best_hostname_candidate : List Text → Option Text
  unfolding filter_hosts hostname_before sort_slice
  best_hostname_candidate [] = some []
  best_hostname_candidate (host ∷ hosts) =
      first_of (sort_slice hostname_before (filter_hosts [] (host ∷ hosts)))
