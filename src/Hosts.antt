-- ===== src/Hosts.antt =====
-- `isPublicIP` and `normalizeResolvedHost` of internal/watcher/resolver.go.
pub mod Domains
pub mod Private
use dialtone_watcher.Prelude.{
  Bool, true, false, not, ◌||◌, Option, none, some, [], ◌∷◌, Text, codes, is_empty, if◌then◌else◌,
}
use dialtone_watcher.Strings.{trim_space, to_lower, trim_suffix, trim}
use dialtone_watcher.Netip.{Netip}

module _ ⦃ip : Netip⦄ where
  open ip use {
    Addr, parse_addr, to_text, is_loopback, is_private, is_link_local_unicast,
    is_link_local_multicast, is_multicast, is_unspecified,
  }

  abbrev pub is_public : Addr → Bool
  is_public a = not (
      is_loopback a
      || (is_private a
          || (is_link_local_unicast a
              || (is_link_local_multicast a || (is_multicast a || is_unspecified a)))))

  unfoldable pub is_public_ip : Text → Bool
  is_public_ip host = elim (parse_addr host) [ none ↦ false | some a ↦ is_public a ]

  -- the two assignments at the head of `normalizeResolvedHost`
  pub strip_host : Text → Text
  unfolding trim_space to_lower trim_suffix trim
  strip_host host = trim (trim_suffix (to_lower (trim_space host)) (codes ".")) (codes "[]")

  pub canonical_host : Text → Text
  unfolding is_public_ip
  canonical_host host = if is_empty host then [] else elim (parse_addr host) [
    | some addr ↦ if not (is_public_ip host) then [] else to_text addr
    | none ↦ host
  ]

  unfoldable pub normalize_resolved_host : Text → Text
  unfolding strip_host canonical_host
  normalize_resolved_host host = canonical_host (strip_host host)
