-- ===== src/Hosts/Private.antt =====
-- `normalizeResolvedHost` of internal/watcher/resolver.go and the address ranges.
use dialtone_watcher.Prelude.{true, none, ◌≡◌, ◌⊎◌, inl, inr, Text, arith, Option-cases}
use dialtone_watcher.Netip.{Netip}
use dialtone_watcher.Hosts.{is_public_ip, strip_host, canonical_host, normalize_resolved_host}

-- A host that may be reported: an address in a public range, or no address at all.
abbrev pub IsReportable : ⦃ip : Netip⦄ → Text → Type 0
IsReportable ⦃ip⦄ host = (ip.parse_addr host ≡ none) ⊎ (is_public_ip host ≡ true)

canonical_host-IsReportable : ⦃ip : Netip⦄ (host : Text) → IsReportable (canonical_host host)
unfolding canonical_host is_public_ip
canonical_host-IsReportable ⦃ip⦄ host = elim (Option-cases (ip.parse_addr host)) [
  | inl no_address ↦ ground (arith, ip.parse_addr-nil)
  | inr (a, parsed) ↦ ground (arith, ip.parse_addr-nil, ip.parse_addr-to_text a)
]

-- Whatever host it is given, the function returns a text that is no IP address, or an address that is
-- none of private, loopback, link-local, multicast and unspecified.
pub normalize_resolved_host-IsReportable :
    ⦃ip : Netip⦄ (host : Text) → IsReportable (normalize_resolved_host host)
unfolding normalize_resolved_host
normalize_resolved_host-IsReportable host = canonical_host-IsReportable (strip_host host)
