-- ===== src/Darwin/Remotes.antt =====
-- `normalizeRemoteHost` of internal/watcher/network_darwin.go.
use dialtone_watcher.Prelude.{
  true, false, none, [], ◌≡◌, ◌≢◌, ◌⊎◌, inl, inr, Text, codes, arith, Option-cases, Bool-cases,
  ◌||◌, ◌==◌, nat_eq, list_eq, is_empty, refl,
}
use dialtone_watcher.Netip.{Netip}
use dialtone_watcher.Hosts.{is_public_ip}
use dialtone_watcher.Darwin.{
  strip_port, remote_name, trim_space, remote_host, normalize_remote_host, is_dotted,
}

-- No host, a public address, or a name that is neither an address nor four numbers nor this machine's.
abbrev pub IsRemote : ⦃ip : Netip⦄ → Text → Type 0
IsRemote ⦃ip⦄ host =
    (host ≡ [])
    ⊎ (is_public_ip host ≡ true)
    ⊎ ((ip.parse_addr host ≡ none)
        × (is_dotted host ≡ false)
        × (host ≢ codes "localhost")
        × (host ≢ codes "*"))

remote_host-IsRemote : ⦃ip : Netip⦄ (host : Text) → IsRemote (remote_host host)
unfolding remote_host
remote_host-IsRemote ⦃ip⦄ host =
    let skipped = is_empty host || (host == codes "*" || host == codes "localhost") in
    elim (Bool-cases skipped) [
      | inl e ↦ rw (remote_host, e) (inl refl)
      | inr e ↦ elim (Option-cases (ip.parse_addr host)) [
        | inr (addr, p) ↦ elim (Bool-cases (is_public_ip (ip.to_text addr))) [
          | inl q ↦ rw (remote_host, e, p, q) (inr (inl q))
          | inr q ↦ rw (remote_host, e, p, q) (inl refl)
        ]
        | inl p ↦ elim (Bool-cases (is_public_ip host)) [
          | inl q ↦ rw (remote_host, e, p, q) (inr (inl q))
          | inr q ↦ elim (Bool-cases (is_dotted host)) [
            | inl d ↦ rw (remote_host, e, p, q, d) (inl refl)
            | inr d ↦
                rw (remote_host, e, p, q, d)
                  (inr (inr (p, d, (λ s. ground (arith, e, s)), (λ s. ground (arith, e, s)))))
          ]
        ]
      ]
    ]

-- Whatever endpoint it is given, the function returns no text, a public address, or a name that is no
-- IP address, no four numbers with dots, and none of `localhost` and `*`.
pub normalize_remote_host-IsRemote :
    ⦃ip : Netip⦄ (endpoint : Text) → IsRemote (normalize_remote_host endpoint)
unfolding normalize_remote_host
normalize_remote_host-IsRemote endpoint =
    let host = trim_space endpoint in
    elim (Bool-cases (is_empty host || (host == codes "*:*" || host == codes "*.*"))) [
      | inl e ↦ rw (normalize_remote_host, e) (inl refl)
      | inr e ↦ rw (normalize_remote_host, e) (remote_host-IsRemote (remote_name (strip_port host)))
    ]
