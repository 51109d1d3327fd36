-- ===== src/Names/Laws.antt =====
-- What `lookupAddrName` of internal/watcher/resolver.go can return.
use dialtone_watcher.Prelude.{
  sym, ◌∙◌, ◌||◌, ◌≢◌, ◌≡◌, ◌⊎◌, inl, inr, refl, false, not, Option, none, some, List, [], ◌∷◌,
  ◌++◌, Text, codes, is_empty, All, Bool-cases, Option-cases, arith, length, drop,
}
use dialtone_watcher.Strings.Parts.{split, split_text}
use dialtone_watcher.Netip.{Netip}
use dialtone_watcher.Sort.{sort_slice}
use dialtone_watcher.Sort.Laws.{sort_slice-All, length-sort_slice}
use dialtone_watcher.Hosts.{normalize_resolved_host}
use dialtone_watcher.Hosts.Domains.{parse_ptr_output}
use dialtone_watcher.Hosts.Domains.Laws.{parse_ptr_output-IsReportable}
use dialtone_watcher.Hosts.Private.{IsReportable, normalize_resolved_host-IsReportable}
use dialtone_watcher.Names.Hostnames.{
  filter_hosts, is_seen, hostname_before, first_of, best_hostname_candidate,
}
use dialtone_watcher.Names.{
  to_lower, has_prefix, trim_space, Resolvers, or_next, read_by, first_host, lookup_ptr_name,
  parse_whois_domain, san_host, san_hosts, parse_tls_san, header_lines, parse_http_headers_for_host,
  lookup_http_header_name, lookup_tls_cert_name, early_name, lookup_addr_name,
}

module _ (P : Text → Type 0) where
  or_next_lem : (a b : Text) → P a → P b → P (or_next a b)
  or_next_lem [] b p q = q
  or_next_lem (c ∷ a) b p q = p

  read_by_lem :
      (parse : Text → Text) (output : Option Text)
      → P []
      → ((raw : Text) → P (parse raw))
      → P (read_by parse output)
  read_by_lem parse none p q = p
  read_by_lem parse (some raw) p q = q raw

  filter_hosts-All : (seen hosts : List Text) → All P hosts → All P (filter_hosts seen hosts)
  unfolding filter_hosts
  filter_hosts-All seen [] h = tt
  filter_hosts-All seen (host ∷ hosts) (hd, tl) =
      elim (Bool-cases (is_empty host || is_seen host seen)) [
        | inl e ↦ rw (filter_hosts, e) (filter_hosts-All seen hosts tl)
        | inr e ↦ rw (filter_hosts, e) (hd, filter_hosts-All (host ∷ seen) hosts tl)
      ]

  first_of_lem :
      (xs : List Text)
      → length xs ≢ 0
      → All P xs
      → (name : Text) × (first_of xs ≡ some name) × P name
  first_of_lem [] h a = absurd (h refl)
  first_of_lem (x ∷ xs) h (a, _) = (x, refl, a)

filter_hosts_first :
    (host : Text) (hosts : List Text)
    → is_empty host ≡ false
    → length (filter_hosts [] (host ∷ hosts)) ≢ 0
unfolding filter_hosts
filter_hosts_first host hosts e = rw (filter_hosts, e) (λ h. ground (arith, h))

module _ ⦃ip : Netip⦄ where
  -- Candidates that are not empty have a best one.
  best_hostname_candidate_lem :
      (P : Text → Type 0) (hosts : List Text)
      → P []
      → All (λ host. (is_empty host ≡ false) × P host) hosts
      → (name : Text) × (best_hostname_candidate hosts ≡ some name) × P name
  unfolding best_hostname_candidate
  best_hostname_candidate_lem P [] p h = ([], refl, p)
  best_hostname_candidate_lem P (host ∷ hosts) p (hd, tl) =
      let kept = filter_hosts [] (host ∷ hosts) in
      let Q : Text → Type 0 = λ h. (is_empty h ≡ false) × P h in
      let (name, e, (_, q)) =
        first_of_lem Q (sort_slice hostname_before kept)
          (λ z.
            filter_hosts_first host hosts (hd.0) (sym (length-sort_slice hostname_before kept) ∙ z))
          (sort_slice-All hostname_before Q kept (filter_hosts-All Q [] (host ∷ hosts) (hd, tl))) in
      (name, e, q)

  IsReportable-nil : IsReportable []
  IsReportable-nil = inl ip.parse_addr-nil

  first_host-IsReportable : (names : List Text) → IsReportable (first_host names)
  unfolding first_host
  first_host-IsReportable [] = IsReportable-nil
  first_host-IsReportable (name ∷ names) =
      or_next_lem IsReportable (normalize_resolved_host name) (first_host names)
        (normalize_resolved_host-IsReportable name) (first_host-IsReportable names)

  lookup_ptr_name-IsReportable : (names : Option (List Text)) → IsReportable (lookup_ptr_name names)
  unfolding lookup_ptr_name
  lookup_ptr_name-IsReportable none = IsReportable-nil
  lookup_ptr_name-IsReportable (some names) = first_host-IsReportable names

  san_hosts-All :
      (parts : List Text)
      → All (λ host. (is_empty host ≡ false) × IsReportable host) (san_hosts parts)
  unfolding san_hosts san_host
  san_hosts-All [] = tt
  san_hosts-All (part ∷ parts) = elim (Bool-cases (is_empty (san_host part))) [
    | inl e ↦ rw (san_hosts, e) (san_hosts-All parts)
    | inr e ↦ rw (san_hosts, e) ((e, normalize_resolved_host-IsReportable _), san_hosts-All parts)
  ]

  parse_tls_san_lem :
      (raw : Text) → (name : Text) × (parse_tls_san raw ≡ some name) × IsReportable name
  unfolding parse_tls_san
  parse_tls_san_lem raw =
      best_hostname_candidate_lem IsReportable _ IsReportable-nil
        (san_hosts-All (drop 1 (split_text (codes "DNS:") raw)))

  header_lines-IsReportable :
      (parse_url : Text → Option Text) (lines : List Text)
      → IsReportable (header_lines parse_url lines)
  unfolding header_lines
  header_lines-IsReportable parse_url [] = IsReportable-nil
  header_lines-IsReportable parse_url (raw ∷ lines) =
      let line = trim_space raw in
      let rest = header_lines-IsReportable parse_url lines in
      elim (Bool-cases (not (has_prefix (to_lower line) (codes "location:")))) [
        | inl e ↦ rw (header_lines, e) rest
        | inr e ↦ elim (Option-cases (parse_url (trim_space (drop 9 line)))) [
          | inl f ↦ rw (header_lines, e, f) rest
          | inr (hostname, f) ↦
              rw (header_lines, e, f)
                (or_next_lem IsReportable (normalize_resolved_host hostname)
                  (header_lines parse_url lines) (normalize_resolved_host-IsReportable hostname)
                  rest)
        ]
      ]

  headers-IsReportable :
      (parse_url : Text → Option Text) (raw : Text)
      → IsReportable (parse_http_headers_for_host parse_url raw)
  unfolding parse_http_headers_for_host
  headers-IsReportable parse_url raw = header_lines-IsReportable parse_url (split b'\n' raw)

  lookup_http_header_name-IsReportable :
      (r : Resolvers) (address : Text) → IsReportable (lookup_http_header_name r address)
  unfolding lookup_http_header_name
  lookup_http_header_name-IsReportable r address =
      let ask : (target : Text)
          → IsReportable (read_by (parse_http_headers_for_host r.parse_url) (r.headers target)) =
        λ target.
          read_by_lem IsReportable (parse_http_headers_for_host r.parse_url) (r.headers target)
            IsReportable-nil (headers-IsReportable r.parse_url) in
      elim (Bool-cases (not r.has_curl)) [
        | inl e ↦ rw (lookup_http_header_name, e) IsReportable-nil
        | inr e ↦
            rw (lookup_http_header_name, e)
              (or_next_lem IsReportable _ _ (ask (codes "http://" ++ address))
                (ask (codes "https://" ++ address)))
      ]

  -- a name that may be reported, or the domain read from the answer of `whois`
  abbrev pub IsName : Resolvers → Text → Text → Type 0
  IsName r address name =
      IsReportable name
      ⊎ ((raw : Text) × (r.whois_output address ≡ some raw) × (name ≡ parse_whois_domain r raw))

  whois-IsName :
      (r : Resolvers) (address : Text) (output : Option Text)
      → r.whois_output address ≡ output
      → IsName r address (read_by (parse_whois_domain r) output)
  whois-IsName r address none e = inl IsReportable-nil
  whois-IsName r address (some raw) e = inr (raw, e, refl)

  early_name-IsName : (r : Resolvers) (address : Text) → IsName r address (early_name r address)
  unfolding early_name
  early_name-IsName r address =
      let read : (output : Option Text) → IsReportable (read_by parse_ptr_output output) = λ output.
        read_by_lem IsReportable parse_ptr_output output IsReportable-nil
          parse_ptr_output-IsReportable in
      or_next_lem (IsName r address) _ _
        (inl (lookup_ptr_name-IsReportable (r.lookup_addr address)))
        (or_next_lem (IsName r address) _ _ (inl (read (r.host_output address))) (
          or_next_lem (IsName r address) _ _ (inl (read (r.dig_output address)))
            (whois-IsName r address (r.whois_output address) refl)))

  tls_lem :
      (output : Option Text)
      → (name : Text) × (lookup_tls_cert_name output ≡ some name) × IsReportable name
  tls_lem none = ([], refl, IsReportable-nil)
  tls_lem (some raw) = parse_tls_san_lem raw

  -- Whatever the resolver, the commands and the servers answer, the chain returns a name without an index
  -- out of range, and the name is no address of a private or special range, or is the domain that was read
  -- from the answer of `whois`.
  pub lookup_addr_name_lem :
      (r : Resolvers) (address : Text)
      → (name : Text) × (lookup_addr_name r address ≡ some name) × IsName r address name
  unfolding lookup_addr_name
  lookup_addr_name_lem r address = elim (Bool-cases (not (is_empty (early_name r address)))) [
    | inl e ↦ (early_name r address, rw (lookup_addr_name, e) refl, early_name-IsName r address)
    | inr e ↦
        let (name, f, reportable) = tls_lem (r.san_output address) in
        let later = lookup_http_header_name r address in
        (
          or_next name later,
          rw (lookup_addr_name, e, f) refl,
          inl (
              or_next_lem IsReportable name later reportable
                (lookup_http_header_name-IsReportable r address)),
        )
  ]
