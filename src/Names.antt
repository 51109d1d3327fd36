-- ===== src/Names.antt =====
-- The chain of lookups for the name of an address: `lookupAddrName` of internal/watcher/resolver.go and
-- what it calls. What the resolver and the commands answer, the matches of the regular expressions
-- and the host of a URL come from outside.
pub mod Whois
pub mod Hostnames
pub mod Laws
use dialtone_watcher.Prelude.{
  ℕ, Bool, true, false, not, Option, none, some, ◌>>=◌, List, [], ◌∷◌, ◌++◌, map, gather, Text,
  codes, is_empty, drop, if◌then◌else◌, ◌==◌, nat_eq, list_eq, length,
}
use dialtone_watcher.Strings.{trim_space, trim_prefix, to_lower, has_prefix}
use dialtone_watcher.Strings.Parts.{split, split_text, cut_at, before_or_all}
use dialtone_watcher.Netip.{Netip}
use dialtone_watcher.Hosts.{normalize_resolved_host}
use dialtone_watcher.Hosts.Domains.{parse_ptr_output}
use dialtone_watcher.Names.Whois.{best_whois_candidate}
use dialtone_watcher.Names.Hostnames.{best_hostname_candidate}

-- What is asked: `none` is an error, a command that is missing, or one that runs out of time.
pub record Resolvers : Type 0 where
  pub lookup_addr : Text → Option (List Text)
  pub host_output : Text → Option Text
  pub dig_output : Text → Option Text
  pub whois_output : Text → Option Text
  pub san_output : Text → Option Text
  pub headers : Text → Option Text
  pub has_curl : Bool
  pub emails : Text → List Text
  pub urls : Text → List Text
  pub hostnames : Text → List Text
  -- the host of a URL
  pub parse_url : Text → Option Text

-- `if name != "" { return name }`
abbrev pub or_next : Text → Text → Text
or_next name rest = if is_empty name then rest else name

-- the result of a command, read
abbrev pub read_by : (Text → Text) → Option Text → Text
read_by parse none = []
read_by parse (some output) = parse output

module _ ⦃ip : Netip⦄ where
  unfoldable pub first_host : List Text → Text
  first_host [] = []
  first_host (name ∷ names) = or_next (normalize_resolved_host name) (first_host names)

  unfoldable pub lookup_ptr_name : Option (List Text) → Text
  unfolding first_host
  lookup_ptr_name none = []
  lookup_ptr_name (some names) = first_host names

  -- the loop over the URLs
  unfoldable pub whois_urls : (Text → Option Text) → List Text → Text
  unfolding best_whois_candidate
  whois_urls parse_url [] = []
  whois_urls parse_url (url ∷ more) =
      let rest = whois_urls parse_url more in
      elim (parse_url url) [
        | none ↦ rest
        | some hostname ↦ or_next (best_whois_candidate (hostname ∷ [])) rest
      ]

  unfoldable pub parse_whois_domain : Resolvers → Text → Text
  unfolding best_whois_candidate whois_urls trim_prefix
  parse_whois_domain r raw =
      or_next (best_whois_candidate (map (λ e. trim_prefix e (codes "@")) (r.emails raw)))
        (or_next (whois_urls r.parse_url (r.urls raw)) (best_whois_candidate (r.hostnames raw)))

  -- the body of the loop over the parts
  unfoldable pub san_host : Text → Text
  unfolding cut_at trim_space trim_prefix
  san_host part =
      let host = trim_space (before_or_all (cut_at (λ c. c == b',') part) part) in
      normalize_resolved_host (trim_prefix host (codes "*."))

  unfoldable pub san_hosts : List Text → List Text
  unfolding san_host
  san_hosts [] = []
  san_hosts (part ∷ parts) =
      let rest = san_hosts parts in
      let host = san_host part in if is_empty host then rest else host ∷ rest

  -- `none` is the panic of an index out of range
  unfoldable pub parse_tls_san : Text → Option Text
  unfolding san_hosts split_text best_hostname_candidate
  parse_tls_san raw = best_hostname_candidate (san_hosts (drop 1 (split_text (codes "DNS:") raw)))

  -- the loop over the lines
  unfoldable pub header_lines : (Text → Option Text) → List Text → Text
  unfolding trim_space to_lower has_prefix
  header_lines parse_url [] = []
  header_lines parse_url (raw ∷ lines) =
      let rest = header_lines parse_url lines in
      let line = trim_space raw in
      if not (has_prefix (to_lower line) (codes "location:"))
      then rest
      else elim (parse_url (trim_space (drop 9 line))) [
        | none ↦ rest
        | some hostname ↦ or_next (normalize_resolved_host hostname) rest
      ]

  unfoldable pub parse_http_headers_for_host : (Text → Option Text) → Text → Text
  unfolding header_lines split
  parse_http_headers_for_host parse_url raw = header_lines parse_url (split b'\n' raw)

  unfoldable pub lookup_http_header_name : Resolvers → Text → Text
  unfolding parse_http_headers_for_host
  lookup_http_header_name r address =
      let ask : Text → Text =
        λ target. read_by (parse_http_headers_for_host r.parse_url) (r.headers target) in
      if not r.has_curl
      then []
      else or_next (ask (codes "http://" ++ address)) (ask (codes "https://" ++ address))

  abbrev pub lookup_tls_cert_name : Option Text → Option Text
  lookup_tls_cert_name none = some []
  lookup_tls_cert_name (some output) = parse_tls_san output

  -- the answers in front of the certificate's
  unfoldable pub early_name : Resolvers → Text → Text
  unfolding lookup_ptr_name parse_ptr_output parse_whois_domain
  early_name r address = or_next (lookup_ptr_name (r.lookup_addr address)) (
      or_next (read_by parse_ptr_output (r.host_output address)) (
        or_next (read_by parse_ptr_output (r.dig_output address))
          (read_by (parse_whois_domain r) (r.whois_output address))))

  unfoldable pub lookup_addr_name : Resolvers → Text → Option Text
  unfolding early_name parse_tls_san lookup_http_header_name
  lookup_addr_name r address =
      if not (is_empty (early_name r address)) then some (early_name r address) else do
        name ← lookup_tls_cert_name (r.san_output address)
        some (or_next name (lookup_http_header_name r address))
