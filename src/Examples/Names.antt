-- ===== src/Examples/Names.antt =====
-- The theorems about the names of addresses.
use dialtone_watcher.Dict.{Dict, lookup, insert}
use dialtone_watcher.Hosts.Domains.{registrable_domain}
use dialtone_watcher.Hosts.{normalize_resolved_host}
use dialtone_watcher.Prelude.{
  eq_iff, ℕ, arith, ◌≡◌, refl, true, none, some, List, [], ◌∷◌, codes, Text,
}
use dialtone_watcher.Hosts.{normalize_resolved_host}
use dialtone_watcher.Hosts.Domains.{registrable_domain}
use dialtone_watcher.Dict.{insert, lookup}
use dialtone_watcher.Names.{Resolvers, lookup_addr_name}
use dialtone_watcher.Names.Laws.{IsName, lookup_addr_name_lem}
use dialtone_watcher.Names.Whois.{count_hosts, is_candidate, best_of, best_whois_candidate}
use dialtone_watcher.Prelude.{list_eq, nat_eq}
use dialtone_watcher.Names.Whois.Best.{IsBest, best_whois_candidate-IsBest}
use dialtone_watcher.Examples.Parameters.{sites}

-- Only the certificate names the address.
abbrev resolvers : Resolvers
resolvers = record {
  lookup_addr = λ _. none;
  host_output = λ _. none;
  dig_output = λ _. none;
  whois_output = λ _. none;
  san_output = λ _. some (codes "X509v3: DNS:*.dns.google, DNS:dns.google");
  headers = λ _. none;
  has_curl = true;
  emails = λ _. [];
  urls = λ _. [];
  hostnames = λ _. [];
  parse_url = λ _. none;
}

lookup_addr_name_lem_example :
    (name : Text) × (lookup_addr_name resolvers (codes "8.8.8.8") ≡ some name)
    × IsName resolvers (codes "8.8.8.8") name
lookup_addr_name_lem_example = lookup_addr_name_lem resolvers (codes "8.8.8.8")

named : lookup_addr_name resolvers (codes "8.8.8.8") ≡ some (codes "dns.google")
unfolding lookup_addr_name normalize_resolved_host
named = refl

abbrev hosts : List Text
hosts = codes "abuse.iana.org" ∷ codes "b.net" ∷ codes "www.a.net" ∷ codes "x.b.net" ∷ []

-- the counts in another order than that of the hosts
abbrev counts : Dict Text ℕ
counts = (codes "a.net", 1) ∷ (codes "b.net", 2) ∷ []

same_counts : (key : Text) → lookup key counts ≡ lookup key (count_hosts hosts [])
unfolding lookup count_hosts registrable_domain normalize_resolved_host insert is_candidate
same_counts key = ground (arith, eq_iff key (codes "a.net"), eq_iff key (codes "b.net"))

best_whois_candidate-IsBest_example :
    ((best_of counts ([], 0)).0 ≡ best_whois_candidate hosts)
    × IsBest hosts (codes "a.net") (best_whois_candidate hosts)
unfolding lookup
best_whois_candidate-IsBest_example =
    best_whois_candidate-IsBest hosts counts (codes "a.net") (refl, (refl, tt)) same_counts

counted : best_whois_candidate hosts ≡ codes "b.net"
unfolding best_whois_candidate registrable_domain normalize_resolved_host insert lookup
counted = refl
