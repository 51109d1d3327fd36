-- ===== src/Examples/Domains.antt =====
-- The theorems about domains and names of hosts.
use dialtone_watcher.Prelude.{◌≡◌, ◌⊎◌, refl, true, false, Text, [], codes, is_empty}
use dialtone_watcher.Hosts.{normalize_resolved_host}
use dialtone_watcher.Hosts.Private.{IsReportable}
use dialtone_watcher.Hosts.Domains.{registrable_domain, parse_ptr_output}
use dialtone_watcher.Hosts.Domains.Laws.{
  IsRegistrable, registrable_domain_lem, parse_ptr_output-IsReportable,
}
use dialtone_watcher.Examples.Parameters.{sites}

abbrev shop : Text
shop = codes "www.Shop.co.uk."

registrable_domain_lem_example :
    ((is_empty (normalize_resolved_host shop) ≡ true) × (registrable_domain shop ≡ []))
    ⊎ ((is_empty (normalize_resolved_host shop) ≡ false)
        × IsRegistrable (normalize_resolved_host shop) (registrable_domain shop))
registrable_domain_lem_example = registrable_domain_lem shop

-- the code at the same input and at three others
shortened :
    (registrable_domain shop ≡ codes "shop.co.uk")
    × (registrable_domain (codes "a.b.example.com") ≡ codes "example.com")
    × (registrable_domain (codes "localhost") ≡ codes "localhost")
    × (registrable_domain (codes "10.0.0.1") ≡ [])
unfolding registrable_domain normalize_resolved_host
shortened = (refl, refl, refl, refl)

abbrev printed : Text
printed = codes "\n8.8.8.8.in-addr.arpa domain name pointer dns.google.\n"

parse_ptr_output-IsReportable_example : IsReportable (parse_ptr_output printed)
parse_ptr_output-IsReportable_example = parse_ptr_output-IsReportable printed

read : parse_ptr_output printed ≡ codes "dns.google"
unfolding parse_ptr_output normalize_resolved_host
read = refl
