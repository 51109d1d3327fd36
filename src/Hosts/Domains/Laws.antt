-- ===== src/Hosts/Domains/Laws.antt =====
-- The domains of internal/watcher/resolver.go against the labels of their hosts, and the names that
-- the commands `host` and `dig` print.
use dialtone_watcher.Prelude.{
  ℕ, zero, suc, ◌-◌, ◌≤◌, ◌≡◌, ◌⊎◌, inl, inr, refl, true, false, List, [], ◌∷◌, ◌++◌, Text,
  is_empty, nat_eq, list_eq, length, drop, take, take-append-drop, leb, arith, Bool-cases,
}
use dialtone_watcher.Strings.{trim_space}
use dialtone_watcher.Strings.Parts.{split, join}
use dialtone_watcher.Strings.Parts.Laws.{join-split}
use dialtone_watcher.Netip.{Netip}
use dialtone_watcher.Hosts.{normalize_resolved_host}
use dialtone_watcher.Hosts.Private.{IsReportable, normalize_resolved_host-IsReportable}
use dialtone_watcher.Hosts.Domains.{
  is_country_domain, last_labels, shorten, registrable_domain, ptr_target, parse_ptr_lines,
  parse_ptr_output,
}

module _ {ℓ} {A : Type ℓ} where
  length-drop : (n : ℕ) (xs : List A) → length (drop n xs) ≡ length xs - n
  length-drop zero xs = omega arith
  length-drop (suc n) [] = omega arith
  length-drop (suc n) (x ∷ xs) = omega (arith, length-drop n xs)

  drop-drop_one : (n : ℕ) (xs : List A) → drop 1 (drop n xs) ≡ drop (suc n) xs
  drop-drop_one zero xs = refl
  drop-drop_one (suc n) [] = refl
  drop-drop_one (suc n) (x ∷ xs) = drop-drop_one n xs

-- The last labels of a host: all of them if there are at most two; three if the last two are a
-- country's second-level domain; and two otherwise.
pub record IsRegistrable (host domain : Text) : Type 0 where
  pub front : List Text
  pub labels : List Text
  pub parts : split b'.' host ≡ front ++ labels
  pub joined : domain ≡ join b'.' labels
  pub count :
      ((front ≡ []) × (length labels ≤ 2))
      ⊎ ((length labels ≡ 3) × (is_country_domain (drop 1 labels) ≡ true))
      ⊎ ((length labels ≡ 2) × (is_country_domain labels ≡ false))

shorten-IsRegistrable : (host : Text) → IsRegistrable host (shorten host)
unfolding shorten
shorten-IsRegistrable host =
    let labels = split b'.' host in
    elim (Bool-cases (leb (length labels) 2)) [
      | inl short ↦ record {
        front = [];
        labels = labels;
        parts = refl;
        joined = rw (short, join-split b'.' host) refl;
        count = inl (refl, ground arith);
      }
      | inr long ↦
          let more : 3 ≤ length labels = ground arith in
          let next : suc (length labels - 3) ≡ length labels - 2 = omega arith in
          elim (Bool-cases (is_country_domain (last_labels 2 labels))) [
            | inl country ↦ record {
              front = take (length labels - 3) labels;
              labels = last_labels 3 labels;
              parts = rw (take-append-drop (length labels - 3) labels) refl;
              joined = rw (long, country) refl;
              count = inr (
                  inl (
                    omega (arith, length-drop (length labels - 3) labels),
                    rw (drop-drop_one (length labels - 3) labels, next) country,
                  ));
            }
            | inr other ↦ record {
              front = take (length labels - 2) labels;
              labels = last_labels 2 labels;
              parts = rw (take-append-drop (length labels - 2) labels) refl;
              joined = rw (long, other) refl;
              count = inr (inr (omega (arith, length-drop (length labels - 2) labels), other));
            }
          ]
    ]

module _ ⦃ip : Netip⦄ where
  -- The registrable domain of a host with a normal form consists of that form's last labels: of all of
  -- them if there are at most two, of three if the last two are a second-level domain of a country,
  -- such as co.uk, and of two otherwise. A host without a normal form has none.
  pub registrable_domain_lem :
      (host : Text)
      → ((is_empty (normalize_resolved_host host) ≡ true) × (registrable_domain host ≡ []))
        ⊎ ((is_empty (normalize_resolved_host host) ≡ false)
            × IsRegistrable (normalize_resolved_host host) (registrable_domain host))
  unfolding registrable_domain
  registrable_domain_lem host = elim (Bool-cases (is_empty (normalize_resolved_host host))) [
    | inl nothing ↦ rw nothing (inl (refl, refl))
    | inr normal ↦ rw normal (inr (refl, shorten-IsRegistrable (normalize_resolved_host host)))
  ]

  parse_ptr_lines-IsReportable : (lines : List Text) → IsReportable (parse_ptr_lines lines)
  unfolding parse_ptr_lines
  parse_ptr_lines-IsReportable [] = inl (ip.parse_addr-nil)
  parse_ptr_lines-IsReportable (line ∷ lines) =
      let host = normalize_resolved_host (ptr_target (trim_space line)) in
      elim (Bool-cases (is_empty (trim_space line))) [
        | inl blank ↦ rw blank (parse_ptr_lines-IsReportable lines)
        | inr written ↦ elim (Bool-cases (is_empty host)) [
          | inl nameless ↦ rw (written, nameless) (parse_ptr_lines-IsReportable lines)
          | inr named ↦
              rw (written, named)
                (normalize_resolved_host-IsReportable (ptr_target (trim_space line)))
        ]
      ]

  -- Whatever `host` or `dig` prints, the name read from it is empty, a text that is no IP address, or an
  -- address that is none of private, loopback, link-local, multicast and unspecified.
  pub parse_ptr_output-IsReportable : (raw : Text) → IsReportable (parse_ptr_output raw)
  unfolding parse_ptr_output
  parse_ptr_output-IsReportable raw = parse_ptr_lines-IsReportable (split b'\n' raw)
