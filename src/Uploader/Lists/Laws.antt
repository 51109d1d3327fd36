-- ===== src/Uploader/Lists/Laws.antt =====
-- The lists of an upload of internal/watcher/upload.go against the records of its window.
use mathlib.Core.List.{Perm}
use dialtone_watcher.Prelude.{
  ℕ, ◌≤◌, ◌<◌, ◌⊎◌, ◌||◌, is_empty, Bool, false, not, List, [], ◌∷◌, ◌≡◌, Text, keep, All, arith,
}
use dialtone_watcher.Words.{add64}
use dialtone_watcher.Netip.{Netip}
use dialtone_watcher.Dict.{Dict, values}
use dialtone_watcher.Sort.Ranked.{IsRanked, sort_slice-IsRanked, keep_congr}
use dialtone_watcher.Hosts.{is_public_ip, normalize_resolved_host}
use dialtone_watcher.Sort.Laws.{IsOrder, sort_slice-perm}
use dialtone_watcher.Sort.Keys.{by_key-IsOrder, key-IsOrder, descending-IsKey}
use dialtone_watcher.Uploader.{DomainUploadRecord, ConnectionUploadRecord}
use dialtone_watcher.Uploader.Lists.{
  is_unresolved, domain_before, all_upload_domains, connection_before, all_upload_connections,
}

abbrev Any {ℓ} : {A : Type ℓ} → A → Type 0
Any a = Unit

All-Any {ℓ} : {A : Type ℓ} (xs : List A) → All Any xs
All-Any [] = tt
All-Any (x ∷ xs) = (tt, All-Any xs)

domain_before-IsOrder : IsOrder Any domain_before
domain_before-IsOrder =
    by_key-IsOrder Any _ _ (descending-IsKey Any (λ r. add64 r.rx_bytes r.tx_bytes)) _
      (key-IsOrder Any _ _ (descending-IsKey Any (λ r. r.polls_seen)))

connection_before-IsOrder : IsOrder Any connection_before
connection_before-IsOrder =
    by_key-IsOrder Any _ _ (descending-IsKey Any (λ r. add64 r.rx_bytes r.tx_bytes)) _
      (key-IsOrder Any _ _ (descending-IsKey Any (λ r. r.polls_seen)))

abbrev pub domain_total : DomainUploadRecord → ℕ
domain_total r = add64 r.rx_bytes r.tx_bytes

abbrev pub connection_total : ConnectionUploadRecord → ℕ
connection_total r = add64 r.rx_bytes r.tx_bytes

-- `a` may stand before `b`: it has more traffic, or as much and was not seen in fewer polls.
abbrev pub DomainAhead : DomainUploadRecord → DomainUploadRecord → Type 0
DomainAhead a b =
    (domain_total b < domain_total a)
    ⊎ ((domain_total a ≡ domain_total b) × (b.polls_seen ≤ a.polls_seen))

abbrev pub ConnectionAhead : ConnectionUploadRecord → ConnectionUploadRecord → Type 0
ConnectionAhead a b =
    (connection_total b < connection_total a)
    ⊎ ((connection_total a ≡ connection_total b) × (b.polls_seen ≤ a.polls_seen))

domain_before-Ahead :
    (a b : DomainUploadRecord) → Any a → Any b → domain_before b a ≡ false → DomainAhead a b
domain_before-Ahead a b _ _ h = ground (arith, h)

connection_before-Ahead :
    (a b : ConnectionUploadRecord)
    → Any a
    → Any b
    → connection_before b a ≡ false
    → ConnectionAhead a b
connection_before-Ahead a b _ _ h = ground (arith, h)

module _ ⦃ip : Netip⦄ where
  -- What an upload may name: a domain that is no public address, or one with a name to show.
  abbrev pub is_carried : Text → Text → Bool
  is_carried display_name domain =
      not (is_public_ip domain) || not (is_empty (normalize_resolved_host display_name))

  is_carried_lem :
      (display_name domain : Text)
      → not (is_unresolved display_name domain) ≡ is_carried display_name domain
  is_carried_lem display_name domain = ground arith

  -- The domains of an upload are exactly the recorded ones that it may name, each as often as recorded,
  -- by descending traffic, then polls seen.
  pub all_upload_domains_lem :
      (records : Dict Text DomainUploadRecord)
      → Perm
          (all_upload_domains records)
          (keep (λ r. is_carried r.display_name r.domain) (values records))
        × IsRanked DomainAhead (all_upload_domains records)
  unfolding all_upload_domains
  all_upload_domains_lem records =
      let kept =
        keep (λ (r : DomainUploadRecord). not (is_unresolved r.display_name r.domain))
          (values records) in
      (
        rw
            (← keep_congr _ _ (values records)
              (λ (r : DomainUploadRecord). is_carried_lem r.display_name r.domain))
            (sort_slice-perm domain_before kept),
        sort_slice-IsRanked Any domain_before DomainAhead domain_before-Ahead domain_before-IsOrder
            kept (All-Any kept),
      )

  -- The connections of an upload are exactly the recorded ones that it may name, each as often as
  -- recorded, by descending traffic, then polls seen.
  pub all_upload_connections_lem :
      (records : Dict Text ConnectionUploadRecord)
      → Perm
          (all_upload_connections records)
          (keep (λ r. is_carried r.display_name r.domain) (values records))
        × IsRanked ConnectionAhead (all_upload_connections records)
  unfolding all_upload_connections
  all_upload_connections_lem records =
      let kept =
        keep (λ (r : ConnectionUploadRecord). not (is_unresolved r.display_name r.domain))
          (values records) in
      (
        rw
            (← keep_congr _ _ (values records)
              (λ (r : ConnectionUploadRecord). is_carried_lem r.display_name r.domain))
            (sort_slice-perm connection_before kept),
        sort_slice-IsRanked Any connection_before ConnectionAhead connection_before-Ahead
            connection_before-IsOrder kept (All-Any kept),
      )
