-- ===== src/Service/Summary/Ranks.antt =====
-- The ranks of the records in a summary of internal/watcher/watcher.go, and the names that let them in,
-- stated beside the code's tests.
use dialtone_watcher.Prelude.{
  ℕ, ◌≡◌, ◌⊎◌, ◌<◌, ◌≤◌, false, true, Bool, not, ◌&&◌, ◌||◌, Text, is_empty, arith, eq_iff, list_eq,
  nat_eq,
}
use dialtone_watcher.Words.{add64}
use dialtone_watcher.Float.{Float64}
use dialtone_watcher.Netip.{Netip}
use dialtone_watcher.Strings.{text_ltb}
use dialtone_watcher.Hosts.{is_public_ip, normalize_resolved_host}
use dialtone_watcher.Records.{ProcessRecord, DomainRecord, ConnectionRecord}
use dialtone_watcher.Service.Summary.{process_before, domain_before, connection_before, is_named}
use dialtone_watcher.Service.Summary.Laws.{HasNumbers, Any}
use dialtone_watcher.Strings.Order.{text_eq_of_ties}

-- `a` may stand before `b`: it uses more of the CPU, or as much and more memory, or as much of both and
-- was not seen in fewer polls.
abbrev pub ProcessAhead : {F : Type 0} ⦃fl : Float64 F⦄ → ProcessRecord F → ProcessRecord F → Type 0
ProcessAhead ⦃fl⦄ a b =
    (fl.flt b.cpu_percent a.cpu_percent ≡ true)
    ⊎ ((fl.feq a.cpu_percent b.cpu_percent ≡ true)
        × ((fl.flt b.memory_rss_mb a.memory_rss_mb ≡ true)
            ⊎ ((fl.feq a.memory_rss_mb b.memory_rss_mb ≡ true) × (b.polls_seen ≤ a.polls_seen))))

abbrev pub domain_total : DomainRecord → ℕ
domain_total r = add64 r.rx_bytes r.tx_bytes

-- It has more traffic; or as much and more bytes received; or as many and more sent; or as many and was
-- not seen in fewer polls.
abbrev pub DomainAhead : DomainRecord → DomainRecord → Type 0
DomainAhead a b =
    (domain_total b < domain_total a)
    ⊎ ((domain_total a ≡ domain_total b)
        × ((b.rx_bytes < a.rx_bytes)
            ⊎ ((a.rx_bytes ≡ b.rx_bytes)
                × ((b.tx_bytes < a.tx_bytes)
                    ⊎ ((a.tx_bytes ≡ b.tx_bytes) × (b.polls_seen ≤ a.polls_seen))))))

abbrev pub connection_total : ConnectionRecord → ℕ
connection_total r = add64 r.rx_bytes r.tx_bytes

-- It has more traffic; or as much and was seen in more polls; or in as many and its process has the smaller
-- name; or the same one and its domain is not greater.
abbrev pub ConnectionAhead : ConnectionRecord → ConnectionRecord → Type 0
ConnectionAhead a b =
    (connection_total b < connection_total a)
    ⊎ ((connection_total a ≡ connection_total b)
        × ((b.polls_seen < a.polls_seen)
            ⊎ ((a.polls_seen ≡ b.polls_seen)
                × ((text_ltb a.process_name b.process_name ≡ true)
                    ⊎ ((a.process_name ≡ b.process_name) × (text_ltb b.domain a.domain ≡ false))))))

module _ {F : Type 0} ⦃fl : Float64 F⦄ where
  pub process_before-Ahead :
      (a b : ProcessRecord F)
      → HasNumbers a
      → HasNumbers b
      → process_before b a ≡ false
      → ProcessAhead a b
  process_before-Ahead a b (p, q) (r, t) h = ground (
    arith,
    h,
    fl.feq_iff a.cpu_percent b.cpu_percent p r,
    fl.feq_iff b.cpu_percent a.cpu_percent r p,
    fl.feq_iff a.memory_rss_mb b.memory_rss_mb q t,
    fl.feq_iff b.memory_rss_mb a.memory_rss_mb t q,
  )

pub domain_before-Ahead :
    (a b : DomainRecord) → Any a → Any b → domain_before b a ≡ false → DomainAhead a b
domain_before-Ahead a b _ _ h = ground (arith, h)

pub connection_before-Ahead :
    (a b : ConnectionRecord) → Any a → Any b → connection_before b a ≡ false → ConnectionAhead a b
connection_before-Ahead a b _ _ h =
    ground (
      arith,
      h,
      eq_iff b.process_name a.process_name,
      text_eq_of_ties a.process_name b.process_name,
    )

module _ ⦃ip : Netip⦄ where
  -- A text that may stand for a host, and is no public address.
  abbrev pub is_host_name : Text → Bool
  is_host_name host = not (is_public_ip host) && not (is_empty (normalize_resolved_host host))

  pub is_named_lem :
      (display_name domain : Text)
      → is_named display_name domain ≡ (is_host_name display_name || is_host_name domain)
  is_named_lem display_name domain = ground arith
