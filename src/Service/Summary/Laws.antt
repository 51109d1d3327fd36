-- ===== src/Service/Summary/Laws.antt =====
-- The tests that order the top lists of internal/watcher/watcher.go.
use dialtone_watcher.Strings.{text_ltb}
use dialtone_watcher.Strings.Order.{
  text_ltb_asymm, text_ltb_trans, text_eq_of_ties, text_ltb_irrefl,
}
use dialtone_watcher.Prelude.{
  false, List, [], ◌∷◌, ◌≡◌, Text, All, arith, eq_iff, list_eq, nat_eq, ◌==◌,
}
use dialtone_watcher.Words.{add64}
use dialtone_watcher.Float.{Float64}
use dialtone_watcher.Sort.Laws.{IsOrder}
use dialtone_watcher.Sort.Keys.{IsKey, key-IsOrder, by_key-IsOrder, descending-IsKey}
use dialtone_watcher.Records.{ProcessRecord}
use dialtone_watcher.Service.Summary.{process_before, domain_before, connection_before}

-- The two readings of a process that it is ranked by are no NaN.
abbrev pub HasNumbers : {F : Type 0} ⦃fl : Float64 F⦄ → ProcessRecord F → Type 0
HasNumbers ⦃fl⦄ r = (fl.is_nan r.cpu_percent ≡ false) × (fl.is_nan r.memory_rss_mb ≡ false)

abbrev pub Any {ℓ} : {A : Type ℓ} → A → Type 0
Any a = Unit

pub All-Any {ℓ} : {A : Type ℓ} (xs : List A) → All Any xs
All-Any [] = tt
All-Any (x ∷ xs) = (tt, All-Any xs)

module _ {A : Type 0} (P : A → Type 0) (f : A → Text) where
  ascending-IsKey : IsKey P (λ a b. f a == f b) (λ a b. text_ltb (f a) (f b))
  ascending-IsKey = record {
    asymm = λ a b _ _ h. text_ltb_asymm (f a) (f b) h;
    trans = λ a b c _ _ _ h g. text_ltb_trans (f a) (f b) (f c) h g;
    tie_iff = λ a b _ _.
        ground (arith, eq_iff (f a) (f b), text_eq_of_ties (f a) (f b), text_ltb_irrefl (f a));
  }

module _ {F : Type 0} ⦃fl : Float64 F⦄ where
  float-IsKey :
      (f : ProcessRecord F → F)
      → ((r : ProcessRecord F) → HasNumbers r → fl.is_nan (f r) ≡ false)
      → IsKey (HasNumbers {F = F}) (λ a b. fl.feq (f a) (f b)) (λ a b. fl.flt (f b) (f a))
  float-IsKey f number = record {
    asymm = λ a b p q h. fl.flt_asymm (f b) (f a) (number b q) (number a p) h;
    trans = λ a b c p q r h g.
        fl.flt_trans (f a) (f b) (f c) (number a p) (number b q) (number c r) h g;
    tie_iff = λ a b p q. ground (arith, fl.feq_iff (f a) (f b) (number a p) (number b q));
  }

  pub process_before-IsOrder : IsOrder (HasNumbers {F = F}) process_before
  process_before-IsOrder =
      by_key-IsOrder HasNumbers _ _ (float-IsKey (λ r. r.cpu_percent) (λ r h. h.0)) _ (
        by_key-IsOrder HasNumbers _ _ (float-IsKey (λ r. r.memory_rss_mb) (λ r h. h.1)) _
          (key-IsOrder HasNumbers _ _ (descending-IsKey HasNumbers (λ r. r.polls_seen))))

pub domain_before-IsOrder : IsOrder Any domain_before
domain_before-IsOrder =
    by_key-IsOrder Any _ _ (descending-IsKey Any (λ r. add64 r.rx_bytes r.tx_bytes)) _ (
      by_key-IsOrder Any _ _ (descending-IsKey Any (λ r. r.rx_bytes)) _ (
        by_key-IsOrder Any _ _ (descending-IsKey Any (λ r. r.tx_bytes)) _
          (key-IsOrder Any _ _ (descending-IsKey Any (λ r. r.polls_seen)))))

pub connection_before-IsOrder : IsOrder Any connection_before
connection_before-IsOrder =
    by_key-IsOrder Any _ _ (descending-IsKey Any (λ r. add64 r.rx_bytes r.tx_bytes)) _ (
      by_key-IsOrder Any _ _ (descending-IsKey Any (λ r. r.polls_seen)) _ (
        by_key-IsOrder Any _ _ (ascending-IsKey Any (λ r. r.process_name)) _
          (key-IsOrder Any _ _ (ascending-IsKey Any (λ r. r.domain)))))
