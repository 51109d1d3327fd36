-- ===== src/Linux/Sockets/PlainHosts.antt =====
-- Hosts as `ss` prints them, and the loop that reads them in internal/watcher/network_linux.go.
use dialtone_watcher.Prelude.{
  ℕ, ◌≡◌, ◌≢◌, false, [], ◌∷◌, Text, codes, is_empty, ◌==◌, nat_eq, list_eq, All, arith,
}
use dialtone_watcher.Strings.{is_space, contains_byte}
use dialtone_watcher.Strings.Trim.{Stays}

-- A byte of a host or of a zone's name.
abbrev pub IsHostByte : ℕ → Type 0
IsHostByte c = (is_space c ≡ false) × (c ≢ b'[') × (c ≢ b']') × (c ≢ b'%')

-- A host as it is printed, without brackets and zone.
pub record IsPlain (host : Text) : Type 0 where
  pub bytes : All IsHostByte host
  pub named : is_empty host ≡ false
  pub no_star : host ≢ codes "*"

module _ (s : Text) (h : All IsHostByte s) where
  pub weaken : (P : ℕ → Type 0) → ((c : ℕ) → IsHostByte c → P c) → All P s
  weaken P f = go s h
    where
      go : (t : Text) → All IsHostByte t → All P t
      go [] h = tt
      go (c ∷ t) (hc, h) = (f c hc, go t h)

  pub not_space : Stays is_space s
  not_space = weaken (λ c. is_space c ≡ false) (λ c k. k.0)

  pub not_bracket : Stays (contains_byte (codes "[]")) s
  not_bracket = weaken (λ c. contains_byte (codes "[]") c ≡ false) (λ c k. ground arith)

  pub not_zone : Stays (λ c. c == b'%') s
  not_zone = weaken (λ c. (c == b'%') ≡ false) (λ c k. ground arith)
