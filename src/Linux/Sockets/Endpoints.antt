-- ===== src/Linux/Sockets/Endpoints.antt =====
-- `parseLinuxSocketEndpoint` of internal/watcher/network_linux.go on the endpoints that `ss` prints.
use dialtone_watcher.Linux.Sockets.PlainHosts.{
  IsHostByte, IsPlain, not_space, not_bracket, not_zone,
}
use dialtone_watcher.Prelude.{
  ◌∙◌, ℕ, ◌^◌, ◌<◌, ◌≡◌, ◌≢◌, refl, ap, sym, inl, inr, Bool, false, Option, some, [], ◌∷◌, ◌++◌,
  Text, codes, is_empty, ◌==◌, nat_eq, list_eq, eq_iff, All, All-append, Bool-cases, arith,
  append_assoc,
}
use dialtone_watcher.Decimal.{format_uint}
use dialtone_watcher.Decimal.Injective.{IsDigit, format_uint-IsDigit}
use dialtone_watcher.Decimal.Parse.{format_uint-is_empty, parse_uint-format_uint, format_uint_some}
use dialtone_watcher.Strings.{is_space, trim, trim_left, contains_byte}
use dialtone_watcher.Strings.Trim.{
  Stays, trim_left-Stays, trim_right-append, trim_right_end, trim_right-Stays, trim_space-Stays,
}
use dialtone_watcher.Strings.Parts.{cut_last}
use dialtone_watcher.Strings.Parts.Laws.{Lacks, cut_last-append, cut_at-append, cut_at-none}
use dialtone_watcher.Network.Digits.{is_digits-IsDigit}
use dialtone_watcher.Linux.Sockets.{endpoint_host, parse_linux_socket_endpoint}

digits-not_space : (s : Text) → All IsDigit s → Stays is_space s
digits-not_space [] h = tt
digits-not_space (c ∷ s) (hc, h) = (ground arith, digits-not_space s h)

digits-Lacks_colon : (s : Text) → All IsDigit s → Lacks b':' s
digits-Lacks_colon [] h = tt
digits-Lacks_colon (c ∷ s) (hc, h) = (omega arith, digits-Lacks_colon s h)

some_append : (s : Text) (c : ℕ) (t : Text) → is_empty (s ++ c ∷ t) ≡ false
some_append [] c t = refl
some_append (d ∷ s) c t = refl

-- the port's digits tell an endpoint from `*:*`
star_port :
    (before digits : Text)
    → Lacks b':' digits
    → before ++ b':' ∷ digits ≡ codes "*:*"
    → digits ≡ codes "*"
unfolding cut_last
star_port before digits h e =
    let parts : ◌≡◌ {A = Option (Text × Text)} (some (before, digits))
        (some (codes "*", codes "*")) =
      sym (cut_last-append b':' before digits h) ∙ ap (cut_last b':') e in
    ground arith

not_stars :
    (before digits : Text) → All IsDigit digits → ((before ++ b':' ∷ digits) == codes "*:*") ≡ false
not_stars before digits h = elim (Bool-cases ((before ++ b':' ∷ digits) == codes "*:*")) [
  | inr other ↦ other
  | inl same ↦
      let star =
        star_port before digits (digits-Lacks_colon digits h)
          ((eq_iff (before ++ b':' ∷ digits) (codes "*:*")).0 same) in
      absurd (omega (arith, (rw star at h).0))
]

not_star : (host : Text) → host ≢ codes "*" → (host == codes "*") ≡ false
not_star host h = elim (Bool-cases (host == codes "*")) [
  | inr other ↦ other
  | inl same ↦ absurd (h ((eq_iff host (codes "*")).0 same))
]

-- What stands before the last colon is the host, and what stands behind it the port.
endpoint_lem :
    (before host : Text) (port : ℕ)
    → Stays is_space before
    → endpoint_host before ≡ host
    → is_empty host ≡ false
    → host ≢ codes "*"
    → port < 2 ^ 32
    → parse_linux_socket_endpoint (before ++ b':' ∷ format_uint port) ≡ some (host, port)
unfolding parse_linux_socket_endpoint
endpoint_lem before host port blank e named star fits =
    let digits = format_uint port in
    let numeric = format_uint-IsDigit port in
    let whole = trim_space-Stays (before ++ b':' ∷ digits) (
      All-append (λ c. is_space c ≡ false) before (b':' ∷ digits) blank
        (refl, digits-not_space digits numeric)) in
    rw
      (
        whole,
        some_append before b':' digits,
        not_stars before digits numeric,
        cut_last-append b':' before digits (digits-Lacks_colon digits numeric),
        is_digits-IsDigit digits (format_uint_some port) numeric,
        format_uint-is_empty port,
        parse_uint-format_uint 32 port fits,
        e,
        not_star host star,
      )
      (rw named refl)

abbrev bracket : ℕ → Bool
bracket = contains_byte (codes "[]")

-- a host that is not empty stops the trimming behind the opening bracket
left_bracket :
    (host rest : Text) → IsPlain host → trim_left bracket (b'[' ∷ (host ++ rest)) ≡ host ++ rest
unfolding trim_left
left_bracket [] rest h = ground (arith, h.named)
left_bracket (c ∷ host) rest h = rw ((not_bracket (c ∷ host) h.bytes).0) refl

-- hosts as `trim` and the cut at `%` leave them
plain_host : (host : Text) → IsPlain host → endpoint_host host ≡ host
unfolding endpoint_host trim
plain_host host h =
    rw
      (
        trim_space-Stays host (not_space host h.bytes),
        trim_left-Stays bracket host (not_bracket host h.bytes),
        trim_right-Stays bracket host (not_bracket host h.bytes),
        cut_at-none (λ c. c == b'%') host (not_zone host h.bytes),
      )
      refl

zoned_host :
    (host zone : Text)
    → IsPlain host
    → All IsHostByte zone
    → endpoint_host (host ++ b'%' ∷ zone) ≡ host
unfolding endpoint_host trim
zoned_host host zone h z =
    let stays =
      All-append (λ c. bracket c ≡ false) host (b'%' ∷ zone) (not_bracket host h.bytes)
        (refl, not_bracket zone z) in
    rw
      (
        trim_space-Stays (host ++ b'%' ∷ zone) (
            All-append (λ c. is_space c ≡ false) host (b'%' ∷ zone) (not_space host h.bytes)
              (refl, not_space zone z)),
        trim_left-Stays bracket (host ++ b'%' ∷ zone) stays,
        trim_right-Stays bracket (host ++ b'%' ∷ zone) stays,
        cut_at-append (λ c. c == b'%') host b'%' zone (not_zone host h.bytes) refl,
      )
      refl

bracketed_host : (host : Text) → IsPlain host → endpoint_host (b'[' ∷ (host ++ b']' ∷ [])) ≡ host
unfolding endpoint_host trim trim_left
bracketed_host host h =
    rw
      (
        trim_space-Stays (b'[' ∷ (host ++ b']' ∷ [])) (
          refl,
          All-append (λ c. is_space c ≡ false) host (b']' ∷ []) (not_space host h.bytes) (refl, tt),
        ),
        left_bracket host (b']' ∷ []) h,
        trim_right-append bracket host (b']' ∷ []) (not_bracket host h.bytes) (refl, tt),
        cut_at-none (λ c. c == b'%') host (not_zone host h.bytes),
      )
      refl

bracketed_blank :
    (host zone : Text)
    → IsPlain host
    → All IsHostByte zone
    → Stays is_space ((b'[' ∷ (host ++ b']' ∷ [])) ++ b'%' ∷ zone)
bracketed_blank host zone h z =
    All-append (λ c. is_space c ≡ false) (b'[' ∷ (host ++ b']' ∷ [])) (b'%' ∷ zone)
      (
        refl,
        All-append (λ c. is_space c ≡ false) host (b']' ∷ []) (not_space host h.bytes) (refl, tt),
      )
      (refl, not_space zone z)

not_bracketed : (host : Text) → host ++ b']' ∷ [] ≢ codes "*"
not_bracketed [] e = absurd (ground arith)
not_bracketed (c ∷ []) e = absurd (ground arith)
not_bracketed (c ∷ d ∷ host) e = absurd (ground arith)

left_bracket_zone :
    (host zone : Text)
    → IsPlain host
    → trim_left bracket (b'[' ∷ ((host ++ b']' ∷ []) ++ b'%' ∷ zone))
      ≡ (host ++ b']' ∷ []) ++ b'%' ∷ zone
left_bracket_zone host zone h = rw append_assoc (left_bracket host (b']' ∷ b'%' ∷ zone) h)

-- A zone behind the closing bracket keeps that bracket from being trimmed.
zone_outside :
    (host zone : Text)
    → IsPlain host
    → All IsHostByte zone
    → endpoint_host ((b'[' ∷ (host ++ b']' ∷ [])) ++ b'%' ∷ zone) ≡ host ++ b']' ∷ []
unfolding endpoint_host trim
zone_outside host zone h z =
    let closed = host ++ b']' ∷ [] in
    rw
      (
        trim_space-Stays ((b'[' ∷ closed) ++ b'%' ∷ zone) (bracketed_blank host zone h z),
        left_bracket_zone host zone h,
        trim_right_end bracket closed b'%' zone (refl, not_bracket zone z),
        cut_at-append (λ c. c == b'%') closed b'%' zone
            (All-append (λ c. (c == b'%') ≡ false) host (b']' ∷ []) (not_zone host h.bytes)
              (refl, tt))
            refl,
      )
      refl

-- An endpoint is read as its host and port, whether the host stands alone, with a zone, or in brackets.
-- A zone behind the brackets leaves the closing one in the host.
pub parse_linux_socket_endpoint_lem :
    (host zone : Text) (port : ℕ)
    → IsPlain host
    → All IsHostByte zone
    → port < 2 ^ 32
    → (parse_linux_socket_endpoint (host ++ b':' ∷ format_uint port) ≡ some (host, port))
      × (parse_linux_socket_endpoint ((host ++ b'%' ∷ zone) ++ b':' ∷ format_uint port)
          ≡ some (host, port))
      × (parse_linux_socket_endpoint ((b'[' ∷ (host ++ b']' ∷ [])) ++ b':' ∷ format_uint port)
          ≡ some (host, port))
      × (parse_linux_socket_endpoint
            (((b'[' ∷ (host ++ b']' ∷ [])) ++ b'%' ∷ zone) ++ b':' ∷ format_uint port)
          ≡ some (host ++ b']' ∷ [], port))
parse_linux_socket_endpoint_lem host zone port h z fits = (
  endpoint_lem host host port (not_space host h.bytes) (plain_host host h) h.named h.no_star fits,
  endpoint_lem (host ++ b'%' ∷ zone) host port
      (All-append (λ c. is_space c ≡ false) host (b'%' ∷ zone) (not_space host h.bytes)
        (refl, not_space zone z))
      (zoned_host host zone h z) h.named h.no_star fits,
  endpoint_lem (b'[' ∷ (host ++ b']' ∷ [])) host port
      (
        refl,
        All-append (λ c. is_space c ≡ false) host (b']' ∷ []) (not_space host h.bytes) (refl, tt),
      )
      (bracketed_host host h) h.named h.no_star fits,
  endpoint_lem ((b'[' ∷ (host ++ b']' ∷ [])) ++ b'%' ∷ zone) (host ++ b']' ∷ []) port
      (bracketed_blank host zone h z) (zone_outside host zone h z) (some_append host b']' [])
      (λ e. not_bracketed host e) fits,
)
