-- ===== src/Network.antt =====
-- internal/watcher/network.go, and `observedConnectionKey` of
-- internal/watcher/watcher.go.
pub mod Digits
pub mod Keys
use dialtone_watcher.Prelude.{
  none, some, is_empty, ℕ, ◌%◌, ◌^◌, Bool, true, false, ◌||◌, ◌&&◌, not, List, [], ◌∷◌, ◌++◌, Text,
  codes, leb, ltb, ◌==◌, nat_eq, if◌then◌else◌, ◌≡◌, refl,
}
use dialtone_watcher.Prelude.Int.{ℤ}
use dialtone_watcher.Decimal.{format_int}
use dialtone_watcher.Decimal.Parse.{parse_uint}
use dialtone_watcher.Strings.{trim_space}

pub record NetworkConnectionSample : Type 0 where
  pub rx_bytes : ℕ
  pub tx_bytes : ℕ

pub record NetworkObservation : Type 0 where
  pub pid : ℤ
  pub domain : Text
  pub display_name : Text
  pub process_name : Text
  pub protocol : Text
  pub sample : NetworkConnectionSample

unfoldable pub infer_protocol : ℕ → Text
infer_protocol port =
    if port == 22
    then codes "SSH"
    else if port == 53
    then codes "DNS"
    else if port == 80
    then codes "HTTP"
    else if port == 443
    then codes "HTTPS"
    else if port == 853
    then codes "DNS-over-TLS"
    else if port == 3306
    then codes "MySQL"
    else if port == 5432
    then codes "Postgres"
    else if port == 6379
    then codes "Redis"
    else if port == 784 || port == 4433
    then codes "QUIC"
    else codes "TCP"

-- `syscall.SOCK_DGRAM` on Linux
abbrev pub sock_dgram : ℕ
sock_dgram = 2

abbrev pub sock_stream : ℕ
sock_stream = 1

-- the case of a datagram socket
pub infer_datagram_protocol : ℕ → Text
infer_datagram_protocol port =
    if port == 53
    then codes "DNS"
    else if port == 443 || (port == 784 || port == 4433)
    then codes "QUIC"
    else codes "UDP"

-- `uint16(port)` drops the high bits
unfoldable pub infer_socket_protocol : ℕ → ℕ → Text
unfolding infer_datagram_protocol
infer_socket_protocol socket_type port =
    if socket_type == sock_dgram
    then infer_datagram_protocol port
    else infer_protocol (port % 2 ^ 16)

-- `parseUint`
unfoldable pub parse_counter : Text → ℕ
unfolding parse_uint trim_space
parse_counter text = elim (parse_uint 64 (trim_space text)) [ none ↦ 0 | some parsed ↦ parsed ]

all_digits : Text → Bool
all_digits [] = true
all_digits (c ∷ s) = leb b'0' c && leb c b'9' && all_digits s

unfoldable pub is_digits : Text → Bool
unfolding all_digits
is_digits value = not (is_empty value) && all_digits value

-- `fmt.Sprintf("%d|%s|%s", ...)`
unfoldable pub observed_connection_key : NetworkObservation → Text
observed_connection_key o = format_int o.pid ++ b'|' ∷ (o.protocol ++ b'|' ∷ o.domain)
