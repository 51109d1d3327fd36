-- ===== src/Linux/Sockets.antt =====
-- The output of `ss -tinpHOn`: `parseLinuxSocketEndpoint`, `findLinuxSocketCounter`,
-- `parseLinuxSocketUsers` and `parseLinuxSocketByteSamples` of internal/watcher/network_linux.go.
pub mod PlainHosts
pub mod Segments
pub mod Holders
use dialtone_watcher.Prelude.{
  ℕ, Bool, true, false, not, ◌||◌, ◌&&◌, Option, none, some, ◌>>=◌, List, [], ◌∷◌, ◌++◌, Text,
  codes, is_empty, ◌==◌, nat_eq, list_eq, if◌then◌else◌, gather, ltb, length,
}
pub mod Endpoints
pub mod Users
use dialtone_watcher.Prelude.Int.{ℤ}
use dialtone_watcher.Decimal.{format_uint, format_int}
use dialtone_watcher.Decimal.Parse.{parse_uint, parse_int}
use dialtone_watcher.Strings.{trim_space, trim}
use dialtone_watcher.Strings.Parts.{split, split_text, cut_at, cut_last, cut, before_or_all, fields}
use dialtone_watcher.Dict.{Dict, insert}
use dialtone_watcher.Netip.{Netip}
use dialtone_watcher.Hosts.{normalize_resolved_host}
use dialtone_watcher.Network.{NetworkConnectionSample, is_digits, sock_stream}

pub record LinuxSocketUser : Type 0 where
  pub pid : ℤ
  pub fd : ℕ
  pub socket_type : ℕ

-- the host in front of `%`
abbrev pub without_zone : Text → Text
without_zone host = before_or_all (cut_at (λ c. c == b'%') host) host

unfoldable pub endpoint_host : Text → Text
unfolding trim_space trim cut_at
endpoint_host before = without_zone (trim (trim_space before) (codes "[]"))

unfoldable pub parse_linux_socket_endpoint : Text → Option (Text × ℕ)
unfolding endpoint_host cut_last is_digits parse_uint trim_space
parse_linux_socket_endpoint text =
    let value = trim_space text in
    if is_empty value || value == codes "*:*" then none else do
      (before, behind) ← cut_last b':' value
      if is_empty behind || not (is_digits behind) then none else do
        port ← parse_uint 32 behind
        let host = endpoint_host before
        if is_empty host || host == codes "*" then none else some (host, port)

abbrev pub or_none : Option ℕ → ℕ
or_none none = 0
or_none (some n) = n

unfoldable pub find_linux_socket_counter : Text → Text → ℕ
unfolding cut cut_at parse_uint trim_space
find_linux_socket_counter line prefix = or_none (do
  (_, behind) ← cut prefix line
  parse_uint 64 (trim_space (before_or_all (cut_at (λ c. c == b' ') behind) behind)))

-- the body of the loop over the parts
unfoldable pub parse_user : Text → Option LinuxSocketUser
unfolding cut cut_at parse_uint parse_int
parse_user part = if is_empty part then none else do
  (pid_text, behind) ← cut_at (λ c. c == b',') part
  pid ← parse_int 32 pid_text
  (_, fd_part) ← cut (codes "fd=") behind
  fd ← parse_uint 32 (before_or_all (cut_at (λ c. c == b')' || c == b',') fd_part) fd_part)
  some (record { pid = pid; fd = fd; socket_type = sock_stream })

unfoldable pub parse_linux_socket_users : Text → List LinuxSocketUser
unfolding parse_user split_text cut
parse_linux_socket_users line = elim (cut (codes "users:(") line) [
  | none ↦ []
  | some (_, behind) ↦
      gather parse_user (split_text (codes "pid=") (before_or_all (cut (codes ") ") behind) behind))
]

-- `fmt.Sprintf("%d|%d|%d|%s|%d|%s|%d", ...)`
unfoldable pub linux_socket_key : ℤ → ℕ → ℕ → Text → ℕ → Text → ℕ → Text
linux_socket_key pid fd socket_type local_host local_port host remote_port =
    format_int pid
    ++ b'|'
      ∷ (format_uint fd
          ++ b'|'
            ∷ (format_uint socket_type
                ++ b'|'
                  ∷ (local_host
                      ++ b'|'
                        ∷ (format_uint local_port
                            ++ b'|' ∷ (host ++ b'|' ∷ format_uint remote_port)))))

-- `fields[3]` and `fields[4]`
abbrev pub endpoint_fields : List Text → Option (Text × Text)
endpoint_fields (_ ∷ _ ∷ _ ∷ local ∷ remote ∷ _) = some (local, remote)
endpoint_fields _ = none

module _ ⦃ip : Netip⦄ where
  -- the loop over the users of a line
  unfoldable pub add_users :
      Text × ℕ
      → Text × ℕ
      → NetworkConnectionSample
      → List LinuxSocketUser
      → Dict Text NetworkConnectionSample
      → Dict Text NetworkConnectionSample
  unfolding linux_socket_key
  add_users local remote sample [] samples = samples
  add_users (local_host, local_port) (host, remote_port) sample (user ∷ users) samples =
      let key =
        linux_socket_key user.pid user.fd user.socket_type local_host local_port host remote_port in
      add_users (local_host, local_port) (host, remote_port) sample users
        (insert key sample samples)

  -- what the fields of a line say: both endpoints, the remote host in normal form
  unfoldable pub parse_endpoints : List Text → Option ((Text × ℕ) × (Text × ℕ))
  unfolding parse_linux_socket_endpoint
  parse_endpoints words = do
    (local_field, remote_field) ← endpoint_fields words
    local ← parse_linux_socket_endpoint local_field
    (remote_host, remote_port) ← parse_linux_socket_endpoint remote_field
    let host = normalize_resolved_host remote_host
    if is_empty host then none else some (local, (host, remote_port))

  -- the body of the loop over the lines
  unfoldable pub add_line :
      Text → Dict Text NetworkConnectionSample → Dict Text NetworkConnectionSample
  unfolding add_users parse_endpoints find_linux_socket_counter parse_linux_socket_users trim_space
      fields
  add_line raw samples =
      let line = trim_space raw in
      let sample : NetworkConnectionSample = record {
        rx_bytes = find_linux_socket_counter line (codes "bytes_received:");
        tx_bytes = find_linux_socket_counter line (codes "bytes_acked:");
      } in
      if is_empty line then samples else elim (parse_endpoints (fields line)) [
        | none ↦ samples
        | some (local, remote) ↦
            if sample.rx_bytes == 0 && sample.tx_bytes == 0
            then samples
            else add_users local remote sample (parse_linux_socket_users line) samples
      ]

  unfoldable pub add_lines :
      List Text → Dict Text NetworkConnectionSample → Dict Text NetworkConnectionSample
  unfolding add_line
  add_lines [] samples = samples
  add_lines (line ∷ lines) samples = add_lines lines (add_line line samples)

  unfoldable pub parse_linux_socket_byte_samples : Text → Dict Text NetworkConnectionSample
  unfolding add_lines split
  parse_linux_socket_byte_samples raw = add_lines (split b'\n' raw) []
