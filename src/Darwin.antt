-- ===== src/Darwin.antt =====
-- The collector of macOS, internal/watcher/network_darwin.go: the rows of `nettop`. What the command
-- prints comes from outside as the records of `encoding/csv`.
pub mod Remotes
pub mod Tables
use dialtone_watcher.Prelude.{
  ℕ, suc, Bool, true, false, not, ◌||◌, ◌&&◌, Option, none, some, ◌>>=◌, List, [], ◌∷◌, ◌++◌, Text,
  codes, is_empty, ◌==◌, nat_eq, list_eq, if◌then◌else◌, ltb, leb, length, get_elem?,
}
use dialtone_watcher.Prelude.Int.{ℤ, pos, int_eq}
use dialtone_watcher.Decimal.{format_int}
use dialtone_watcher.Decimal.Parse.{parse_uint, parse_int}
use dialtone_watcher.Strings.{trim_space, trim, trim_suffix, to_lower, contains_byte}
use dialtone_watcher.Strings.Parts.{cut_at, cut_last, cut, before_or_all, contains_text}
use dialtone_watcher.Dict.{Dict, insert, found_or}
use dialtone_watcher.Netip.{Netip}
use dialtone_watcher.Hosts.{is_public_ip}
use dialtone_watcher.Network.{
  NetworkConnectionSample, NetworkObservation, is_digits, infer_protocol, parse_counter,
}

unfoldable pub parse_process_row : Text → Option ℤ
unfolding contains_text cut_last parse_int
parse_process_row value =
    if contains_text value (codes "<->")
    then none
    else do (_, number) ← cut_last b'.' value; if is_empty number then none else parse_int 32 number

-- the host and the port behind the last colon, or behind the last dot of a host with a colon
unfoldable pub colon_port : Text → Option (Text × Text)
unfolding cut_last is_digits
colon_port host = do
  (before, port) ← cut_last b':' host
  if is_digits port then some (before, port) else none

unfoldable pub dot_port : Text → Option (Text × Text)
unfolding cut_last is_digits
dot_port host = do
  (before, port) ← cut_last b'.' host
  if is_digits port && contains_byte before b':' then some (before, port) else none

unfoldable pub strip_port : Text → Text
unfolding colon_port dot_port
strip_port host = elim (colon_port host) [
  | some (before, _) ↦ before
  | none ↦ before_or_all (dot_port host) host
]

-- the assignments to `host` behind the port
unfoldable pub remote_name : Text → Text
unfolding trim cut_at trim_suffix to_lower trim_space
remote_name host =
    let inner = trim host (codes "[]") in
    to_lower
      (trim_space (trim_suffix (before_or_all (cut_at (λ c. c == b'%') inner) inner) (codes ".")))

abbrev pub count_byte : ℕ → Text → ℕ
count_byte d [] = 0
count_byte d (c ∷ s) = let rest = count_byte d s in if c == d then suc rest else rest

-- nothing but digits and dots
abbrev pub is_numeric : Text → Bool
is_numeric [] = true
is_numeric (c ∷ s) = (leb b'0' c && leb c b'9' || c == b'.') && is_numeric s

abbrev pub is_dotted : Text → Bool
is_dotted host = count_byte b'.' host == 3 && is_numeric host

-- `parseEndpointPort`
unfoldable pub parse_endpoint_port : Text → ℕ
unfolding trim_space colon_port dot_port parse_uint
parse_endpoint_port endpoint =
    let host = trim_space endpoint in
    let read : Option (Text × Text) → Option ℕ = λ found. found >>= (λ e. parse_uint 16 e.1) in
    if is_empty host then 0 else elim (read (colon_port host)) [
      | some port ↦ port
      | none ↦ found_or (read (dot_port host)) 0
    ]

module _ ⦃ip : Netip⦄ where
  -- what is left of a name that has no port any more
  unfoldable pub remote_host : Text → Text
  unfolding is_public_ip
  remote_host host =
      if is_empty host || (host == codes "*" || host == codes "localhost")
      then []
      else elim (ip.parse_addr host) [
        | some addr ↦ if not (is_public_ip (ip.to_text addr)) then [] else ip.to_text addr
        | none ↦ if is_public_ip host then host else if is_dotted host then [] else host
      ]

  unfoldable pub normalize_remote_host : Text → Text
  unfolding remote_host remote_name strip_port trim_space
  normalize_remote_host endpoint =
      let host = trim_space endpoint in
      if is_empty host || (host == codes "*:*" || host == codes "*.*")
      then []
      else remote_host (remote_name (strip_port host))

  -- `strings.SplitN` into two parts is `cut` here; the counters are `record[2]` and `record[3]`.
  unfoldable pub parse_connection_row :
      Text → List Text → Option (Text × (ℕ × NetworkConnectionSample))
  unfolding normalize_remote_host parse_endpoint_port parse_counter cut cut_at
  parse_connection_row spec record_fields =
      if ltb (length record_fields) 4 || not (contains_text spec (codes "<->")) then none else do
        (_, ends) ← cut_at (λ c. c == b' ') spec
        (_, endpoint) ← cut (codes "<->") ends
        let domain = normalize_remote_host endpoint
        let counter : ℕ → ℕ = λ i. parse_counter (found_or (get_elem? record_fields i) [])
        if is_empty domain
            then none
            else some (
              domain,
              (parse_endpoint_port endpoint, record { rx_bytes = counter 2; tx_bytes = counter 3 }),
            )

  -- the body of the loop on a row that is not skipped
  unfoldable pub read_row :
      Text → List Text → ℤ × Dict Text NetworkObservation → ℤ × Dict Text NetworkObservation
  unfolding parse_process_row parse_connection_row infer_protocol
  read_row row record_fields (current, observations) = elim (parse_process_row row) [
    | some pid ↦ (pid, observations)
    | none ↦
        if current == pos 0
        then (current, observations)
        else elim (parse_connection_row row record_fields) [
          | none ↦ (current, observations)
          | some (domain, (port, sample)) ↦ (
            current,
            insert (format_int current ++ b'|' ∷ row)
                (record {
                  pid = current;
                  domain = domain;
                  display_name = [];
                  process_name = [];
                  protocol = infer_protocol port;
                  sample = sample;
                })
                observations,
          )
        ]
  ]

  unfoldable pub read_record :
      List Text → ℤ × Dict Text NetworkObservation → ℤ × Dict Text NetworkObservation
  unfolding read_row trim_space
  read_record [] s = s
  read_record (cell ∷ cells) s =
      let row = trim_space cell in
      if is_empty row || row == codes "state" then s else read_row row (cell ∷ cells) s

  -- The loop; `none` is a record that cannot be read, which ends it with an error.
  unfoldable pub read_records :
      List (Option (List Text))
      → ℤ × Dict Text NetworkObservation
      → Option (Dict Text NetworkObservation)
  unfolding read_record
  read_records [] (current, observations) = some observations
  read_records (none ∷ records) s = none
  read_records (some r ∷ records) s = read_records records (read_record r s)

  -- `none` stands for a command that fails.
  unfoldable pub collect_network_samples :
      Option (List (Option (List Text))) → Option (Dict Text NetworkObservation)
  unfolding read_records
  collect_network_samples none = none
  collect_network_samples (some records) = read_records records (pos 0, [])
