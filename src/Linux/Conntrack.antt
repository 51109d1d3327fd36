-- ===== src/Linux/Conntrack.antt =====
-- The table of `conntrack`: `parseLinuxConntrackLine`, `parseLinuxConntrackSamples` and what they call
-- in internal/watcher/network_linux.go. The lines are those that `bufio.Scanner` yields.
pub mod Attributes
pub mod Flows
use dialtone_watcher.Prelude.{
  ℕ, Bool, true, false, not, ◌||◌, ◌&&◌, Option, none, some, ◌>>=◌, List, [], ◌∷◌, ◌++◌, Text,
  codes, is_empty, ◌==◌, nat_eq, list_eq, if◌then◌else◌, ltb, length, get_elem?, drop,
}
use dialtone_watcher.Decimal.{format_uint}
use dialtone_watcher.Decimal.Parse.{parse_uint}
use dialtone_watcher.Strings.{trim_space, trim, to_lower}
use dialtone_watcher.Strings.Parts.{cut_at, fields}
use dialtone_watcher.Dict.{Dict, lookup, insert, insert_all, found_or}
use dialtone_watcher.Netip.{Netip}
use dialtone_watcher.Network.{NetworkConnectionSample, sock_dgram}
use dialtone_watcher.Linux.Sockets.{without_zone}

-- `fmt.Sprintf("%d|%s|%d|%s|%d", ...)`
unfoldable pub linux_flow_tuple_key : ℕ → Text → ℕ → Text → ℕ → Text
linux_flow_tuple_key socket_type local_host local_port remote_host remote_port =
    format_uint socket_type
    ++ b'|'
      ∷ (local_host
          ++ b'|'
            ∷ (format_uint local_port ++ b'|' ∷ (remote_host ++ b'|' ∷ format_uint remote_port)))

unfoldable pub normalize_linux_conntrack_host : ⦃ip : Netip⦄ → Text → Text
unfolding trim_space trim cut_at to_lower
normalize_linux_conntrack_host ⦃ip⦄ raw =
    let trimmed = trim_space (trim raw (codes "[]")) in
    let host = without_zone trimmed in
    if is_empty trimmed
    then []
    else elim (ip.parse_addr host) [ some addr ↦ ip.to_text addr | none ↦ to_lower host ]

-- the body of the loop over the attributes
unfoldable pub add_attr : Dict Text (List Text) → Text → Dict Text (List Text)
unfolding cut_at
add_attr attrs field = elim (cut_at (λ c. c == b'=') field) [
  | none ↦ attrs
  | some (key, value) ↦ insert key (found_or (lookup key attrs) [] ++ value ∷ []) attrs
]

unfoldable pub add_attrs : Dict Text (List Text) → List Text → Dict Text (List Text)
unfolding add_attr
add_attrs attrs [] = attrs
add_attrs attrs (field ∷ more) = add_attrs (add_attr attrs field) more

abbrev pub linux_conntrack_attr : Dict Text (List Text) → Text → ℕ → Text
linux_conntrack_attr attrs key index =
    found_or (get_elem? (found_or (lookup key attrs) []) index) []

pub record FlowTuple : Type 0 where
  pub src : Text
  pub dst : Text
  pub sport : ℕ
  pub dport : ℕ
  pub bytes : ℕ

-- an attribute that is there
abbrev pub some_text : Text → Option Text
some_text text = if is_empty text then none else some text

-- the protocol of a line, and its fields from `fields[offset+3]` on
abbrev pub conntrack_header : List Text → Option (Text × List Text)
conntrack_header [] = none
conntrack_header (first ∷ more) =
    if first == codes "ipv4" || first == codes "ipv6"
    then (if ltb (length (first ∷ more)) 11
        then none
        else some (found_or (get_elem? (first ∷ more) 2) [], drop 5 (first ∷ more)))
    else some (first, drop 3 (first ∷ more))

-- the two samples of a flow
unfoldable pub flow_samples : FlowTuple → FlowTuple → Dict Text NetworkConnectionSample
unfolding linux_flow_tuple_key
flow_samples orig reply =
    insert (linux_flow_tuple_key sock_dgram reply.src reply.sport reply.dst reply.dport)
      (record { rx_bytes = orig.bytes; tx_bytes = reply.bytes })
      (insert (linux_flow_tuple_key sock_dgram orig.src orig.sport orig.dst orig.dport)
        (record { rx_bytes = reply.bytes; tx_bytes = orig.bytes }) [])

module _ ⦃ip : Netip⦄ where
  unfoldable pub parse_linux_conntrack_tuple : Dict Text (List Text) → ℕ → Option FlowTuple
  unfolding normalize_linux_conntrack_host parse_uint
  parse_linux_conntrack_tuple attrs index = do
    raw_src ← some_text (linux_conntrack_attr attrs (codes "src") index)
    raw_dst ← some_text (linux_conntrack_attr attrs (codes "dst") index)
    sport_value ← some_text (linux_conntrack_attr attrs (codes "sport") index)
    dport_value ← some_text (linux_conntrack_attr attrs (codes "dport") index)
    bytes_value ← some_text (linux_conntrack_attr attrs (codes "bytes") index)
    src ← some_text (normalize_linux_conntrack_host raw_src)
    dst ← some_text (normalize_linux_conntrack_host raw_dst)
    sport ← parse_uint 32 sport_value
    dport ← parse_uint 32 dport_value
    bytes ← parse_uint 64 bytes_value
    some (record { src = src; dst = dst; sport = sport; dport = dport; bytes = bytes })

  unfoldable pub parse_linux_conntrack_fields :
      List Text → Option (Dict Text NetworkConnectionSample)
  unfolding add_attrs parse_linux_conntrack_tuple flow_samples
  parse_linux_conntrack_fields words = if ltb (length words) 10 then none else do
    (protocol, attributes) ← conntrack_header words
    if not (protocol == codes "udp") then none else do
      let attrs = add_attrs [] attributes
      orig ← parse_linux_conntrack_tuple attrs 0
      reply ← parse_linux_conntrack_tuple attrs 1
      some (flow_samples orig reply)

  -- a `nil` map is the empty one
  unfoldable pub parse_linux_conntrack_line : Text → Dict Text NetworkConnectionSample
  unfolding parse_linux_conntrack_fields fields trim_space
  parse_linux_conntrack_line line =
      found_or (parse_linux_conntrack_fields (fields (trim_space line))) []

  unfoldable pub add_conntrack_lines :
      List Text → Dict Text NetworkConnectionSample → Dict Text NetworkConnectionSample
  unfolding parse_linux_conntrack_line
  add_conntrack_lines [] samples = samples
  add_conntrack_lines (line ∷ lines) samples =
      add_conntrack_lines lines (insert_all (parse_linux_conntrack_line line) samples)

  unfoldable pub parse_linux_conntrack_samples : List Text → Dict Text NetworkConnectionSample
  unfolding add_conntrack_lines
  parse_linux_conntrack_samples lines = add_conntrack_lines lines []
