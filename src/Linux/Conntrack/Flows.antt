-- ===== src/Linux/Conntrack/Flows.antt =====
-- `parseLinuxConntrackLine` of internal/watcher/network_linux.go on the lines of UDP flows.
use dialtone_watcher.Linux.Conntrack.Attributes.{
  tuple_of, Direction, direction_words, IsDirection, flow_attrs, flow_attrs_lem, attr_of, tuple_lem,
}
use dialtone_watcher.Prelude.{
  ◌≡◌, refl, Bool, true, false, none, some, List, [], ◌∷◌, Text, codes, ◌==◌, nat_eq, list_eq,
  arith, if◌then◌else◌, ltb, length,
}
use dialtone_watcher.Decimal.{format_uint}
use dialtone_watcher.Strings.Parts.{fields}
use dialtone_watcher.Dict.{lookup, insert}
use dialtone_watcher.Dict.Laws.{lookup-insert}
use dialtone_watcher.Netip.{Netip}
use dialtone_watcher.Network.{NetworkConnectionSample, sock_dgram}
use dialtone_watcher.Linux.Conntrack.{
  trim_space, parse_linux_conntrack_line, linux_flow_tuple_key, add_attrs, FlowTuple,
  parse_linux_conntrack_tuple, conntrack_header, flow_samples, parse_linux_conntrack_fields,
}

-- What stands in front of the attributes: the protocol, in some files behind the family.
pub data Header : Type 0 where
  plain : Text → Text → Header
  with_family : Bool → Text → Text → Text → Header

abbrev pub header_words : Header → List Text → List Text
header_words (plain number timeout) rest = codes "udp" ∷ number ∷ timeout ∷ rest
header_words (with_family is_v6 family_number number timeout) rest =
    (if is_v6 then codes "ipv6" else codes "ipv4")
    ∷ family_number
    ∷ codes "udp"
    ∷ number
    ∷ timeout
    ∷ rest

header_lem :
    (h : Header) (o r : Direction) (rest : List Text)
    → (ltb (length (header_words h (direction_words o (direction_words r rest)))) 10 ≡ false)
      × (conntrack_header (header_words h (direction_words o (direction_words r rest)))
          ≡ some (codes "udp", direction_words o (direction_words r rest)))
header_lem (plain number timeout) o r rest = (ground arith, refl)
header_lem (with_family true f number timeout) o r rest = (ground arith, ground arith)
header_lem (with_family false f number timeout) o r rest = (ground arith, ground arith)

module _ ⦃ip : Netip⦄ where
  fields_lem :
      (words attributes : List Text) (orig reply : FlowTuple)
      → ltb (length words) 10 ≡ false
      → conntrack_header words ≡ some (codes "udp", attributes)
      → parse_linux_conntrack_tuple (add_attrs [] attributes) 0 ≡ some orig
      → parse_linux_conntrack_tuple (add_attrs [] attributes) 1 ≡ some reply
      → parse_linux_conntrack_fields words ≡ some (flow_samples orig reply)
  unfolding parse_linux_conntrack_fields
  fields_lem words attributes orig reply long header first second =
      rw (parse_linux_conntrack_fields, long, header, first, second) refl

  flow_lem :
      (h : Header) (o r : Direction) (rest : List Text) (src dst reply_src reply_dst : Text)
      → IsDirection o src dst
      → IsDirection r reply_src reply_dst
      → parse_linux_conntrack_fields (header_words h (direction_words o (direction_words r rest)))
        ≡ some (flow_samples (tuple_of o src dst) (tuple_of r reply_src reply_dst))
  unfolding lookup
  flow_lem h o r rest src dst reply_src reply_dst i j =
      let words = header_words h (direction_words o (direction_words r rest)) in
      let attrs = add_attrs (flow_attrs o r) rest in
      let (long, header) = header_lem h o r rest in
      fields_lem words (direction_words o (direction_words r rest)) (tuple_of o src dst)
        (tuple_of r reply_src reply_dst) long header
        (rw (flow_attrs_lem o r rest) (
          tuple_lem attrs 0 o src dst i (attr_of o r rest (codes "src") o.src r.src refl).0
            (attr_of o r rest (codes "dst") o.dst r.dst refl).0
            (attr_of o r rest (codes "sport") (format_uint o.sport) (format_uint r.sport) refl).0
            (attr_of o r rest (codes "dport") (format_uint o.dport) (format_uint r.dport) refl).0
            (attr_of o r rest (codes "bytes") (format_uint o.bytes) (format_uint r.bytes) refl).0))
        (rw (flow_attrs_lem o r rest) (
          tuple_lem attrs 1 r reply_src reply_dst j
            (attr_of o r rest (codes "src") o.src r.src refl).1
            (attr_of o r rest (codes "dst") o.dst r.dst refl).1
            (attr_of o r rest (codes "sport") (format_uint o.sport) (format_uint r.sport) refl).1
            (attr_of o r rest (codes "dport") (format_uint o.dport) (format_uint r.dport) refl).1
            (attr_of o r rest (codes "bytes") (format_uint o.bytes) (format_uint r.bytes) refl).1))

  -- the key of a direction whose hosts are normalized to `src` and `dst`
  abbrev pub direction_key : Direction → Text → Text → Text
  direction_key d src dst = linux_flow_tuple_key sock_dgram src d.sport dst d.dport

  samples_lem :
      (line : Text) (words : List Text) (orig reply : FlowTuple)
      → fields (trim_space line) ≡ words
      → parse_linux_conntrack_fields words ≡ some (flow_samples orig reply)
      → parse_linux_conntrack_line line ≡ flow_samples orig reply
  unfolding parse_linux_conntrack_line
  samples_lem line words orig reply e f = rw (parse_linux_conntrack_line, e, f) refl

  nothing : (key : Text) → lookup {V = NetworkConnectionSample} key [] ≡ none
  unfolding lookup
  nothing key = refl

  lookup-flow_samples :
      (key : Text) (orig reply : FlowTuple)
      → lookup key (flow_samples orig reply) ≡ (
          if linux_flow_tuple_key sock_dgram reply.src reply.sport reply.dst reply.dport == key
          then some (record { rx_bytes = orig.bytes; tx_bytes = reply.bytes })
          else if linux_flow_tuple_key sock_dgram orig.src orig.sport orig.dst orig.dport == key
          then some (record { rx_bytes = reply.bytes; tx_bytes = orig.bytes })
          else none)
  unfolding flow_samples
  lookup-flow_samples key orig reply =
      let own = linux_flow_tuple_key sock_dgram orig.src orig.sport orig.dst orig.dport in
      let replied = linux_flow_tuple_key sock_dgram reply.src reply.sport reply.dst reply.dport in
      let sent : NetworkConnectionSample = record {
        rx_bytes = reply.bytes;
        tx_bytes = orig.bytes;
      } in
      let received : NetworkConnectionSample = record {
        rx_bytes = orig.bytes;
        tx_bytes = reply.bytes;
      } in
      rw
        (
          flow_samples,
          lookup-insert replied key received (insert own sent []),
          lookup-insert own key sent [],
          nothing key,
        )
        refl

  -- A line of a UDP flow gives two samples, whatever stands behind the attributes of both directions:
  -- under the key of the reply's direction the original bytes as received and the reply's as sent,
  -- and under the key of the original direction, if it is another one, the other way round. No other
  -- key has a sample.
  pub parse_linux_conntrack_line_lem :
      (line : Text) (h : Header) (o r : Direction) (rest : List Text)
      (src dst reply_src reply_dst : Text)
      → fields (trim_space line) ≡ header_words h (direction_words o (direction_words r rest))
      → IsDirection o src dst
      → IsDirection r reply_src reply_dst
      → (key : Text)
      → lookup key (parse_linux_conntrack_line line) ≡ (
          if direction_key r reply_src reply_dst == key
          then some (record { rx_bytes = o.bytes; tx_bytes = r.bytes })
          else if direction_key o src dst == key
          then some (record { rx_bytes = r.bytes; tx_bytes = o.bytes })
          else none)
  parse_linux_conntrack_line_lem line h o r rest src dst reply_src reply_dst words i j key =
      let orig = tuple_of o src dst in
      let reply = tuple_of r reply_src reply_dst in
      rw
        (
          samples_lem line (header_words h (direction_words o (direction_words r rest))) orig reply
              words (flow_lem h o r rest src dst reply_src reply_dst i j),
          lookup-flow_samples key orig reply,
        )
        refl
