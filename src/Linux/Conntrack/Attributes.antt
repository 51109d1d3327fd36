-- ===== src/Linux/Conntrack/Attributes.antt =====
-- The attributes of a flow in the table of `conntrack`, for internal/watcher/network_linux.go.
use dialtone_watcher.Prelude.{
  ℕ, ◌^◌, ◌<◌, ◌≡◌, refl, false, some, List, [], ◌∷◌, ◌++◌, Text, codes, is_empty, ◌==◌, nat_eq,
  list_eq, eq_iff, Bool-cases, Option-cases, append_assoc, append-nil, inl, inr,
}
use dialtone_watcher.Decimal.{format_uint}
use dialtone_watcher.Decimal.Parse.{format_uint-is_empty, parse_uint-format_uint}
use dialtone_watcher.Strings.Parts.{cut_at}
use dialtone_watcher.Dict.{Dict, lookup, insert, found_or}
use dialtone_watcher.Dict.Laws.{lookup-insert_self, lookup-insert}
use dialtone_watcher.Netip.{Netip}
use dialtone_watcher.Linux.Conntrack.{
  normalize_linux_conntrack_host, add_attr, add_attrs, linux_conntrack_attr, FlowTuple,
  parse_linux_conntrack_tuple,
}

-- One direction of a flow, as the table prints it.
pub record Direction : Type 0 where
  pub src : Text
  pub dst : Text
  pub sport : ℕ
  pub dport : ℕ
  pub packets : Text
  pub bytes : ℕ

abbrev pub direction_words : Direction → List Text → List Text
direction_words d rest =
    (codes "src=" ++ d.src)
    ∷ (codes "dst=" ++ d.dst)
    ∷ (codes "sport=" ++ format_uint d.sport)
    ∷ (codes "dport=" ++ format_uint d.dport)
    ∷ (codes "packets=" ++ d.packets)
    ∷ (codes "bytes=" ++ format_uint d.bytes)
    ∷ rest

abbrev pub values_of : Text → Dict Text (List Text) → List Text
values_of key attrs = found_or (lookup key attrs) []

pub added :
    (k key v : Text) (attrs : Dict Text (List Text))
    → k ≡ key
    → values_of key (insert k (values_of k attrs ++ v ∷ []) attrs) ≡ values_of key attrs ++ v ∷ []
added k key v attrs e = rw (e, lookup-insert_self key (values_of key attrs ++ v ∷ []) attrs) refl

-- More attributes add to the values of a key, behind those that are there.
pub add_attr_values :
    (key field : Text) (attrs : Dict Text (List Text))
    → (more : List Text) × (values_of key (add_attr attrs field) ≡ values_of key attrs ++ more)
unfolding add_attr
add_attr_values key field attrs = elim (Option-cases (cut_at (λ c. c == b'=') field)) [
  | inl e ↦ rw (add_attr, e) ([], rw append-nil refl)
  | inr ((k, v), e) ↦ elim (Bool-cases (k == key)) [
    | inl same ↦ rw (add_attr, e) (v ∷ [], added k key v attrs ((eq_iff k key).0 same))
    | inr other ↦
        rw (add_attr, e)
          ([], rw (lookup-insert k key (values_of k attrs ++ v ∷ []) attrs, other, append-nil) refl)
  ]
]

pub add_attrs_values :
    (key : Text) (attrs : Dict Text (List Text)) (more : List Text)
    → (extra : List Text) × (values_of key (add_attrs attrs more) ≡ values_of key attrs ++ extra)
unfolding add_attrs
add_attrs_values key attrs [] = ([], rw append-nil refl)
add_attrs_values key attrs (field ∷ more) =
    let (extra, e) = add_attrs_values key (add_attr attrs field) more in
    let (first, f) = add_attr_values key field attrs in
    (first ++ extra, rw (e, f, append_assoc) refl)

pub record IsDirection ⦃ip : Netip⦄ (d : Direction) (src dst : Text) : Type 0 where
  pub src_written : is_empty d.src ≡ false
  pub dst_written : is_empty d.dst ≡ false
  pub src_normal : normalize_linux_conntrack_host d.src ≡ src
  pub dst_normal : normalize_linux_conntrack_host d.dst ≡ dst
  pub src_some : is_empty src ≡ false
  pub dst_some : is_empty dst ≡ false
  pub sport_fits : d.sport < 2 ^ 32
  pub dport_fits : d.dport < 2 ^ 32
  pub bytes_fits : d.bytes < 2 ^ 64

-- the attributes of both directions
abbrev pub flow_attrs : Direction → Direction → Dict Text (List Text)
flow_attrs o r =
    (codes "src", o.src ∷ r.src ∷ [])
    ∷ (codes "dst", o.dst ∷ r.dst ∷ [])
    ∷ (codes "sport", format_uint o.sport ∷ format_uint r.sport ∷ [])
    ∷ (codes "dport", format_uint o.dport ∷ format_uint r.dport ∷ [])
    ∷ (codes "packets", o.packets ∷ r.packets ∷ [])
    ∷ (codes "bytes", format_uint o.bytes ∷ format_uint r.bytes ∷ [])
    ∷ []

pub flow_attrs_lem :
    (o r : Direction) (rest : List Text)
    → add_attrs [] (direction_words o (direction_words r rest)) ≡ add_attrs (flow_attrs o r) rest
unfolding add_attrs lookup insert
flow_attrs_lem o r rest = refl

pub attr_of :
    (o r : Direction) (rest : List Text) (key first second : Text)
    → values_of key (flow_attrs o r) ≡ first ∷ second ∷ []
    → (linux_conntrack_attr (add_attrs (flow_attrs o r) rest) key 0 ≡ first)
      × (linux_conntrack_attr (add_attrs (flow_attrs o r) rest) key 1 ≡ second)
attr_of o r rest key first second h =
    let (extra, e) = add_attrs_values key (flow_attrs o r) rest in rw (e, h) (refl, refl)

module _ ⦃ip : Netip⦄ where
  abbrev pub tuple_of : Direction → Text → Text → FlowTuple
  tuple_of d src dst = record {
    src = src;
    dst = dst;
    sport = d.sport;
    dport = d.dport;
    bytes = d.bytes;
  }

  -- a tuple is read from the attributes with an index
  pub tuple_lem :
      (attrs : Dict Text (List Text)) (index : ℕ) (d : Direction) (src dst : Text)
      → IsDirection d src dst
      → linux_conntrack_attr attrs (codes "src") index ≡ d.src
      → linux_conntrack_attr attrs (codes "dst") index ≡ d.dst
      → linux_conntrack_attr attrs (codes "sport") index ≡ format_uint d.sport
      → linux_conntrack_attr attrs (codes "dport") index ≡ format_uint d.dport
      → linux_conntrack_attr attrs (codes "bytes") index ≡ format_uint d.bytes
      → parse_linux_conntrack_tuple attrs index ≡ some (tuple_of d src dst)
  unfolding parse_linux_conntrack_tuple
  tuple_lem attrs index d src dst i a b c e f =
      rw
        (
          parse_linux_conntrack_tuple,
          a,
          b,
          c,
          e,
          f,
          i.src_written,
          i.dst_written,
          format_uint-is_empty d.sport,
          format_uint-is_empty d.dport,
          format_uint-is_empty d.bytes,
          i.src_normal,
          i.dst_normal,
          i.src_some,
          i.dst_some,
          parse_uint-format_uint 32 d.sport i.sport_fits,
          parse_uint-format_uint 32 d.dport i.dport_fits,
          parse_uint-format_uint 64 d.bytes i.bytes_fits,
        )
        refl
