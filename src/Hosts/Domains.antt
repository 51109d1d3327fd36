-- ===== src/Hosts/Domains.antt =====
-- `registrableDomain` and `parsePTROutput` of internal/watcher/resolver.go.
pub mod Laws
use dialtone_watcher.Prelude.{
  ℕ, ◌-◌, Bool, true, false, ◌&&◌, ◌||◌, Option, none, some, List, [], ◌∷◌, ◌++◌, Text, codes,
  is_empty, ◌==◌, nat_eq, list_eq, if◌then◌else◌, length, drop, leb,
}
use dialtone_watcher.Strings.Parts.{split, join}
use dialtone_watcher.Strings.{trim_space, cut_prefix}
use dialtone_watcher.Netip.{Netip}
use dialtone_watcher.Hosts.{normalize_resolved_host}

-- What is behind the last `needle` in a text, from the result of `strings.LastIndex`.
unfoldable pub behind_last : Text → Text → Option Text
unfolding cut_prefix
behind_last needle [] = cut_prefix [] needle
behind_last needle (c ∷ s) =
    let rest = behind_last needle s in
    elim rest [ none ↦ cut_prefix (c ∷ s) needle | some behind ↦ some behind ]

-- the labels in the `switch`
abbrev pub is_second_level : Text → Bool
is_second_level label =
    label == codes "ac"
    || (label == codes "co"
        || (label == codes "com"
            || (label == codes "edu"
                || (label == codes "gov" || (label == codes "net" || label == codes "org")))))

-- the test on the last two labels
abbrev pub is_country_domain : List Text → Bool
is_country_domain (second_last ∷ last ∷ []) = length last == 2 && is_second_level second_last
is_country_domain _ = false

-- `labels[len(labels)-n:]`
abbrev pub last_labels : ℕ → List Text → List Text
last_labels n labels = drop (length labels - n) labels

-- the part behind `normalizeResolvedHost`
unfoldable pub shorten : Text → Text
unfolding split join
shorten host =
    let labels = split b'.' host in
    if leb (length labels) 2
    then host
    else if is_country_domain (last_labels 2 labels)
    then join b'.' (last_labels 3 labels)
    else join b'.' (last_labels 2 labels)

-- the part of a line that names the host
unfoldable pub ptr_target : Text → Text
unfolding behind_last
ptr_target line = elim (behind_last (codes "pointer") line) [
  | none ↦ line
  | some behind ↦ trim_space behind
]

module _ ⦃ip : Netip⦄ where
  unfoldable pub registrable_domain : Text → Text
  unfolding shorten
  registrable_domain host =
      let normal = normalize_resolved_host host in if is_empty normal then [] else shorten normal

  -- the loop over the lines
  unfoldable pub parse_ptr_lines : List Text → Text
  unfolding ptr_target
  parse_ptr_lines [] = []
  parse_ptr_lines (line ∷ lines) =
      let rest = parse_ptr_lines lines in
      let trimmed = trim_space line in
      let host = normalize_resolved_host (ptr_target trimmed) in
      if is_empty trimmed then rest else if is_empty host then rest else host

  unfoldable pub parse_ptr_output : Text → Text
  unfolding parse_ptr_lines split
  parse_ptr_output raw = parse_ptr_lines (split b'\n' raw)
