-- ===== src/Darwin/Tables.antt =====
-- `collectNetworkSamples` of internal/watcher/network_darwin.go: what stands in its table.
use dialtone_watcher.Prelude.{
  not, length, eq_iff, codes, ◌==◌, ◌||◌, ℕ, false, Option, none, some, List, [], ◌∷◌, ◌≡◌, ◌≢◌,
  Text, is_empty, nat_eq, list_eq, All, Bool-cases, Option-cases, inl, inr, arith,
}
use dialtone_watcher.Prelude.Int.{int_eq, ℤ, pos}
use dialtone_watcher.Dict.{Dict, IsDict}
use dialtone_watcher.Dict.Laws.{insert-IsDict, insert-AllEntries, AllEntries}
use dialtone_watcher.Netip.{Netip}
use dialtone_watcher.Network.{NetworkObservation}
use dialtone_watcher.Strings.Parts.{cut_at, cut, contains_text}
use dialtone_watcher.Darwin.{
  cut_at, contains_text, not, length, ltb, codes, NetworkConnectionSample, trim_space, ℕ,
  parse_process_row, parse_connection_row, read_row, read_record, read_records,
  collect_network_samples, normalize_remote_host,
}
use dialtone_watcher.Darwin.Remotes.{IsRemote, normalize_remote_host-IsRemote}

module _ ⦃ip : Netip⦄ where
  -- an observation of a process, with a domain to report
  abbrev pub IsObserved : Text → NetworkObservation → Type 0
  IsObserved key o = (o.pid ≢ pos 0) × (is_empty o.domain ≡ false) × IsRemote o.domain

  abbrev IsTable : Dict Text NetworkObservation → Type 0
  IsTable m = IsDict m × AllEntries IsObserved m

  abbrev IsRow : Option (Text × (ℕ × NetworkConnectionSample)) → Type 0
  IsRow none = Unit
  IsRow (some (domain, _)) = (is_empty domain ≡ false) × IsRemote domain

  parse_connection_row-IsRow :
      (row : Text) (cells : List Text) → IsRow (parse_connection_row row cells)
  unfolding parse_connection_row
  parse_connection_row-IsRow row cells =
      elim (Bool-cases (ltb (length cells) 4 || not (contains_text row (codes "<->")))) [
        | inl g ↦ rw (parse_connection_row, g) tt
        | inr g ↦ elim (Option-cases (cut_at (λ c. c == b' ') row)) [
          | inl c ↦ rw (parse_connection_row, g, c) tt
          | inr ((_, ends), c) ↦ elim (Option-cases (cut (codes "<->") ends)) [
            | inl f ↦ rw (parse_connection_row, g, c, f) tt
            | inr ((_, endpoint), f) ↦
                elim (Bool-cases (is_empty (normalize_remote_host endpoint))) [
                  | inl h ↦ rw (parse_connection_row, g, c, f, h) tt
                  | inr h ↦
                      rw (parse_connection_row, g, c, f, h)
                        (h, normalize_remote_host-IsRemote endpoint)
                ]
          ]
        ]
      ]

  found-IsRow :
      (row : Text) (cells : List Text) (o : Option (Text × (ℕ × NetworkConnectionSample)))
      → parse_connection_row row cells ≡ o
      → IsRow o
  found-IsRow row cells o e = rw (← e) (parse_connection_row-IsRow row cells)

  read_row-IsTable :
      (row : Text) (cells : List Text) (current : ℤ) (m : Dict Text NetworkObservation)
      → IsTable m
      → IsTable ((read_row row cells (current, m)).1)
  unfolding read_row
  read_row-IsTable row cells current m (d, a) = elim (Option-cases (parse_process_row row)) [
    | inr (pid, e) ↦ rw (read_row, e) (d, a)
    | inl e ↦ elim (Bool-cases (current == pos 0)) [
      | inl f ↦ rw (read_row, e, f) (d, a)
      | inr f ↦ elim (Option-cases (parse_connection_row row cells)) [
        | inl g ↦ rw (read_row, e, f, g) (d, a)
        | inr ((domain, (port, sample)), g) ↦
            let (named, remote) = found-IsRow row cells (some (domain, (port, sample))) g in
            rw (read_row, e, f, g)
              (
                insert-IsDict _ _ m d,
                insert-AllEntries IsObserved _ _ m
                    (λ z. ground (arith, f, z, eq_iff current (pos 0)), named, remote) a,
              )
      ]
    ]
  ]

  read_record-IsTable :
      (cells : List Text) (s : ℤ × Dict Text NetworkObservation)
      → IsTable (s.1)
      → IsTable ((read_record cells s).1)
  unfolding read_record
  read_record-IsTable [] s t = t
  read_record-IsTable (cell ∷ cells) (current, m) t =
      let row = trim_space cell in
      elim (Bool-cases (is_empty row || row == codes "state")) [
        | inl e ↦ rw (read_record, e) t
        | inr e ↦ rw (read_record, e) (read_row-IsTable row (cell ∷ cells) current m t)
      ]

  read_records-IsTable :
      (records : List (Option (List Text))) (s : ℤ × Dict Text NetworkObservation)
      (observations : Dict Text NetworkObservation)
      → IsTable (s.1)
      → read_records records s ≡ some observations
      → IsTable observations
  unfolding read_records
  read_records-IsTable [] (current, m) observations t e =
      let same : m ≡ observations = ground (arith, e) in rw (← same) t
  read_records-IsTable (none ∷ records) s observations t e = absurd (ground (arith, e))
  read_records-IsTable (some r ∷ records) s observations t e =
      read_records-IsTable records (read_record r s) observations (read_record-IsTable r s t) e

  -- The observations stand under different keys, each of a process whose number is not zero, and with
  -- a domain that is a public address or a name that is no IP address, no four numbers with dots, and none of
  -- `localhost` and `*`.
  pub collect_network_samples-IsTable_darwin :
      (records : List (Option (List Text))) (observations : Dict Text NetworkObservation)
      → collect_network_samples (some records) ≡ some observations
      → IsDict observations
        × All
            (λ (e : Text × NetworkObservation).
              (e.1.pid ≢ pos 0) × (is_empty e.1.domain ≡ false) × IsRemote e.1.domain)
            observations
  unfolding collect_network_samples
  collect_network_samples-IsTable_darwin records observations e =
      read_records-IsTable records (pos 0, []) observations (tt, tt) e
