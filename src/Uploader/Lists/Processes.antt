-- ===== src/Uploader/Lists/Processes.antt =====
-- `allUploadProcesses` of internal/watcher/upload.go against the records of its window.
use mathlib.Core.List.{Perm}
use dialtone_watcher.Prelude.{
  ◌≤◌, ◌⊎◌, Bool, true, not, ◌&&◌, is_empty, ltb, if◌then◌else◌, refl, ◌≡◌, false, Bool-cases, inl,
  inr, List, [], ◌∷◌, map, keep, All, arith, nat_eq, list_eq,
}
use dialtone_watcher.Prelude.Int.{ℤ}
use dialtone_watcher.Float.{Float64}
use dialtone_watcher.Dict.{Dict, values}
use dialtone_watcher.Sort.Ranked.{IsRanked, sort_slice-IsRanked}
use dialtone_watcher.Sort.Laws.{IsOrder, sort_slice-perm}
use dialtone_watcher.Sort.Keys.{IsKey, by_key-IsOrder, key-IsOrder, descending-IsKey}
use dialtone_watcher.Uploader.{ProcessUploadRecord}
use dialtone_watcher.Uploader.Lists.{
  process_before, is_uploaded_process, hide_command, all_upload_processes,
}

-- The averages of a record are no NaN.
abbrev pub HasAverages : {F : Type 0} ⦃fl : Float64 F⦄ → ProcessUploadRecord F → Type 0
HasAverages ⦃fl⦄ r = (fl.is_nan r.average_cpu ≡ false) × (fl.is_nan r.average_rss_mb ≡ false)

-- `a` may stand before `b`: its average CPU use is greater, or as great and its average memory is greater,
-- or as great and it was not seen in fewer polls.
abbrev pub ProcessAhead :
    {F : Type 0} ⦃fl : Float64 F⦄ → ProcessUploadRecord F → ProcessUploadRecord F → Type 0
ProcessAhead ⦃fl⦄ a b =
    (fl.flt b.average_cpu a.average_cpu ≡ true)
    ⊎ ((fl.feq a.average_cpu b.average_cpu ≡ true)
        × ((fl.flt b.average_rss_mb a.average_rss_mb ≡ true)
            ⊎ ((fl.feq a.average_rss_mb b.average_rss_mb ≡ true) × (b.polls_seen ≤ a.polls_seen))))

-- A process that has a name and was seen in a poll.
abbrev pub is_seen : {F : Type 0} → ProcessUploadRecord F → Bool
is_seen r = not (is_empty r.name) && ltb 0 r.polls_seen

-- The record of an upload has the command line if one was read, and else none.
abbrev pub with_command : {F : Type 0} → ProcessUploadRecord F → ProcessUploadRecord F
with_command r = record r { command = if r.command_present then r.command else [] }

module _ {F : Type 0} ⦃fl : Float64 F⦄ where
  average-IsKey :
      (f : ProcessUploadRecord F → F)
      → ((r : ProcessUploadRecord F) → HasAverages r → fl.is_nan (f r) ≡ false)
      → IsKey (HasAverages {F = F}) (λ a b. fl.feq (f a) (f b)) (λ a b. fl.flt (f b) (f a))
  average-IsKey f number = record {
    asymm = λ a b p q h. fl.flt_asymm (f b) (f a) (number b q) (number a p) h;
    trans = λ a b c p q r h g.
        fl.flt_trans (f a) (f b) (f c) (number a p) (number b q) (number c r) h g;
    tie_iff = λ a b p q. ground (arith, fl.feq_iff (f a) (f b) (number a p) (number b q));
  }

  process_before-IsOrder : IsOrder (HasAverages {F = F}) process_before
  process_before-IsOrder =
      by_key-IsOrder HasAverages _ _ (average-IsKey (λ r. r.average_cpu) (λ r h. h.0)) _ (
        by_key-IsOrder HasAverages _ _ (average-IsKey (λ r. r.average_rss_mb) (λ r h. h.1)) _
          (key-IsOrder HasAverages _ _ (descending-IsKey HasAverages (λ r. r.polls_seen))))

  hide_command-HasAverages :
      (r : ProcessUploadRecord F) → HasAverages r → HasAverages (hide_command r)
  hide_command-HasAverages r h = elim (Bool-cases r.command_present) [
    | inl shown ↦ rw shown h
    | inr hidden ↦ rw hidden h
  ]

  listed-HasAverages :
      (rs : List (ProcessUploadRecord F))
      → All HasAverages rs
      → All HasAverages (map hide_command (keep is_uploaded_process rs))
  listed-HasAverages [] h = tt
  listed-HasAverages (r ∷ rs) (hr, h) = elim (Bool-cases (is_uploaded_process r)) [
    | inl listed ↦ rw listed (hide_command-HasAverages r hr, listed-HasAverages rs h)
    | inr left_out ↦ rw left_out (listed-HasAverages rs h)
  ]

  process_before-Ahead :
      (a b : ProcessUploadRecord F)
      → HasAverages a
      → HasAverages b
      → process_before b a ≡ false
      → ProcessAhead a b
  process_before-Ahead a b (p, q) (r, t) h = ground (
    arith,
    h,
    fl.feq_iff a.average_cpu b.average_cpu p r,
    fl.feq_iff b.average_cpu a.average_cpu r p,
    fl.feq_iff a.average_rss_mb b.average_rss_mb q t,
    fl.feq_iff b.average_rss_mb a.average_rss_mb t q,
  )

  hide_command_lem : (r : ProcessUploadRecord F) → hide_command r ≡ with_command r
  hide_command_lem r = elim (Bool-cases r.command_present) [
    | inl shown ↦ rw shown refl
    | inr hidden ↦ rw hidden refl
  ]

  listed_lem :
      (rs : List (ProcessUploadRecord F))
      → map hide_command (keep is_uploaded_process rs) ≡ map with_command (keep is_seen rs)
  listed_lem [] = refl
  listed_lem (r ∷ rs) =
      let same : is_uploaded_process r ≡ is_seen r = ground arith in
      elim (Bool-cases (is_uploaded_process r)) [
        | inl listed ↦ rw (← same, listed, hide_command_lem r, listed_lem rs) refl
        | inr left_out ↦ rw (← same, left_out, listed_lem rs) refl
      ]

  -- The processes of an upload, if no average is a NaN, are exactly the recorded ones that have a name
  -- and were seen in a poll, each as often as recorded and without a command line if none was read, by
  -- descending average CPU use, then memory, then polls seen.
  pub all_upload_processes_lem :
      (records : Dict ℤ (ProcessUploadRecord F))
      → All HasAverages (values records)
      → Perm (all_upload_processes records) (map with_command (keep is_seen (values records)))
        × IsRanked ProcessAhead (all_upload_processes records)
  unfolding all_upload_processes
  all_upload_processes_lem records h =
      let listed = map hide_command (keep is_uploaded_process (values records)) in
      (
        rw (← listed_lem (values records)) (sort_slice-perm process_before listed),
        sort_slice-IsRanked HasAverages process_before ProcessAhead process_before-Ahead
            process_before-IsOrder listed (listed-HasAverages (values records) h),
      )
