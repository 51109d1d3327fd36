-- ===== src/Cli/Print.antt =====
-- `printSummary`, `printHelp` and `printMachineID` of main.go, as the lines that they print.
pub mod Laws
use dialtone_watcher.Prelude.{
  ℕ, suc, ◌+◌, Bool, true, false, ◌&&◌, Option, none, some, ◌>>=◌, List, [], ◌∷◌, ◌++◌, Text, codes,
  is_empty, ltb, if◌then◌else◌,
}
use dialtone_watcher.Prelude.Int.{ℤ, pos, ltb_ℤ}
use dialtone_watcher.Decimal.{format_uint, format_int}
use dialtone_watcher.Float.{Float64}
use dialtone_watcher.Records.{
  ProcessSnapshot, DomainSnapshot, ConnectionSnapshot, HardwareProfile, Summary,
}
use dialtone_watcher.Cli.{Shown, plain, scaled, format_bytes}

unfoldable pub print_help : List Text
print_help =
    codes "dialtone-watcher"
    ∷ []
    ∷ codes "Usage:"
    ∷ codes "  ./dialtone-watcher start"
    ∷ codes "  ./dialtone-watcher stop"
    ∷ codes "  ./dialtone-watcher summary"
    ∷ codes "  ./dialtone-watcher help"
    ∷ []
    ∷ codes "Commands:"
    ∷ codes "  start    start the background process watcher"
    ∷ codes "  stop     stop the background process watcher"
    ∷ codes "  summary  print watcher poll counts and a compact runtime summary"
    ∷ codes "  help     print this menu"
    ∷ []

unfoldable pub print_machine_id : Text → Text → List Text
print_machine_id machine_id machine_id_path =
    (codes "Machine ID: " ++ machine_id) ∷ (codes "Machine ID File: " ++ machine_id_path) ∷ [] ∷ []

-- the label of a domain or of a connection
unfoldable pub label_of : Text → Text → Text
label_of display_name domain =
    if is_empty display_name then domain else display_name ++ (codes " ip=" ++ domain)

unfoldable pub print_bool : Bool → Text
print_bool true = codes "true"
print_bool false = codes "false"

-- `format_float d` is the verb `%.<d>f`.
module _ {F : Type 0} ⦃fl : Float64 F⦄ (format_float : ℕ → F → Text) where
  -- the text of `formatBytes`
  unfoldable pub print_bytes : Shown → Text
  unfolding format_uint
  print_bytes (plain value) = format_uint value ++ codes " B"
  print_bytes (scaled value divisor letter) =
      format_float 1 (fl.fdiv (fl.from_uint value) (fl.from_uint divisor))
      ++ (b' ' ∷ letter ∷ codes "iB")

  unfoldable pub process_line : ℕ → ProcessSnapshot F → Text
  unfolding format_uint format_int
  process_line i p =
      codes "  "
      ++ (format_uint (i + 1)
          ++ (codes ". pid="
              ++ (format_int p.pid
                  ++ (codes " name="
                      ++ (p.name
                          ++ (codes " cpu="
                              ++ (format_float 2 p.cpu_percent
                                  ++ (codes "% rss="
                                      ++ (format_float 1 p.memory_rss_mb
                                          ++ (codes " MB seen="
                                              ++ (format_uint p.polls_seen
                                                  ++ codes " polls")))))))))))

  -- the end of the lines of domains and connections
  unfoldable pub traffic_text : Text → Shown → Shown → ℕ → Text
  unfolding print_bytes format_uint
  traffic_text label rx tx polls_seen =
      codes "domain="
      ++ (label
          ++ (codes " rx="
              ++ (print_bytes rx
                  ++ (codes " tx="
                      ++ (print_bytes tx
                          ++ (codes " seen=" ++ (format_uint polls_seen ++ codes " polls")))))))

  -- `none` is the panic of `formatBytes`
  unfoldable pub domain_line : ℕ → DomainSnapshot → Option Text
  unfolding traffic_text label_of format_bytes format_uint
  domain_line i d = do
    rx ← format_bytes d.rx_bytes
    tx ← format_bytes d.tx_bytes
    some (
        codes "  "
        ++ (format_uint (i + 1)
            ++ (codes ". " ++ traffic_text (label_of d.display_name d.domain) rx tx d.polls_seen)))

  unfoldable pub connection_line : ℕ → ConnectionSnapshot → Option Text
  unfolding traffic_text label_of format_bytes format_uint format_int
  connection_line i c = do
    let process_name = if is_empty c.process_name then codes "unknown" else c.process_name
    rx ← format_bytes c.rx_bytes
    tx ← format_bytes c.tx_bytes
    some (
        codes "  "
        ++ (format_uint (i + 1)
            ++ (codes ". pid="
                ++ (format_int c.pid
                    ++ (codes " name="
                        ++ (process_name
                            ++ (codes " protocol="
                                ++ (c.protocol
                                    ++ b' '
                                      ∷ traffic_text (label_of c.display_name c.domain) rx tx
                                          c.polls_seen))))))))

  unfoldable pub process_lines : ℕ → List (ProcessSnapshot F) → List Text
  unfolding process_line
  process_lines i [] = []
  process_lines i (p ∷ ps) = process_line i p ∷ process_lines (suc i) ps

  -- the loops over the domains and the connections
  unfoldable pub lines_from : {A : Type 0} → (ℕ → A → Option Text) → ℕ → List A → Option (List Text)
  lines_from line i [] = some []
  lines_from line i (x ∷ xs) = do
    first ← line i x
    rest ← lines_from line (suc i) xs
    some (first ∷ rest)

  -- a title and the lines below it, or the sentence for an empty list
  abbrev pub titled : Text → List Text → List Text
  titled title [] = (title ++ codes " none recorded yet") ∷ []
  titled title (line ∷ lines) = title ∷ line ∷ lines

  abbrev pub shown_processes : Summary F → List (ProcessSnapshot F)
  shown_processes s = elim s.top_processes [
    | [] ↦ if ltb_ℤ (pos 0) s.top_process.pid then s.top_process ∷ [] else []
    | p ∷ ps ↦ p ∷ ps
  ]

  unfoldable pub hardware_line : HardwareProfile F → Text
  unfolding format_int
  hardware_line h =
      codes "Hardware: "
      ++ (h.hostname
          ++ (codes " on "
              ++ (h.platform
                  ++ (codes " ("
                      ++ (h.cpu_model
                          ++ (codes ", "
                              ++ (format_float 1 h.total_memory_gb
                                  ++ (codes " GB RAM, "
                                      ++ (format_int h.cpu_logical_cores
                                          ++ codes " logical cores)")))))))))

  unfoldable pub head_lines : Summary F → List Text
  unfolding format_uint format_int print_bool hardware_line
  head_lines s =
      let pid_line =
        if ltb_ℤ (pos 0) s.pid then (codes "Watcher pid: " ++ format_int s.pid) ∷ [] else [] in
      (codes "Watcher running: " ++ print_bool s.running)
      ∷ (pid_line
          ++ (codes "Polls completed: " ++ format_uint s.poll_count)
            ∷ (codes "Tracked processes: " ++ format_uint s.tracked_process_count)
            ∷ (codes "Tracked domains: " ++ format_uint s.tracked_domain_count)
            ∷ (codes "Tracked connections: " ++ format_uint s.tracked_connection_count)
            ∷ hardware_line s.hardware
            ∷ [])

  -- what is printed of a summary that was loaded
  unfoldable pub summary_lines : Summary F → Option (List Text)
  unfolding head_lines process_lines lines_from domain_line connection_line
  summary_lines s = do
    domains ← lines_from domain_line 0 s.top_domains
    connections ← lines_from connection_line 0 s.top_connections
    some (
        head_lines s
        ++ (titled (codes "Interesting processes:") (process_lines 0 (shown_processes s))
            ++ (titled (codes "Interesting domains:") domains
                ++ titled (codes "Interesting connections:") connections)))
