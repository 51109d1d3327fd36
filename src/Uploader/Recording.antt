-- ===== src/Uploader/Recording.antt =====
-- How an upload window takes up a poll: `recordProcesses`, `recordNetwork`, `incrementPoll`,
-- `shouldUpload`, `ensureWindow` and `resetWindow` of internal/watcher/upload.go.
use dialtone_watcher.Prelude.{
  ℕ, Bool, true, false, ◌||◌, [], ◌∷◌, Text, is_empty, ltb, nat_beq, nat_eq, list_eq, if◌then◌else◌,
  length,
}
use dialtone_watcher.Prelude.Int.{ℤ, int_eq, leb_ℤ}
use dialtone_watcher.Words.{add64}
use dialtone_watcher.Clock.{Time, is_zero, sub}
use dialtone_watcher.Float.{Float64}
use dialtone_watcher.Dict.{Dict, lookup, insert, found_or}
use dialtone_watcher.Records.{ProcessRecord}
use dialtone_watcher.Network.{NetworkObservation, observed_connection_key}
use dialtone_watcher.Uploader.{
  ProcessUploadRecord, DomainUploadRecord, ConnectionUploadRecord, UploadWindow, Uploader,
  empty_window,
}

-- The records that the loops add, before they count the poll.
unfoldable pub fresh_domain : Text → DomainUploadRecord
fresh_domain domain = record {
  domain = domain;
  display_name = [];
  rx_bytes = 0;
  tx_bytes = 0;
  polls_seen = 0;
}

unfoldable pub fresh_connection : NetworkObservation → ConnectionUploadRecord
fresh_connection o = record {
  pid = o.pid;
  process_name = [];
  domain = o.domain;
  display_name = [];
  protocol = o.protocol;
  rx_bytes = 0;
  tx_bytes = 0;
  polls_seen = 0;
}

unfoldable pub count_domain : NetworkObservation → ℕ → ℕ → DomainUploadRecord → DomainUploadRecord
count_domain o rx tx d = record d {
  display_name = o.display_name;
  rx_bytes = add64 d.rx_bytes rx;
  tx_bytes = add64 d.tx_bytes tx;
  polls_seen = add64 d.polls_seen 1;
}

unfoldable pub count_connection :
    NetworkObservation → ℕ → ℕ → ConnectionUploadRecord → ConnectionUploadRecord
count_connection o rx tx c = record c {
  process_name = o.process_name;
  display_name = o.display_name;
  rx_bytes = add64 c.rx_bytes rx;
  tx_bytes = add64 c.tx_bytes tx;
  polls_seen = add64 c.polls_seen 1;
}

module _ {F : Type 0} where
  unfoldable pub ensure_window : Time → UploadWindow F → UploadWindow F
  ensure_window now w = if is_zero w.started_at then empty_window now else w

  unfoldable pub reset_window : Time → Uploader F → Uploader F
  reset_window now u = record u { window = empty_window now }

  unfoldable pub increment_poll : Time → Uploader F → Uploader F
  increment_poll now u =
      let w = ensure_window now u.window in
      record u { window = record w { polls = add64 w.polls 1 } }

  -- the body of `recordNetwork` behind `ensureWindow`
  unfoldable pub count_network :
      NetworkObservation → ℕ → ℕ → ℕ → ℕ → UploadWindow F → UploadWindow F
  unfolding fresh_domain fresh_connection count_domain count_connection
  count_network o rx tx tracked_domains tracked_connections w =
      let key = observed_connection_key o in
      let domain = found_or (lookup o.domain w.domains) (fresh_domain o.domain) in
      let connection = found_or (lookup key w.connections) (fresh_connection o) in
      record w {
        total_rx_bytes = add64 w.total_rx_bytes rx;
        total_tx_bytes = add64 w.total_tx_bytes tx;
        domains = insert o.domain (count_domain o rx tx domain) w.domains;
        connections = insert key (count_connection o rx tx connection) w.connections;
        max_tracked_domains =
            if ltb w.max_tracked_domains tracked_domains
            then tracked_domains
            else w.max_tracked_domains;
        max_tracked_connections =
            if ltb w.max_tracked_connections tracked_connections
            then tracked_connections
            else w.max_tracked_connections;
      }

  unfoldable pub record_network :
      Time → NetworkObservation → ℕ → ℕ → ℕ → ℕ → Uploader F → Uploader F
  unfolding count_network ensure_window
  record_network now o rx tx tracked_domains tracked_connections u = record u {
    window = count_network o rx tx tracked_domains tracked_connections (ensure_window now u.window);
  }

  unfoldable pub should_upload : Time → Uploader F → Bool
  should_upload now u =
      if is_zero u.window.started_at || nat_beq u.window.polls 0
      then false
      else leb_ℤ u.config.interval (sub now u.window.started_at)

module _ {F : Type 0} ⦃fl : Float64 F⦄ where
  open fl use {fzero, fadd, fdiv, flt, from_uint}

  unfoldable pub fresh_process : ProcessRecord F → ProcessUploadRecord F
  fresh_process r = record {
    pid = r.pid;
    name = r.name;
    command = [];
    average_cpu = fzero;
    peak_cpu = fzero;
    average_rss_mb = fzero;
    peak_rss_mb = fzero;
    polls_seen = 0;
    command_present = false;
    cpu_total = fzero;
    rss_total = fzero;
  }

  -- the body of the loop of `recordProcesses` from `current.Name = record.Name` on
  unfoldable pub count_process : ProcessRecord F → ProcessUploadRecord F → ProcessUploadRecord F
  count_process r c =
      let seen = add64 c.polls_seen 1 in
      let cpu = fadd c.cpu_total r.cpu_percent in
      let rss = fadd c.rss_total r.memory_rss_mb in
      record c {
        name = r.name;
        command = if is_empty r.command then c.command else r.command;
        command_present = if is_empty r.command then c.command_present else true;
        cpu_total = cpu;
        rss_total = rss;
        polls_seen = seen;
        average_cpu = fdiv cpu (from_uint seen);
        average_rss_mb = fdiv rss (from_uint seen);
        peak_cpu = if flt c.peak_cpu r.cpu_percent then r.cpu_percent else c.peak_cpu;
        peak_rss_mb = if flt c.peak_rss_mb r.memory_rss_mb then r.memory_rss_mb else c.peak_rss_mb;
      }

  unfoldable pub count_processes :
      Dict ℤ (ProcessRecord F) → Dict ℤ (ProcessUploadRecord F) → Dict ℤ (ProcessUploadRecord F)
  unfolding fresh_process count_process
  count_processes [] processes = processes
  count_processes ((pid, r) ∷ pids) processes =
      let current = found_or (lookup pid processes) (fresh_process r) in
      count_processes pids (insert pid (count_process r current) processes)

  unfoldable pub record_processes : Time → Dict ℤ (ProcessRecord F) → Uploader F → Uploader F
  unfolding count_processes ensure_window
  record_processes now pids u =
      let w = ensure_window now u.window in
      record u {
        window = record w {
          processes = count_processes pids w.processes;
          max_tracked_processes =
              if ltb w.max_tracked_processes (length pids)
              then length pids
              else w.max_tracked_processes;
        };
      }
