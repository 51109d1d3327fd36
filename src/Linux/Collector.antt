-- ===== src/Linux/Collector.antt =====
-- `collectNetworkSamples` of internal/watcher/network_linux.go. What `ss` prints, the lines of the
-- files of `conntrack`, and the processes with their connections come from outside.
pub mod Observed
use dialtone_watcher.Prelude.{
  ℕ, Bool, true, false, Option, none, some, List, [], ◌∷◌, Text, is_empty, ◌==◌, nat_eq, list_eq,
  if◌then◌else◌,
}
use dialtone_watcher.Prelude.Int.{ℤ}
use dialtone_watcher.Dict.{Dict, lookup, insert, insert_all, found_or}
use dialtone_watcher.Netip.{Netip}
use dialtone_watcher.Hosts.{normalize_resolved_host}
use dialtone_watcher.Network.{
  NetworkConnectionSample, NetworkObservation, infer_socket_protocol, sock_dgram,
}
use dialtone_watcher.Linux.Sockets.{linux_socket_key, parse_linux_socket_byte_samples}
use dialtone_watcher.Linux.Conntrack.{linux_flow_tuple_key, parse_linux_conntrack_samples}

-- `ConnectionStat` of gopsutil, as far as it is read
pub record Connection : Type 0 where
  pub fd : ℕ
  pub socket_type : ℕ
  pub local_host : Text
  pub local_port : ℕ
  pub remote_host : Text
  pub remote_port : ℕ

-- A process with its connections, which are `none` if they cannot be read.
pub record Peer : Type 0 where
  pub pid : ℤ
  pub connections : Option (List Connection)

abbrev pub no_sample : NetworkConnectionSample
no_sample = record { rx_bytes = 0; tx_bytes = 0 }

-- the key of a connection
unfoldable pub connection_key : ℤ → Connection → Text → Text
unfolding linux_socket_key
connection_key pid c host =
    linux_socket_key pid c.fd c.socket_type c.local_host c.local_port host c.remote_port

module _ ⦃ip : Netip⦄ where
  unfoldable pub collect_linux_socket_byte_samples : Option Text → Dict Text NetworkConnectionSample
  unfolding parse_linux_socket_byte_samples
  collect_linux_socket_byte_samples none = []
  collect_linux_socket_byte_samples (some output) = parse_linux_socket_byte_samples output

  -- The first file that can be opened and holds a sample; `none` is a file that cannot be opened.
  unfoldable pub collect_linux_udp_flow_samples :
      List (Option (List Text)) → Dict Text NetworkConnectionSample
  unfolding parse_linux_conntrack_samples insert_all
  collect_linux_udp_flow_samples [] = []
  collect_linux_udp_flow_samples (none ∷ files) = collect_linux_udp_flow_samples files
  collect_linux_udp_flow_samples (some lines ∷ files) = elim (parse_linux_conntrack_samples lines) [
    | [] ↦ collect_linux_udp_flow_samples files
    | parsed ↦ insert_all parsed []
  ]

  module _ (tcp udp : Dict Text NetworkConnectionSample) where
    unfoldable pub connection_sample : ℤ → Connection → Text → NetworkConnectionSample
    unfolding connection_key linux_flow_tuple_key
    connection_sample pid c host =
        if c.socket_type == sock_dgram
        then found_or
            (lookup
              (linux_flow_tuple_key c.socket_type c.local_host c.local_port host c.remote_port) udp)
            no_sample
        else found_or (lookup (connection_key pid c host) tcp) no_sample

    -- the body of the inner loop
    unfoldable pub add_connection :
        ℤ → Connection → Dict Text NetworkObservation → Dict Text NetworkObservation
    unfolding connection_key connection_sample
    add_connection pid c observations =
        let host = normalize_resolved_host c.remote_host in
        if is_empty host
        then observations
        else insert (connection_key pid c host)
            (record {
              pid = pid;
              domain = host;
              display_name = [];
              process_name = [];
              protocol = infer_socket_protocol c.socket_type c.remote_port;
              sample = connection_sample pid c host;
            })
            observations

    unfoldable pub add_connections :
        ℤ → List Connection → Dict Text NetworkObservation → Dict Text NetworkObservation
    unfolding add_connection
    add_connections pid [] observations = observations
    add_connections pid (c ∷ cs) observations =
        add_connections pid cs (add_connection pid c observations)

    unfoldable pub add_processes :
        List Peer → Dict Text NetworkObservation → Dict Text NetworkObservation
    unfolding add_connections
    add_processes [] observations = observations
    add_processes (peer ∷ peers) observations = add_processes peers (elim peer.connections [
      | none ↦ observations
      | some cs ↦ add_connections peer.pid cs observations
    ])

  unfoldable pub collect_network_samples :
      Option Text
      → List (Option (List Text))
      → Option (List Peer)
      → Option (Dict Text NetworkObservation)
  unfolding collect_linux_socket_byte_samples collect_linux_udp_flow_samples add_processes
  collect_network_samples output files none = none
  collect_network_samples output files (some peers) = some (
      add_processes (collect_linux_socket_byte_samples output)
        (collect_linux_udp_flow_samples files) peers [])
