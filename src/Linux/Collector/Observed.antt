-- ===== src/Linux/Collector/Observed.antt =====
-- `collectNetworkSamples` of internal/watcher/network_linux.go and the connections that are listed.
use dialtone_watcher.Prelude.{
  false, Option, none, some, List, [], ◌∷◌, ◌++◌, ◌≡◌, Text, is_empty, ◌==◌, nat_eq, list_eq,
  if◌then◌else◌, Bool-cases, Option-cases, inl, inr, arith, All,
}
use dialtone_watcher.Prelude.Int.{ℤ}
use dialtone_watcher.Dict.{Dict, IsDict}
use dialtone_watcher.Dict.Laws.{insert-IsDict, AllEntries, insert-AllEntries}
use dialtone_watcher.Netip.{Netip}
use dialtone_watcher.Hosts.{normalize_resolved_host}
use dialtone_watcher.Hosts.Private.{IsReportable, normalize_resolved_host-IsReportable}
use dialtone_watcher.Network.{NetworkConnectionSample, NetworkObservation, infer_socket_protocol}
use dialtone_watcher.Linux.Collector.{
  Connection, Peer, connection_key, connection_sample, add_connection, add_connections,
  add_processes, collect_network_samples, collect_linux_socket_byte_samples,
  collect_linux_udp_flow_samples,
}

-- the connections that could be read, each with its process
abbrev connections_of : ℤ → List Connection → List (ℤ × Connection)
connections_of pid [] = []
connections_of pid (c ∷ cs) = (pid, c) ∷ connections_of pid cs

abbrev pub listed : List Peer → List (ℤ × Connection)
listed [] = []
listed (peer ∷ peers) = elim peer.connections [
  | none ↦ listed peers
  | some cs ↦ connections_of peer.pid cs ++ listed peers
]

abbrev pub or_else :
    Option NetworkObservation → Option NetworkObservation → Option NetworkObservation
or_else none o = o
or_else (some x) o = some x

module _ ⦃ip : Netip⦄ (tcp udp : Dict Text NetworkConnectionSample) where
  -- what is observed of a connection to a host
  abbrev pub observation : ℤ → Connection → NetworkObservation
  observation pid c =
      let host = normalize_resolved_host c.remote_host in
      record {
        pid = pid;
        domain = host;
        display_name = [];
        process_name = [];
        protocol = infer_socket_protocol c.socket_type c.remote_port;
        sample = connection_sample tcp udp pid c host;
      }

  -- what one connection says of a key
  abbrev pub seen : Text → ℤ × Connection → Option NetworkObservation
  seen key (pid, c) =
      let host = normalize_resolved_host c.remote_host in
      if is_empty host
      then none
      else if connection_key pid c host == key
      then some (observation pid c)
      else none

  -- what the last connection with a key says of it
  abbrev pub last_seen : Text → List (ℤ × Connection) → Option NetworkObservation
  last_seen key [] = none
  last_seen key (c ∷ cs) = or_else (last_seen key cs) (seen key c)

  -- A domain that an observation may have.
  abbrev pub IsObserved : Text → NetworkObservation → Type 0
  IsObserved key o = (is_empty o.domain ≡ false) × IsReportable o.domain

  abbrev IsTable : Dict Text NetworkObservation → Type 0
  IsTable m = IsDict m × AllEntries IsObserved m

  add_connection-IsTable :
      (pid : ℤ) (c : Connection) (m : Dict Text NetworkObservation)
      → IsTable m
      → IsTable (add_connection tcp udp pid c m)
  unfolding add_connection
  add_connection-IsTable pid c m (d, a) =
      let host = normalize_resolved_host c.remote_host in
      let own = connection_key pid c host in
      elim (Bool-cases (is_empty host)) [
        | inl e ↦ rw (add_connection, e) (d, a)
        | inr e ↦
            rw (add_connection, e)
              (
                insert-IsDict own (observation pid c) m d,
                insert-AllEntries IsObserved own (observation pid c) m
                    (e, normalize_resolved_host-IsReportable c.remote_host) a,
              )
      ]

  add_connections-IsTable :
      (pid : ℤ) (cs : List Connection) (m : Dict Text NetworkObservation)
      → IsTable m
      → IsTable (add_connections tcp udp pid cs m)
  unfolding add_connections
  add_connections-IsTable pid [] m t = t
  add_connections-IsTable pid (c ∷ cs) m t =
      add_connections-IsTable pid cs (add_connection tcp udp pid c m)
        (add_connection-IsTable pid c m t)

  add_processes-IsTable :
      (peers : List Peer) (m : Dict Text NetworkObservation)
      → IsTable m
      → IsTable (add_processes tcp udp peers m)
  unfolding add_processes
  add_processes-IsTable [] m t = t
  add_processes-IsTable (peer ∷ peers) m t = elim (Option-cases peer.connections) [
    | inl e ↦ rw (e) (add_processes-IsTable peers m t)
    | inr (cs, e) ↦ rw (e) (
        add_processes-IsTable peers (add_connections tcp udp peer.pid cs m)
          (add_connections-IsTable peer.pid cs m t))
  ]

module _ ⦃ip : Netip⦄ where
  -- The observations stand under different keys, and the domain of each is not empty and is no
  -- address of a private or special range.
  pub collect_network_samples-IsTable :
      (output : Option Text) (files : List (Option (List Text))) (peers : List Peer)
      (observations : Dict Text NetworkObservation)
      → collect_network_samples output files (some peers) ≡ some observations
      → IsDict observations
        × All
            (λ (e : Text × NetworkObservation).
              (is_empty e.1.domain ≡ false) × IsReportable e.1.domain)
            observations
  unfolding collect_network_samples
  collect_network_samples-IsTable output files peers observations e =
      let tcp = collect_linux_socket_byte_samples output in
      let udp = collect_linux_udp_flow_samples files in
      let out : add_processes tcp udp peers [] ≡ observations = ground (arith, e) in
      rw (← out) (add_processes-IsTable tcp udp peers [] (tt, tt))
