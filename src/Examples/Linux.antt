-- ===== src/Examples/Linux.antt =====
-- The theorems about the collector of Linux.
use dialtone_watcher.Strings.{trim_space}
use dialtone_watcher.Strings.Parts.{fields}
use dialtone_watcher.Decimal.{format_uint}
use dialtone_watcher.Prelude.{nat_eq, list_eq, ◌≡◌, refl, some, [], ◌∷◌, codes, arith, Text, List}
use dialtone_watcher.Prelude.Int.{pos}
use dialtone_watcher.Dict.{Dict, lookup}
use dialtone_watcher.Network.{NetworkObservation}
use dialtone_watcher.Linux.Sockets.{parse_linux_socket_endpoint}
use dialtone_watcher.Linux.Sockets.PlainHosts.{IsPlain}
use dialtone_watcher.Linux.Sockets.Endpoints.{parse_linux_socket_endpoint_lem}
use dialtone_watcher.Linux.Sockets.Holders.{Holder}
use dialtone_watcher.Linux.Conntrack.{
  normalize_linux_conntrack_host, linux_flow_tuple_key, parse_linux_conntrack_line,
}
use dialtone_watcher.Linux.Conntrack.Attributes.{Direction, IsDirection}
use dialtone_watcher.Linux.Conntrack.Flows.{plain, parse_linux_conntrack_line_lem}
use dialtone_watcher.Linux.Collector.{Connection, Peer}
use dialtone_watcher.Examples.Parameters.{sites}

abbrev site : Text
site = codes "1.1"

site-IsPlain : IsPlain site
site-IsPlain = record { bytes = ground arith; named = refl; no_star = ground arith }

parse_linux_socket_endpoint_lem_example :
    (parse_linux_socket_endpoint (codes "1.1:22") ≡ some (codes "1.1", 22))
    × (parse_linux_socket_endpoint (codes "1.1%lo:22") ≡ some (codes "1.1", 22))
    × (parse_linux_socket_endpoint (codes "[1.1]:22") ≡ some (codes "1.1", 22))
    × (parse_linux_socket_endpoint (codes "[1.1]%lo:22") ≡ some (codes "1.1]", 22))
unfolding format_uint
parse_linux_socket_endpoint_lem_example =
    parse_linux_socket_endpoint_lem site (codes "lo") 22 site-IsPlain (ground arith) (omega arith)

abbrev ssh : Holder
ssh = record { name = codes "ssh"; pid = 12; fd = 3 }

abbrev sshd : Holder
sshd = record { name = codes "sshd"; pid = 13; fd = 4 }

abbrev asked : Direction
asked = record {
  src = codes "10.0.0.1";
  dst = codes "8.8.8.8";
  sport = 4000;
  dport = 53;
  packets = codes "1";
  bytes = 60;
}

abbrev answered : Direction
answered = record {
  src = codes "8.8.8.8";
  dst = codes "10.0.0.1";
  sport = 53;
  dport = 4000;
  packets = codes "1";
  bytes = 90;
}

abbrev table_line : Text
table_line =
    codes
      "udp 17 29 src=10.0.0.1 dst=8.8.8.8 sport=4000 dport=53 packets=1 bytes=60 src=8.8.8.8 dst=10.0.0.1 sport=53 dport=4000 packets=1 bytes=90 mark=0"

asked-IsDirection : IsDirection asked (codes "10.0.0.1") (codes "8.8.8.8")
unfolding normalize_linux_conntrack_host
asked-IsDirection = record {
  src_written = refl;
  dst_written = refl;
  src_normal = refl;
  dst_normal = refl;
  src_some = refl;
  dst_some = refl;
  sport_fits = omega arith;
  dport_fits = omega arith;
  bytes_fits = omega arith;
}

answered-IsDirection : IsDirection answered (codes "8.8.8.8") (codes "10.0.0.1")
unfolding normalize_linux_conntrack_host
answered-IsDirection = record {
  src_written = refl;
  dst_written = refl;
  src_normal = refl;
  dst_normal = refl;
  src_some = refl;
  dst_some = refl;
  sport_fits = omega arith;
  dport_fits = omega arith;
  bytes_fits = omega arith;
}

parse_linux_conntrack_line_lem_example :
    lookup (codes "2|10.0.0.1|4000|8.8.8.8|53") (parse_linux_conntrack_line table_line)
    ≡ some (record { rx_bytes = 90; tx_bytes = 60 })
unfolding fields trim_space format_uint linux_flow_tuple_key
parse_linux_conntrack_line_lem_example =
    parse_linux_conntrack_line_lem table_line (plain (codes "17") (codes "29")) asked answered
      (codes "mark=0" ∷ []) (codes "10.0.0.1") (codes "8.8.8.8") (codes "8.8.8.8")
      (codes "10.0.0.1") refl asked-IsDirection answered-IsDirection
      (codes "2|10.0.0.1|4000|8.8.8.8|53")

abbrev dns : Connection
dns = record {
  fd = 3;
  socket_type = 2;
  local_host = codes "10.0.0.1";
  local_port = 4000;
  remote_host = codes "8.8.8.8";
  remote_port = 53;
}

abbrev peers : List Peer
peers = record { pid = pos 12; connections = some (dns ∷ []) } ∷ []

abbrev observed : Dict Text NetworkObservation
observed =
    (
      codes "12|3|2|10.0.0.1|4000|8.8.8.8|53",
      record {
        pid = pos 12;
        domain = codes "8.8.8.8";
        display_name = [];
        process_name = [];
        protocol = codes "DNS";
        sample = record { rx_bytes = 90; tx_bytes = 60 };
      },
    )
    ∷ []

abbrev answered_once : NetworkObservation
answered_once = record {
  pid = pos 12;
  domain = codes "8.8.8.8";
  display_name = [];
  process_name = [];
  protocol = codes "DNS";
  sample = record { rx_bytes = 90; tx_bytes = 60 };
}
