-- ===== src/TestTraffic/Loops/Laws.antt =====
-- What the loop of DNS queries of internal/watcher/test_traffic_linux.go sends.
use dialtone_watcher.Prelude.{
  true, false, length-append, ◌<◌, false, if◌then◌else◌, is_empty, ℕ, suc, zero, ◌+◌, ◌%◌, ◌≡◌,
  refl, Bool, some, List, [], ◌∷◌, ◌++◌, Text, codes, All, length, drop, arith,
}
use dialtone_watcher.Strings.Parts.{split}
use dialtone_watcher.TestTraffic.{question, build_dns_query, build_dns_query_lem, read_labels}
use dialtone_watcher.TestTraffic.Loops.{
  element, linux_dns_servers, linux_dns_test_targets, send_udp_dns_query, run_udp_dns_loop,
}

-- A query goes to a server of the list, and a reader finds in it the labels of a name of the list.
pub record IsQuery (sent : Text × Text) : Type 0 where
  pub server_index : ℕ
  pub to_server : element linux_dns_servers server_index ≡ some sent.0
  pub host : Text
  pub host_index : ℕ
  pub about : element linux_dns_test_targets host_index ≡ some host
  pub reads : read_labels 0 (drop 12 sent.1) ≡ some ([] ∷ split b'.' host)

-- the rounds in which the server can be dialled
abbrev pub dialled : (ℕ → Bool) → ℕ → ℕ → ℕ
dialled dials zero index = 0
dialled dials (suc rounds) index = (if dials index then 1 else 0) + dialled dials rounds (index + 1)

-- a listed name has a query
record Asks (id i : ℕ) : Type 0 where
  host : Text
  listed : element linux_dns_test_targets i ≡ some host
  query : Text
  built : build_dns_query id host ≡ some query
  written : is_empty query ≡ false

listed_query : (id i : ℕ) → i < 4 → Asks id i
unfolding build_dns_query split question
listed_query id zero h = record {
  host = codes "google.com";
  listed = refl;
  query = _;
  built = refl;
  written = refl;
}
listed_query id (suc zero) h = record {
  host = codes "cloudflare.com";
  listed = refl;
  query = _;
  built = refl;
  written = refl;
}
listed_query id (suc (suc zero)) h = record {
  host = codes "github.com";
  listed = refl;
  query = _;
  built = refl;
  written = refl;
}
listed_query id (suc (suc (suc zero))) h = record {
  host = codes "openai.com";
  listed = refl;
  query = _;
  built = refl;
  written = refl;
}
listed_query id (suc (suc (suc (suc i)))) h = absurd (omega (arith, h))

listed_server : (i : ℕ) → i < 2 → (server : Text) × (element linux_dns_servers i ≡ some server)
listed_server zero h = (_, refl)
listed_server (suc zero) h = (_, refl)
listed_server (suc (suc i)) h = absurd (omega (arith, h))

one_round :
    (on : Bool) (id : ℕ) (server : Text) (server_index : ℕ) (i : ℕ)
    → element linux_dns_servers server_index ≡ some server
    → (a : Asks id i)
    → All IsQuery (send_udp_dns_query on id server a.host)
      × (length (send_udp_dns_query on id server a.host) ≡ (if on then 1 else 0))
one_round false id server server_index i e a = (tt, refl)
one_round true id server server_index i e a =
    rw (a.built, a.written)
      (
        (
          record {
            server_index = server_index;
            to_server = e;
            host = a.host;
            host_index = i;
            about = a.listed;
            reads = build_dns_query_lem id a.host a.query a.built;
          },
          tt,
        ),
        refl,
      )

All-append : (xs ys : List (Text × Text)) → All IsQuery xs → All IsQuery ys → All IsQuery (xs ++ ys)
All-append [] ys a b = b
All-append (x ∷ xs) ys (h, a) b = (h, All-append xs ys a b)

-- However often the loop of DNS queries runs and wherever its indices start, no index is out of range,
-- and it sends one query in each round in which the server can be dialled and nothing else: each goes
-- to a server of its list, and a reader finds in it the labels of a name of its list.
pub run_udp_dns_loop_lem :
    (dials : ℕ → Bool) (ids : ℕ → ℕ) (rounds server_index name_index : ℕ)
    → (sent : List (Text × Text)) × (run_udp_dns_loop dials ids rounds server_index name_index
        ≡ some sent)
      × All IsQuery sent
      × (length sent ≡ dialled dials rounds name_index)
unfolding run_udp_dns_loop
run_udp_dns_loop_lem dials ids zero server_index name_index = ([], refl, tt, refl)
run_udp_dns_loop_lem dials ids (suc rounds) server_index name_index =
    let (server, at_server) = listed_server (server_index % 2) (omega arith) in
    let a = listed_query (ids name_index) (name_index % 4) (omega arith) in
    let (queries, counted) =
      one_round (dials name_index) (ids name_index) server (server_index % 2) (name_index % 4)
        at_server a in
    let (later, runs, all, count) =
      run_udp_dns_loop_lem dials ids rounds (server_index + 1) (name_index + 1) in
    (
      send_udp_dns_query (dials name_index) (ids name_index) server a.host ++ later,
      rw (at_server, a.listed, runs) refl,
      All-append _ later queries all,
      rw (length-append) (omega (arith, counted, count)),
    )
