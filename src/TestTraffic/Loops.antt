-- ===== src/TestTraffic/Loops.antt =====
-- The targets and the loops of internal/watcher/test_traffic_linux.go, by the number of their rounds. A
-- round is what the loop does between two ticks of its timer.
pub mod Laws
use dialtone_watcher.Prelude.{
  ℕ, suc, zero, ◌+◌, ◌%◌, Bool, true, false, Option, none, some, ◌>>=◌, List, [], ◌∷◌, ◌++◌, Text,
  codes, length, is_empty, if◌then◌else◌,
}
use dialtone_watcher.TestTraffic.{build_dns_query}

pub record HttpTarget : Type 0 where
  pub host : Text
  pub path : Text
  pub tls : Bool

abbrev pub linux_http_test_targets : List HttpTarget
linux_http_test_targets =
    record { host = codes "google.com"; path = codes "/"; tls = true }
    ∷ record { host = codes "apple.com"; path = codes "/"; tls = true }
    ∷ record { host = codes "microsoft.com"; path = codes "/"; tls = true }
    ∷ record { host = codes "example.com"; path = codes "/"; tls = false }
    ∷ record { host = codes "neverssl.com"; path = codes "/"; tls = false }
    ∷ []

abbrev pub linux_dns_test_targets : List Text
linux_dns_test_targets =
    codes "google.com" ∷ codes "cloudflare.com" ∷ codes "github.com" ∷ codes "openai.com" ∷ []

abbrev pub linux_dns_servers : List Text
linux_dns_servers = codes "1.1.1.1:53" ∷ codes "8.8.8.8:53" ∷ []

abbrev pub port_for_target : HttpTarget → Text
port_for_target target = if target.tls then codes "443" else codes "80"

-- the request that `driveHTTPConnection` writes
unfoldable pub request_for_target : HttpTarget → Text
request_for_target target =
    codes "GET "
    ++ target.path
    ++ codes " HTTP/1.1\r\nHost: "
    ++ target.host
    ++ codes "\r\nConnection: close\r\nUser-Agent: dialtone-watcher-test\r\nAccept: */*\r\n\r\n"

-- `xs[i]`, or `none` for a panic
abbrev pub element : {A : Type 0} → List A → ℕ → Option A
element [] i = none
element (x ∷ xs) zero = some x
element (x ∷ xs) (suc i) = element xs i

-- the names that `runLookupLoop` asks the resolver for
unfoldable pub run_lookup_loop : ℕ → ℕ → Option (List Text)
run_lookup_loop zero index = some []
run_lookup_loop (suc rounds) index = do
  host ← element linux_dns_test_targets (index % length linux_dns_test_targets)
  hosts ← run_lookup_loop rounds (index + 1)
  some (host ∷ hosts)

-- `sendUDPDNSQuery`: what is written to the server, if it can be dialled and there is a query
abbrev pub send_udp_dns_query : Bool → ℕ → Text → Text → List (Text × Text)
send_udp_dns_query dialled id server host =
    if dialled
    then elim (build_dns_query id host) [
      | none ↦ []
      | some query ↦ if is_empty query then [] else (server, query) ∷ []
    ]
    else []

-- `runUDPDNSLoop`; `dials` says whether the server can be dialled in a round, and `ids` are the random
-- numbers of the queries
unfoldable pub run_udp_dns_loop : (ℕ → Bool) → (ℕ → ℕ) → ℕ → ℕ → ℕ → Option (List (Text × Text))
unfolding build_dns_query
run_udp_dns_loop dials ids zero server_index name_index = some []
run_udp_dns_loop dials ids (suc rounds) server_index name_index = do
  server ← element linux_dns_servers (server_index % length linux_dns_servers)
  host ← element linux_dns_test_targets (name_index % length linux_dns_test_targets)
  later ← run_udp_dns_loop dials ids rounds (server_index + 1) (name_index + 1)
  some (send_udp_dns_query (dials name_index) (ids name_index) server host ++ later)
