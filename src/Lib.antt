-- ===== src/Lib.antt =====
-- dialtone-watcher: a daemon that polls the processes and the network connections of its machine,
-- keeps tables of them, writes a summary of the tables to a file, and uploads a window of what it saw
-- to a server. Paths are from the root of the repository.
--
-- The parts and how they meet. `pollOnce` (internal/watcher/watcher.go) reads the processes and the
-- connections, updates the tables of `service` under its mutex (`pollProcessesLocked`,
-- `pollDomainsLocked`), reports both to the uploader (internal/watcher/upload.go), writes the summary
-- (internal/watcher/state.go), and uploads the window when it is due. `pollDomainsLocked` asks for the
-- names of addresses through a channel; a worker (internal/watcher/resolver.go) looks them up and
-- stores them under the mutex. The command line (main.go) starts and stops the daemon and prints the
-- summary.
--
-- The files:
--   Prelude, Dict, Sort, Words, Clock, Float, Strings, Netip, Decimal
--     what the program uses of Go and its library: maps, `sort.Slice`, `uint64`, `time`, `float64`,
--     `strings`, `net/netip`, `strconv`, and `fmt` with `%d`. A text is a list of bytes; a map an
--     association list without a key twice; a time the number of nanoseconds since Go's zero time; a
--     `uint64` a number, with its sums modulo 2 ^ 64. `float64` (Float) and addresses (Netip) are
--     parameters: a record of operations and of the laws that the program relies on.
--   Network      internal/watcher/network.go: observations and the names of protocols; and of watcher.go
--                `observedConnectionKey`, the key of a connection.
--   Linux        internal/watcher/network_linux.go: the output of `ss` (Sockets), the table of `conntrack`
--                (Conntrack), and their join with the connections of the processes (Collector).
--   Darwin       internal/watcher/network_darwin.go: the rows of `nettop`.
--   Hosts        `isPublicIP` and `normalizeResolvedHost` of internal/watcher/resolver.go, and its
--                `registrableDomain` and `parsePTROutput` (Domains).
--   Names        `lookupAddrName` of internal/watcher/resolver.go, the chain of lookups that names an
--                address: `bestWhoisCandidate` (Whois), `bestHostnameCandidate` (Hostnames), the other
--                parsers and the chain itself.
--   Hardware     internal/watcher/hardware.go: the profile from the answers of gopsutil.
--   Records      the records of internal/watcher/state.go and internal/watcher/hardware.go.
--   Uploader     internal/watcher/upload.go: the window (Uploader), the configuration (Config), how the
--                window takes up a poll (Recording), the body (Payload) and its lists (Lists), `send` and
--                `flush` (Flush).
--                `flush` also returns the payload that the server took, if any, which the code does
--                not: Ledger adds such payloads up.
--   Lookups      the cache, the pending marks and the channel of reverse lookups, as the polls and the
--                worker use them; Protocol has both as interleaved steps, Draining the worker alone.
--   Service      `service` of internal/watcher/watcher.go: the processes (Processes), the traffic
--                (Traffic), the summary (Summary), a whole poll and `shutdown` (Poll), and the invariant
--                of its tables (Invariant). Service/Poll/Stretches.antt has a poll as its stretches under
--                the mutex, with the steps of the worker between them.
--                Service/Daemon.antt is `RunDaemon` as a system of two threads: the main one, which
--                polls and stops, and the worker, which takes an address from the channel and stores
--                the name under the mutex. Its children are about the start (Launching), the status file
--                (Registered), the tables and the addresses in every reachable state (Threads), and
--                how the order of the last steps decides what is left behind (Ending).
--   State        internal/watcher/state.go: the status, the summary and the identity of the machine, as
--                what reading a file finds; State/Disk.antt has the paths, and reading, writing and
--                removing on a disk, which maps paths to files.
--   Cli          main.go: the options and `formatBytes`, the lines that it prints (Print), and the
--                commands (Commands), with what they do to the system as a list of actions; beside a
--                daemon they are in Commands/OnDaemon.antt and Commands/Cleaned.antt.
--   TestTraffic  internal/watcher/test_traffic_linux.go: `buildDNSQuery`, and the loops that ask for names,
--                by the number of their rounds (Loops).
--   Examples     the theorems at concrete inputs.
--
-- What comes from outside is an argument: the processes and the observations of a poll and the time
-- of it, the output of `ss` and `nettop`, the answers of gopsutil, of the resolver and of the commands,
-- how a call of the system on a file ends and what an interrupted write leaves, `filepath.Join`, what
-- the server answers, the environment, and the encoders and decoders of JSON.
--
-- Bounds and fuel. The loop of `formatBytes` runs on fuel 6: a `uint64` is below 1024 ^ 7, so that it
-- is divided six times at most. The decimal print of a number runs on the number's successor as fuel,
-- which no count of its digits exceeds. All other loops are recursions on lists.
--
-- Not modelled: the commands that are run and their time limits, the sockets and goroutines of the
-- test traffic, regular expressions, JSON and CSV, and the rounding of `%.1f`. The two threads step at
-- the mutex, but for `persist` behind a failed poll, which the code calls without it: that is one step
-- too, so that the model has no data race there. A process that is killed, as by a signal
-- before the first poll is over, is not a step. A file keeps the permissions that it was created with,
-- before the umask. The indices of the test traffic's loops stay below 2 ^ 63. Texts are ASCII where the
-- program changes their case or trims them, and the lines of the table of `conntrack` are shorter than
-- the limit of its scanner. A sample of a flow whose both directions spell one key is the one that the
-- code writes last.
pub mod Prelude
pub mod Dict
pub mod Sort
pub mod Words
pub mod Clock
pub mod Float
pub mod Strings
pub mod Netip
pub mod Hardware
pub mod Hosts
pub mod Decimal
pub mod Network
pub mod Darwin
pub mod Linux
pub mod Names
pub mod Records
pub mod Uploader
pub mod Lookups
pub mod Service
pub mod Cli
pub mod State
pub mod TestTraffic
mod Examples
