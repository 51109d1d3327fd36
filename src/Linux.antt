-- ===== src/Linux.antt =====
-- The collector of Linux, internal/watcher/network_linux.go: what it reads of the output of `ss` and of
-- the table of `conntrack`, and how it joins both with the connections of the processes.
pub mod Collector
pub mod Conntrack
pub mod Keys
pub mod Sockets
