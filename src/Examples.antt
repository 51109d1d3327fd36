-- ===== src/Examples.antt =====
-- The theorems at concrete inputs, with concrete floats and addresses in place of the parameters.
mod Commands
mod Daemon
mod Disk
mod Domains
mod Names
mod Parameters
mod Uploads
mod Polls
mod Tables
mod Linux
mod Mac
mod Texts
