-- ===== src/Dns.antt =====
-- The DNS library of iris/irisnet/jdns: a module for each group of functions.
pub mod Memory
pub mod Label
pub mod Name
pub mod Compress
pub mod Wire
pub mod Packet
pub mod Util
pub mod Session
mod Runs
