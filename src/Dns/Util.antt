-- ===== src/Dns/Util.antt =====
-- The objects of iris/irisnet/jdns/jdns_util.c. An object that the source allocates, copies and frees
-- is a value here, so that `new` is a constant, a copy that keeps everything is the value itself, and
-- freeing is left out.
pub mod Items
pub mod Text
pub mod Address
pub mod Params
pub mod Record
pub mod Response
mod Runs
