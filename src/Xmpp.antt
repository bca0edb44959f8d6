-- ===== src/Xmpp.antt =====
-- The XMPP core of iris: iris/xmpp-core.
pub mod Jid
pub mod Layer
pub mod Sent
mod Runs
