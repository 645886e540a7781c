-- ===== src/Session.antt =====
-- The client of the library against the test server of dnscoretest, over one transport each.
pub mod Reply
pub mod Https
pub mod Stream
pub mod Udp
pub mod Lookup
mod Tests
