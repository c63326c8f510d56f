-- ===== src/Crawler.antt =====
-- 3700Crawler/networks: the responses of the server, the requests, and the session of a crawler.
pub mod Socket
pub mod Response
pub mod Request
pub mod Pattern
pub mod Session
mod Tests
