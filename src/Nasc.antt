-- ===== src/Nasc.antt =====
-- server/nasc.go: the service that a console asks where a game's server is. Logins for the hosted
-- games are answered here, every other request is passed on to Pretendo.
pub mod Base64
pub mod RoundTrip
pub mod Wire
pub mod RawWire
pub mod Handler
pub mod Login
pub mod Proxy
pub mod Errors
pub mod Upstream
mod Tests
