-- ===== src/Site.antt =====
-- The two web servers of server/nasc.go (startNASCServer) and server/register.go
-- (startHTTPRegister): their routes, their handlers, and how they are started.
pub mod Mux
pub mod Handlers
pub mod Tls
pub mod Log
pub mod ClientIp
pub mod Routing
pub mod Effects
pub mod Registration
pub mod CleanPath
pub mod Redirects
mod Tests
