-- ===== src/Accounts.antt =====
-- server/register.go and the account lookups of server/main.go: the store of NEX passwords, its
-- seeding and its table, the handler of /register, and what a login finds.
pub mod Store
pub mod Register
pub mod Login
pub mod Registered
pub mod Lookups
pub mod Restart
pub mod Boot
pub mod Service
pub mod Concurrent
mod Tests
