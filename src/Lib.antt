-- ===== src/Lib.antt =====
-- fbf-3ds-servers: the Go code of the community server for 3DS games (server/*.go).
--
-- At its start, the process opens Postgres and fills the store of accounts from the environment and
-- the table (Accounts). Then two web servers run (Site), and for each enabled game of the table that
-- the environment sets (Games) an authentication server and a secure server (Startup). A console's
-- login goes to the NASC handler (Nasc). It looks the game up, and answers with the address of the
-- game's authentication port, or passes the request on to Pretendo. The NEX servers then ask for the
-- console's account by PID or by name (Accounts); a console registers its password by /register,
-- which also keeps it in Postgres. On the secure server, a console browses rooms (Browse), and with
-- the relay on, two consoles get the address of a link instead of each other's (Relay). Connects and
-- disconnects are logged (Sessions). A dashboard shows how many players and rooms there are (Stats),
-- about where the players are (Geo), and the load of the machine (Metrics). How a CONNECT of a
-- console is answered can be varied for an experiment (Experiment).
--
--   Base        env and envPort of server/main.go, and what the code uses of Go: texts as lists of
--               bytes, strconv, strings, maps
--   Games       server/games.go
--   Accounts    server/register.go, and passwordForPID, accountDetailsByPID,
--               accountDetailsByUsername, openPostgres and the beginning of main of server/main.go;
--               Accounts/Concurrent is handleRegister, taken apart at its changes of what is shared
--   Nasc        server/nasc.go: handleAC, gameLogin, proxyUpstream, the two writers, and
--               upstreamClient's choice of an address
--   Relay       server/relay.go; Relay/Integration is server/relay_integration.go
--   Browse      server/browse_handler.go, and parseAttrIndices of server/main.go
--   Sessions    server/session_log.go
--   Geo         server/geo.go
--   Startup     main, startAuthenticationServer and startSecureServer of server/main.go: which
--               servers are started, on which ports, with which settings, protocols and callbacks;
--               Startup/Race is the part of startSecureServer that makes the relay's manager
--   Stats       server/stats.go
--   Metrics     server/metrics.go
--   Site        startNASCServer of server/nasc.go, startHTTPRegister of server/register.go and the
--               two handlers of server/stats.go; Site/Log is server/log.go, and clientIP, summarise,
--               versionNames and suiteNames of server/nasc.go
--   Experiment  server/vendor-nex/ffe_experiment.go and ffe_shotgun.go, and the lines of
--               handleConnect in server/vendor-nex/prudp_endpoint.go that call them
--
-- A handler is a function from a request and a state to an answer and a state. What a mutex guards
-- is one step; goroutines are lists of steps in any order. Where two goroutines meet in what no lock
-- guards as a whole, the handler is a state machine that runs to its next shared access: requests to
-- register over the table and the store (Accounts/Concurrent, and with a process that may die between
-- any two accesses Accounts/Concurrent/Crash), and secure servers over the variable
-- `relay` and the objects it points to, with the tests on the database and on FFE_RELAY before them
-- (Startup/Race). The two accesses of handleConnect to the counters of the experiment are apart, with
-- those of other connections in between.
-- Taken as one step, though a goroutine could run in between: in the relay's pump, the store of a
-- datagram's source address and the load of the address that it goes to; the loop of
-- onlineLocations, whose lookups of addresses finish before or after it; and a failed statement on
-- the table, which leaves the table as it was. What the code logs is left out, except where
-- the log is what the code is for. All functions are structural recursions; the two that go by
-- a count of their own, the printing of decimal digits and the trimming of spaces, take the number
-- plus one and the length of the text, which is enough since each turn makes them smaller.
--
-- Parameters, with what is assumed of them where it is: the SQL table ffe_accounts and its driver,
-- the JSON and form decoders, the sockets of the operating system, the HTTP client and file server,
-- the loading of certificates, SHA-256, the clock, the random bytes, the texts of /proc, the
-- matchmaking library's query and encoding, station URLs and connections, the packets of nex-go, the
-- web service for locations, and floats. The cursor of the relay's pool and the loop counters are
-- natural numbers, with no wrap at 2 ^ 63. Header maps and the map of accounts are lists in some
-- order. A path of a web request has no percent escapes. In Site and Accounts
-- a request's body can be read; in Nasc it can also fail to be.
--
-- Not modelled: server/vendor-nex, a copy of the library nex-go, but for what the repository adds to
-- it; the listening of the web servers and the TLS of package crypto; the text of
-- server/dashboard_html.go; and the patcher for the console, which is C.
pub mod Base
pub mod Games
pub mod Accounts
pub mod Nasc
pub mod Relay
pub mod Browse
pub mod Sessions
pub mod Geo
pub mod Stats
pub mod Startup
pub mod Metrics
pub mod Site
pub mod Experiment
