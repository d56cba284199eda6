-- ===== src/Sessions.antt =====
-- server/session_log.go: the record of connects and disconnects, by which a clean leave is told
-- from a silent drop. The three callbacks run under one mutex, so a run is a list of events.
pub mod History
mod Tests
use fbf_3ds_servers.Base.{
  or_false, ℕ, ◌+◌, ◌-◌, ◌/◌, Bool, true, false, Option, none, some, List, [], ◌∷◌, ◌++◌, Str, txt,
  str_eq, lookup, insert, delete, format_uint, if◌then◌else◌,
}

-- sessStart and sessExplicit; times are nanoseconds.
pub record SessionLog : Type 0 where
  pub start : List (Str × ℕ)
  pub explicit : List (Str × Bool)

abbrev pub empty : SessionLog
empty = record { start = []; explicit = [] }

-- What the endpoint reports: a CONNECT, a DISCONNECT packet, or the end of a connection.
pub data Event : Type 0 where
  connect : (pid : ℕ) (addr : Str) (now : ℕ) → Event
  disconnect : (addr : Str) → Event
  ended : (pid : ℕ) (addr : Str) (now : ℕ) → Event

-- The lines that are logged: the duration is in seconds, none for "unknown", and `clean` tells
-- "client left (clean disconnect)" from "DROPPED (no disconnect packet - network/NAT timeout)".
pub data Line : Type 0 where
  connected : (pid : Str) (addr : Str) → Line
  gone : (pid : Str) (addr : Str) (duration : Option ℕ) (clean : Bool) → Line

-- addrOf: none is the nil address.
unfoldable pub addr_of : Option Str → Str
addr_of none = txt "?"
addr_of (some a) = a

-- pidOf
unfoldable pub pid_of : ℕ → Str
pid_of pid = format_uint pid

-- time.Since(start).Round(time.Second), in seconds.
unfoldable pub seconds_since : ℕ → ℕ → ℕ
seconds_since start now = (now - start + 500000000) / 1000000000

abbrev pub duration_of : ℕ → Option ℕ → Option ℕ
duration_of now none = none
duration_of now (some t) = some (seconds_since t now)

-- The three callbacks of installSessionLogging.
unfoldable pub step : Event → SessionLog → SessionLog × List Line
unfolding pid_of
step (connect pid addr now) s = (
  record { start = insert addr now s.start; explicit = delete addr s.explicit },
  connected (pid_of pid) addr ∷ [],
)
step (disconnect addr) s = (record s { explicit = insert addr true s.explicit }, [])
step (ended pid addr now) s = (
  record { start = delete addr s.start; explicit = delete addr s.explicit },
  gone (pid_of pid) addr (duration_of now (lookup addr s.start)) (or_false (lookup addr s.explicit))
      ∷ [],
)

-- The maps after a history of events, the latest first.
unfoldable pub after : List Event → SessionLog
unfolding step
after [] = empty
after (e ∷ h) = (step e (after h)).0
