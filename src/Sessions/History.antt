-- ===== src/Sessions/History.antt =====
-- What the log says of the end of a connection, told by the history alone.
use fbf_3ds_servers.Base.{
  or_false, ℕ, ◌≡◌, refl, Bool, true, false, Option, none, some, List, [], ◌∷◌, Str, str_beq,
  str_eq, lookup, lookup-insert, lookup-delete, if◌then◌else◌, arith,
}
use fbf_3ds_servers.Sessions.{
  Event, connect, disconnect, ended, gone, pid_of, duration_of, step, after,
}

-- When the connection at an address began: its last CONNECT, if the connection has not ended since.
abbrev pub began : Str → List Event → Option ℕ
began a [] = none
began a (connect _ addr now ∷ h) = if str_beq addr a then some now else began a h
began a (disconnect _ ∷ h) = began a h
began a (ended _ addr _ ∷ h) = if str_beq addr a then none else began a h

-- Whether the last event at an address was a DISCONNECT packet.
abbrev pub left : Str → List Event → Bool
left a [] = false
left a (connect _ addr _ ∷ h) = if str_beq addr a then false else left a h
left a (disconnect addr ∷ h) = if str_beq addr a then true else left a h
left a (ended _ addr _ ∷ h) = if str_beq addr a then false else left a h

start-after : (a : Str) (h : List Event) → lookup a (after h).start ≡ began a h
unfolding after step lookup
start-after a [] = refl
start-after a (connect pid addr now ∷ h) =
    ground (arith, start-after a h, lookup-insert addr a now (after h).start)
start-after a (disconnect addr ∷ h) = start-after a h
start-after a (ended pid addr now ∷ h) =
    ground (arith, start-after a h, lookup-delete addr a (after h).start)

explicit-after : (a : Str) (h : List Event) → or_false (lookup a (after h).explicit) ≡ left a h
unfolding after step lookup
explicit-after a [] = refl
explicit-after a (connect pid addr now ∷ h) =
    ground (arith, explicit-after a h, lookup-delete addr a (after h).explicit)
explicit-after a (disconnect addr ∷ h) =
    ground (arith, explicit-after a h, lookup-insert addr a true (after h).explicit)
explicit-after a (ended pid addr now ∷ h) =
    ground (arith, explicit-after a h, lookup-delete addr a (after h).explicit)

-- After any history, the end of a connection is logged as a clean leave exactly if the last event
-- at its address was a DISCONNECT packet, and with the time since its last CONNECT, or with no time
-- where there was no CONNECT since the last end.
pub ended_line :
    (h : List Event) (pid : ℕ) (a : Str) (now : ℕ)
    → (step (ended pid a now) (after h)).1
      ≡ gone (pid_of pid) a (duration_of now (began a h)) (left a h) ∷ []
unfolding step
ended_line h pid a now = rw (start-after a h, explicit-after a h)
