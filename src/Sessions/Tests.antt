-- ===== src/Sessions/Tests.antt =====
-- Logged lines at concrete histories.
use fbf_3ds_servers.Base.{
  ◌≡◌, refl, true, false, none, some, List, [], ◌∷◌, txt, str_eq, lookup, insert, delete,
  format_uint,
}
use fbf_3ds_servers.Sessions.{
  Event, connect, disconnect, ended, gone, pid_of, duration_of, addr_of, seconds_since, step, after,
}
use fbf_3ds_servers.Sessions.History.{began, left, ended_line}

program : Unit {0}
unfolding step after addr_of pid_of seconds_since lookup insert delete format_uint
program = tt

-- A console that came at second 10, and said that it leaves.
abbrev clean : List Event
clean = disconnect (txt "1.2.3.4") ∷ connect 1900 (txt "1.2.3.4") 10000000000 ∷ []

log_tests :
    ((step (ended 1900 (txt "1.2.3.4") 72600000000) (after clean)).1
      ≡ gone (txt "1900") (txt "1.2.3.4") (some 63) true ∷ [])
    × ((step (ended 1900 (txt "5.6.7.8") 72600000000) (after clean)).1
        ≡ gone (txt "1900") (txt "5.6.7.8") none false ∷ [])
    × (addr_of none ≡ txt "?")
unfolding program
log_tests = (refl, refl, refl)

ended_line_example :
    (step (ended 1900 (txt "1.2.3.4") 72600000000) (after clean)).1
    ≡ gone
        (pid_of 1900)
        (txt "1.2.3.4")
        (duration_of 72600000000 (began (txt "1.2.3.4") clean))
        (left (txt "1.2.3.4") clean)
      ∷ []
ended_line_example = ended_line clean 1900 (txt "1.2.3.4") 72600000000
