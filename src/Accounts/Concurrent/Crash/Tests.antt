-- ===== src/Accounts/Concurrent/Crash/Tests.antt =====
-- Registrations over a process that dies, at concrete inputs.
use fbf_3ds_servers.Base.{
  ℕ, zero, suc, ◌≡◌, refl, ap, ◌∙◌, none, some, List, [], ◌∷◌, Str, txt, str_ne, delete, env,
  trim_space,
}
use fbf_3ds_servers.Accounts.Store.{get, ensure_accounts_table}
use fbf_3ds_servers.Accounts.Register.{Request}
use fbf_3ds_servers.Accounts.Boot.{open_postgres, boot}
use fbf_3ds_servers.Accounts.Service.{kept}
use fbf_3ds_servers.Accounts.Tests.{
  program, rows_table, plain, post, rows_table-IsTable, reachable, configured,
  rows_table-IsAvailable,
}
use fbf_3ds_servers.Accounts.Concurrent.{check_and_save, receive, proceed}
use fbf_3ds_servers.Accounts.Concurrent.Effects.{IsPost}
use fbf_3ds_servers.Accounts.Concurrent.Crash.{
  Moment, handler_turn, crash, happen, happen_all, lived,
}
use fbf_3ds_servers.Accounts.Concurrent.Crash.Durable.{happen_all-IsKept}

code : Unit {0}
unfolding check_and_save receive proceed program delete happen happen_all open_postgres boot env
    ensure_accounts_table
code = tt

abbrev requests : ℕ → Request
requests zero = post (txt "1900") (txt "new")
requests (suc n) = post (txt "1901") (txt "other")

own-IsPost : IsPost rows_table plain (requests 0) (txt "1900") (txt "new")
unfolding code
own-IsPost = record {
  method = refl;
  fields = (txt "1900", txt "new");
  read = refl;
  pid_field = refl;
  pw_field = refl;
  passed = refl;
}

only-IsPost : (j : ℕ) (pw : Str) → IsPost rows_table plain (requests j) (txt "1900") pw → 0 ≡ j
unfolding code
only-IsPost zero pw p = refl
only-IsPost (suc n) pw p =
    let same : (txt "1901", txt "other") ≡ p.fields = cc (p.read) in
    absurd (str_ne (txt "1901") (txt "1900") refl (ap (λ f. trim_space f.0) same ∙ p.pid_field))

-- The process dies when the row is in the table, and the console has no answer.
abbrev bad_day : List Moment
bad_day = handler_turn 1 ∷ handler_turn 0 ∷ crash ∷ handler_turn 2 ∷ []

bad_day_test : (lived rows_table plain reachable configured requests [] bad_day).fates 0 ≡ none
unfolding code
bad_day_test = refl

happen_all-IsKept_example :
    (get
        (lived rows_table plain reachable configured requests [] bad_day).process.state.accounts
        (txt "1900")
      ≡ some (txt "new"))
    × (kept rows_table plain reachable configured rows_table-IsTable rows_table-IsAvailable
          (lived rows_table plain reachable configured requests [] bad_day).process.disk
          (txt "1900")
        ≡ some (txt "new"))
unfolding code
happen_all-IsKept_example =
    happen_all-IsKept rows_table rows_table-IsTable plain reachable configured
      rows_table-IsAvailable requests 0 (txt "1900") (txt "new") own-IsPost only-IsPost [] bad_day
      tt
