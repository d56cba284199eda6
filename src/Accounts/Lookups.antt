-- ===== src/Accounts/Lookups.antt =====
-- What a login finds: the two lookups agree, and they see what was registered.
use mathlib.Core.Path.{subst}
use fbf_3ds_servers.Base.{
  ℕ, ◌<◌, ◌^◌, ◌≡◌, ◌≢◌, ap, ◌∙◌, inr, true, false, some, [], ◌∷◌, Str, txt, str_beq, str_beq_iff,
  str_eq, beq_ne, format_uint, parse_uint-format_uint, All, IsDigit, format_uint-IsDigit,
  trim_space, arith,
}
use fbf_3ds_servers.Accounts.Store.{Accounts, AccountTable, get}
use fbf_3ds_servers.Accounts.Register.{Request, Decoders, State, posted, handle_register}
use fbf_3ds_servers.Accounts.Registered.{stored_fields}
use fbf_3ds_servers.Accounts.Login.{
  new_account, password_for_pid, account_details_by_pid, account_details_by_username,
}

-- A decimal text begins with a digit, so it is neither server's name.
format_uint-ne : (n c : ℕ) (s : Str) → 57 < c → format_uint n ≢ c ∷ s
format_uint-ne n c s h =
    λ e. absurd (omega (arith, (subst (All IsDigit) e (format_uint-IsDigit n)).0))

by_pid_console :
    (fixed : Str) (m : Accounts) (n : ℕ)
    → n ≢ 1
    → n ≢ 2
    → account_details_by_pid fixed m n
      ≡ new_account n (format_uint n) (password_for_pid fixed m (format_uint n)) false
unfolding account_details_by_pid
by_pid_console fixed m n one two = ground arith

password_for_pid_found :
    (m : Accounts) (pid pw : Str) → get m pid ≡ some pw → password_for_pid [] m pid ≡ pw
unfolding password_for_pid
password_for_pid_found m pid pw h = rw (h, password_for_pid)

password_for_pid_same :
    (fixed : Str) (m m' : Accounts) (pid : Str)
    → get m pid ≡ get m' pid
    → password_for_pid fixed m pid ≡ password_for_pid fixed m' pid
unfolding password_for_pid
password_for_pid_same fixed m m' pid h = rw (h, password_for_pid)

-- For a PID of 64 bits other than 1 and 2, a login by its decimal text as the username finds the
-- account that a lookup by the PID finds.
pub by_username-by_pid :
    (fixed : Str) (m : Accounts) (n : ℕ)
    → n < 2 ^ 64
    → n ≢ 1
    → n ≢ 2
    → account_details_by_username fixed m (format_uint n) ≡ some (account_details_by_pid fixed m n)
unfolding account_details_by_username
by_username-by_pid fixed m n h one two = rw (
  beq_ne (format_uint n) (txt "Quazal Authentication") (format_uint-ne n _ _ (omega arith)),
  beq_ne (format_uint n) (txt "Quazal Rendez-Vous") (format_uint-ne n _ _ (omega arith)),
  parse_uint-format_uint 64 n h,
  by_pid_console fixed m n one two,
)

module _ (table : AccountTable) (decoders : Decoders) where
  -- Without a fixed password, a console with a PID other than 1 and 2 whose registration was
  -- answered with status 200, and that posted its PID as plain decimal text, is found with the
  -- password that it posted.
  pub register-login :
      (r : Request) (s : State table) (fields : Str × Str) (n : ℕ)
      → (handle_register table decoders r s).0.status ≡ 200
      → posted table decoders r ≡ inr fields
      → trim_space fields.0 ≡ format_uint n
      → n ≢ 1
      → n ≢ 2
      → (account_details_by_pid [] (handle_register table decoders r s).1.accounts n).password
        ≡ trim_space fields.1
  register-login r s fields n ok read plain one two =
      let m = (handle_register table decoders r s).1.accounts in
      let found = (stored_fields table decoders r s fields ok read).1 (format_uint n) in
      let hit : str_beq (trim_space fields.0) (format_uint n) ≡ true = (str_beq_iff _ _).1 plain in
      ap (λ a. a.password) (by_pid_console [] m n one two)
      ∙ password_for_pid_found m (format_uint n) (trim_space fields.1) (rw hit at found)

  -- A registration that was answered with status 200, but whose PID was posted in another text than
  -- the plain decimal text of `n`, changes nothing for a lookup by the number `n`; this also where
  -- the posted text is another spelling of `n`, such as one with leading zeros.
  pub register_other_spelling :
      (fixed : Str) (r : Request) (s : State table) (fields : Str × Str) (n : ℕ)
      → (handle_register table decoders r s).0.status ≡ 200
      → posted table decoders r ≡ inr fields
      → trim_space fields.0 ≢ format_uint n
      → account_details_by_pid fixed (handle_register table decoders r s).1.accounts n
        ≡ account_details_by_pid fixed s.accounts n
  unfolding account_details_by_pid
  register_other_spelling fixed r s fields n ok read other =
      let found = (stored_fields table decoders r s fields ok read).1 (format_uint n) in
      let miss : str_beq (trim_space fields.0) (format_uint n) ≡ false =
        beq_ne (trim_space fields.0) (format_uint n) other in
      rw (
        password_for_pid_same fixed (handle_register table decoders r s).1.accounts s.accounts
          (format_uint n) (rw miss at found))
