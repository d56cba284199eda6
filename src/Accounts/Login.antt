-- ===== src/Accounts/Login.antt =====
-- The account lookups of server/main.go that a login makes.
use fbf_3ds_servers.Base.{
  ℕ, Bool, false, Option, none, some, [], Str, txt, str_beq, nat_beq, if◌then◌else◌, parse_uint,
  format_uint,
}
use fbf_3ds_servers.Accounts.Store.{Accounts, get}

-- nex.NewAccount
pub record Account : Type 0 where
  pub pid : ℕ
  pub username : Str
  pub password : Str
  pub requires_token : Bool

abbrev pub new_account : ℕ → Str → Str → Bool → Account
new_account pid username password requires_token = record {
  pid = pid;
  username = username;
  password = password;
  requires_token = requires_token;
}

-- authServerAccount and secureServerAccount, as main sets them.
abbrev pub auth_server_account : Account
auth_server_account = new_account 1 (txt "Quazal Authentication") (txt "auth-password") false

abbrev pub secure_server_account : Account
secure_server_account = new_account 2 (txt "Quazal Rendez-Vous") (txt "secure-password") false

-- passwordForPID: `fixed` is FFE_FIXED_PASSWORD.
unfoldable pub password_for_pid : Str → Accounts → Str → Str
unfolding get
password_for_pid fixed m pid =
    if str_beq fixed []
    then elim (get m pid) [ some pw ↦ pw | none ↦ txt "guest-password" ]
    else fixed

-- accountDetailsByPID
unfoldable pub account_details_by_pid : Str → Accounts → ℕ → Account
unfolding password_for_pid
account_details_by_pid fixed m pid =
    if nat_beq pid 1
    then auth_server_account
    else if nat_beq pid 2
    then secure_server_account
    else new_account pid (format_uint pid) (password_for_pid fixed m (format_uint pid)) false

-- accountDetailsByUsername: none is the error InvalidUsername.
unfoldable pub account_details_by_username : Str → Accounts → Str → Option Account
unfolding password_for_pid
account_details_by_username fixed m username =
    if str_beq username (txt "Quazal Authentication")
    then some auth_server_account
    else if str_beq username (txt "Quazal Rendez-Vous")
    then some secure_server_account
    else elim (parse_uint 64 username) [
      | none ↦ none
      | some pid ↦ some (new_account pid username (password_for_pid fixed m username) false)
    ]
