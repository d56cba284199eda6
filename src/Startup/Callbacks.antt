-- ===== src/Startup/Callbacks.antt =====
-- What startSecureServer registers with the library beside its settings: the protocols, the friends
-- for friends-only rooms, and the lines that it logs of NAT traversal.
use fbf_3ds_servers.Base.{
  ℕ, ◌+◌, Bool, Option, none, List, [], ◌∷◌, ◌++◌, Str, txt, ℤ, pos, negsuc, format_uint,
  if◌then◌else◌,
}
use fbf_3ds_servers.Accounts.Store.{Accounts, all_pids}

pub data Protocol : Type 0 where
  secure_connection : Protocol
  nat_traversal : Protocol
  match_making : Protocol
  match_making_ext : Protocol
  matchmake_extension : Protocol

-- The protocols in the order of their registration; matchmaking needs a database.
unfoldable pub protocols : Bool → List Protocol
protocols database =
    secure_connection
    ∷ (if database
        then nat_traversal ∷ match_making ∷ match_making_ext ∷ matchmake_extension ∷ []
        else [])

-- mm.GetUserFriendPIDs
unfoldable pub get_user_friend_pids : Accounts → ℕ → List ℕ
get_user_friend_pids accounts pid = all_pids accounts

-- commonSec.CreateReportDBRecord: none is no error.
unfoldable pub create_report_db_record {ℓ} : {Error : Type ℓ} → ℕ → ℕ → Str → Option Error
create_report_db_record pid report_id report_data = none

abbrev format_bool : Bool → Str
format_bool b = if b then txt "true" else txt "false"

abbrev format_int : ℤ → Str
format_int (pos n) = format_uint n
format_int (negsuc n) = b'-' ∷ format_uint (n + 1)

-- OnAfterReportNATTraversalResult
unfoldable pub nat_result_line : ℕ → ℕ → Bool → ℕ → Str
nat_result_line reporter cid result rtt =
    txt "NATRES reporter="
    ++ format_uint reporter
    ++ txt " peer_cid="
    ++ format_uint cid
    ++ txt " result="
    ++ format_bool result
    ++ txt " rtt="
    ++ format_uint rtt

-- OnAfterReportNATTraversalResultDetail
unfoldable pub nat_detail_line : ℕ → ℕ → Bool → ℤ → ℕ → Str
nat_detail_line reporter cid result detail rtt =
    txt "NATRESD reporter="
    ++ format_uint reporter
    ++ txt " peer_cid="
    ++ format_uint cid
    ++ txt " result="
    ++ format_bool result
    ++ txt " detail="
    ++ format_int detail
    ++ txt " rtt="
    ++ format_uint rtt

-- OnAfterRequestProbeInitiationExt; `quoted` is the station as `%q` prints it.
unfoldable pub probe_request_line : ℕ → ℕ → Str → Str
probe_request_line caller targets quoted =
    txt "PROBEREQ caller="
    ++ format_uint caller
    ++ txt " targets="
    ++ format_uint targets
    ++ txt " station="
    ++ quoted
