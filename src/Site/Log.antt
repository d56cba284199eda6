-- ===== src/Site/Log.antt =====
-- What the log says of a client: its address, the fields of its request, the TLS versions and suites
-- that it offers (server/nasc.go), and the calls that it makes (server/log.go).
use fbf_3ds_servers.Base.{
  ℕ, ◌/◌, ◌%◌, ◌+◌, Option, none, some, List, [], ◌∷◌, ◌++◌, map, Str, txt, str_beq, nat_beq, ltb,
  length, lookup, nat_eq, trim_space, format_uint, if◌then◌else◌,
}
use fbf_3ds_servers.Nasc.Base64.{nin_b64_decode_string}
use fbf_3ds_servers.Nasc.Wire.{Values, get}

-- `s[:i]` for `i = strings.LastIndex(s, b)`.
unfoldable pub before_last : ℕ → Str → Option Str
before_last b [] = none
before_last b (c ∷ s) = elim (before_last b s) [
  | some x ↦ some (c ∷ x)
  | none ↦ if nat_beq c b then some [] else none
]

-- clientIP
unfoldable pub client_ip : Str → Str
unfolding before_last
client_ip remote_addr = elim (before_last b':' remote_addr) [
  | none ↦ remote_addr
  | some [] ↦ remote_addr
  | some (c ∷ host) ↦ c ∷ host
]

-- The loop of summarise.
unfoldable pub summary_of : List Str → Values → Str
unfolding get
summary_of [] params = []
summary_of (k ∷ ks) params =
    let rest = summary_of ks params in
    if str_beq (get params k) []
    then rest
    else k ++ b'=' ∷ (nin_b64_decode_string (get params k) ++ 32 ∷ rest)

-- summarise
unfoldable pub summarise : Values → Str
unfolding summary_of
summarise params = trim_space (
    summary_of
      (txt "action"
        ∷ txt "gameid"
        ∷ txt "titleid"
        ∷ txt "gamecd"
        ∷ txt "userid"
        ∷ txt "keyhash"
        ∷ txt "svc"
        ∷ [])
      params)

-- A digit of `%x`.
abbrev hex_digit : ℕ → ℕ
hex_digit d = if ltb d 10 then 48 + d else 87 + d

-- `0x%04x` of a number of 16 bits.
unfoldable pub hex_word : ℕ → Str
hex_word v =
    b'0'
    ∷ b'x'
    ∷ hex_digit (v / 4096 % 16)
    ∷ hex_digit (v / 256 % 16)
    ∷ hex_digit (v / 16 % 16)
    ∷ hex_digit (v % 16)
    ∷ []

-- The switch of versionNames.
unfoldable pub version_name : ℕ → Str
unfolding hex_word
version_name v =
    if nat_beq v 0x0301
    then txt "TLS1.0"
    else if nat_beq v 0x0302
    then txt "TLS1.1"
    else if nat_beq v 0x0303
    then txt "TLS1.2"
    else if nat_beq v 0x0304
    then txt "TLS1.3"
    else hex_word v

-- versionNames
unfoldable pub version_names : List ℕ → List Str
unfolding version_name
version_names vs = map version_name vs

-- suiteNames; the name of a suite is tls.CipherSuiteName's.
unfoldable pub suite_names : (ℕ → Str) → List ℕ → List Str
unfolding hex_word
suite_names cipher_suite_name cs =
    map (λ c. if str_beq (cipher_suite_name c) [] then hex_word c else cipher_suite_name c) cs

-- protocolNames
abbrev pub protocol_names : List (ℕ × Str)
protocol_names =
    (0x01, txt "RemoteLogDevice")
    ∷ (0x03, txt "NATTraversal")
    ∷ (0x0A, txt "TicketGranting")
    ∷ (0x0B, txt "SecureConnection")
    ∷ (0x0E, txt "Notifications")
    ∷ (0x12, txt "Health")
    ∷ (0x13, txt "Monitoring")
    ∷ (0x14, txt "Friends")
    ∷ (0x15, txt "MatchMaking")
    ∷ (0x17, txt "Messaging")
    ∷ (0x18, txt "PersistentStore")
    ∷ (0x19, txt "AccountManagement")
    ∷ (0x1B, txt "MessageDelivery")
    ∷ (0x32, txt "MatchMakingExt")
    ∷ (0x64, txt "NintendoNotifications")
    ∷ (0x65, txt "Friends3DS")
    ∷ (0x6D, txt "MatchmakeExtension")
    ∷ (0x6E, txt "Utility")
    ∷ (0x70, txt "Ranking")
    ∷ (0x73, txt "DataStore")
    ∷ (0x74, txt "Debug")
    ∷ (0x75, txt "Subscription")
    ∷ (0x76, txt "Rating")
    ∷ (0x78, txt "MatchmakeReferee")
    ∷ (0x7A, txt "Ranking2")
    ∷ []

abbrev known_as : Option Str → Str
known_as none = txt "UNKNOWN"
known_as (some name) = name

-- The bytes of a call's parameters as `%x` prints them.
unfoldable pub hex_bytes : Str → Str
hex_bytes [] = []
hex_bytes (c ∷ s) = hex_digit (c / 16) ∷ hex_digit (c % 16) ∷ hex_bytes s

-- `0x%02X` of a number of 16 bits: two digits at least.
abbrev upper_digit : ℕ → ℕ
upper_digit d = if ltb d 10 then 48 + d else 55 + d

unfoldable pub hex_id : ℕ → Str
hex_id v =
    let low = upper_digit (v / 16 % 16) ∷ upper_digit (v % 16) ∷ [] in
    b'0'
    ∷ b'x'
    ∷ (if ltb v 256
        then low
        else if ltb v 4096
        then upper_digit (v / 256 % 16) ∷ low
        else upper_digit (v / 4096 % 16) ∷ upper_digit (v / 256 % 16) ∷ low)

-- A call as logRMC sees it.
pub record RmcMessage : Type 0 where
  pub protocol_id : ℕ
  pub method_id : ℕ
  pub parameters : Str

-- logRMC: the lines, without the time.
unfoldable pub log_rmc : Str → RmcMessage → List Str
unfolding hex_bytes hex_id
log_rmc server request =
    (txt "*** RMC *** "
      ++ server
      ++ txt "  protocol="
      ++ hex_id request.protocol_id
      ++ txt " ("
      ++ known_as (lookup request.protocol_id protocol_names)
      ++ txt ")  method="
      ++ format_uint request.method_id
      ++ txt "  params="
      ++ format_uint (length request.parameters)
      ++ txt " bytes")
    ∷ (if nat_beq (length request.parameters) 0
        then []
        else (txt "       RAW PARAMS: " ++ hex_bytes request.parameters) ∷ [])

-- logf: the line with the time before it is printed, and added to the text of rmc.log where that
-- can be opened; none is a file that cannot.
unfoldable pub logf : Str → Str → Str × Option Str → Str × Option Str
logf clock message (printed, file) =
    let line = clock ++ 32 ∷ 32 ∷ (message ++ 10 ∷ []) in
    (printed ++ line, elim file [ none ↦ none | some kept ↦ some (kept ++ line) ])
