-- ===== src/Accounts/Register.antt =====
-- handleRegister of server/register.go: a console posts its PID and its NEX password.
use fbf_3ds_servers.Base.{
  ℕ, ◌⊎◌, inl, inr, not, ◌||◌, Option, none, some, [], ◌∷◌, ◌++◌, Str, txt, str_beq, nat_beq, ltb,
  length, take, trim_space, contains, parse_uint, if◌then◌else◌,
}
use fbf_3ds_servers.Accounts.Store.{Accounts, AccountTable, set, save_account}

-- A request as package net/http hands it over.
pub record Request : Type 0 where
  pub method : Str
  pub content_type : Str
  pub query : Str
  pub body : Str

pub record Response : Type 0 where
  pub status : ℕ
  pub content_type : Str
  pub body : Str

-- What the handler uses of encoding/json and of the forms of net/http.
pub record Decoders : Type 0 where
  -- The fields `pid` and `password` of a JSON value at the head of a text; none is an error.
  pub decode_json : Str → Option (Str × Str)
  -- ParseForm behind a MaxBytesReader of that many bytes, and FormValue; none is an error.
  pub parse_form : ℕ → Request → Option (Str → Str)

-- http.Error
abbrev pub http_error : Str → ℕ → Response
http_error message status = record {
  status = status;
  content_type = txt "text/plain; charset=utf-8";
  body = message ++ (10 ∷ []);
}

abbrev pub registered : Response
registered = record {
  status = 200;
  content_type = txt "application/json";
  body = txt "{\"ok\":true}";
}

-- The store and the table: what a registration can change.
pub record State (table : AccountTable) : Type 0 where
  pub accounts : Accounts
  pub db : Option table.Db

module _ (table : AccountTable) (decoders : Decoders) where
  open decoders use {decode_json, parse_form}

  -- The fields as posted, or the answer to a body that cannot be read. The JSON branch reads 4096
  -- bytes at most, the form branch refuses a longer body.
  unfoldable pub posted : Request → Response ⊎ (Str × Str)
  posted r =
      if contains r.content_type (txt "application/json")
      then elim (decode_json (take 4096 r.body)) [
        | none ↦ inl (http_error (txt "bad json") 400)
        | some fields ↦ inr fields
      ]
      else elim (parse_form 4096 r) [
        | none ↦ inl (http_error (txt "bad form") 400)
        | some form ↦ inr (form (txt "pid"), form (txt "password"))
      ]

  -- The two checks of the trimmed fields: the answer, or none where they pass.
  unfoldable pub refused : Str → Str → Option Response
  refused pid pw = elim (parse_uint 64 pid) [
    | none ↦ some (http_error (txt "invalid pid") 400)
    | some _ ↦
        if nat_beq (length pw) 0 || ltb 64 (length pw)
        then some (http_error (txt "invalid password") 400)
        else none
  ]

  -- From the checks on.
  unfoldable pub store : Str → Str → State table → Response × State table
  unfolding refused set
  store pid pw s = elim (refused pid pw) [
    | some response ↦ (response, s)
    | none ↦ elim (save_account table pid pw s.db) [
      | none ↦ (http_error (txt "server error") 500, s)
      | some db' ↦ (registered, record { accounts = set pid pw s.accounts; db = db' })
    ]
  ]

  unfoldable pub handle_register : Request → State table → Response × State table
  unfolding posted store
  handle_register r s =
      if not (str_beq r.method (txt "POST"))
      then (http_error (txt "POST only") 405, s)
      else elim (posted r) [
        | inl response ↦ (response, s)
        | inr (pid, pw) ↦ store (trim_space pid) (trim_space pw) s
      ]
