-- ===== src/Site/Tls.antt =====
-- How startNASCServer and startHTTPRegister set their servers up: addresses, certificates, and the
-- old versions and cipher suites that a console wants.
use fbf_3ds_servers.Base.{
  ℕ, Bool, true, false, Option, none, some, List, [], ◌∷◌, Str, txt, str_beq, Env, env,
  if◌then◌else◌,
}
use fbf_3ds_servers.Site.Mux.{Routes, nasc_routes, http_routes}

-- tls.Config: versions and suites by their numbers.
pub record TlsConfig : Type 0 where
  pub min_version : ℕ
  pub max_version : ℕ
  pub cipher_suites : List ℕ

-- http.Server; the time-out is in seconds.
pub record Server (Cert : Type 0) : Type 0 where
  pub addr : Str
  pub routes : Routes
  pub read_header_timeout : ℕ
  pub tls : Option TlsConfig
  -- GetCertificate, from the name that a client sends.
  pub certificate : Option (Str → Cert)
  -- An error of the server ends the process.
  pub is_fatal : Bool

abbrev pub console_tls : TlsConfig
console_tls = record {
  min_version = 0x0301;
  max_version = 0x0303;
  cipher_suites = 0x002F ∷ 0x0035 ∷ 0x000A ∷ 0xC013 ∷ 0xC014 ∷ 0x009C ∷ 0xC02F ∷ [];
}

-- `load` is tls.LoadX509KeyPair over the files of this moment.
module _ {Cert : Type 0} (load : Str → Str → Option Cert) where
  abbrev loaded_or : Cert → Option Cert → Cert
  loaded_or self_signed none = self_signed
  loaded_or self_signed (some c) = c

  -- GetCertificate: the pair of Let's Encrypt is loaded anew for every client with a name.
  unfoldable pub get_certificate : Env → Cert → Str → Cert
  get_certificate getenv self_signed server_name =
      if str_beq server_name []
      then self_signed
      else loaded_or self_signed (
          load
            (env getenv (txt "FFE_LE_CERT")
              (txt "/etc/letsencrypt/live/ffe.freakybigfoot.com/fullchain.pem"))
            (env getenv (txt "FFE_LE_KEY")
              (txt "/etc/letsencrypt/live/ffe.freakybigfoot.com/privkey.pem")))

  -- startNASCServer: none is the exit of the process. GetConfigForClient only logs.
  unfoldable pub start_nasc_server : Env → Option (Server Cert)
  unfolding get_certificate
  start_nasc_server getenv =
      elim (load (env getenv (txt "FFE_TLS_CERT") (txt "certs/nasc.crt"))
        (env getenv (txt "FFE_TLS_KEY") (txt "certs/nasc.key"))) [
          | none ↦ none
          | some self_signed ↦ some (record {
            addr = env getenv (txt "FFE_NASC_ADDR") (txt ":443");
            routes = nasc_routes;
            read_header_timeout = 10;
            tls = some console_tls;
            certificate = some (get_certificate getenv self_signed);
            is_fatal = true;
          })
        ]

  -- startHTTPRegister
  unfoldable pub start_http_register : Env → Server Cert
  start_http_register getenv = record {
    addr = env getenv (txt "FFE_HTTP_ADDR") (txt ":80");
    routes = http_routes;
    read_header_timeout = 10;
    tls = none;
    certificate = none;
    is_fatal = false;
  }
