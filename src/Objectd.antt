-- ===== src/Objectd.antt =====
-- cmd/objectd/main.go: the start of one pod from its environment, and the two servers.
pub mod Environment
pub mod Ports
pub mod Start
pub mod Hosts
use pobj.Prelude.{◌++◌, Bool, true, false, not, ℕ, Option, none, some, if◌then◌else◌}
use pobj.Prelude.Int.{ℤ, pos}
use pobj.Text.{Text, lit, ◌==◌}
use pobj.Text.Parts.{atoi}
use pobj.Text.Words.{to_lower, trim_space}
use pobj.Exec.{Result, ok, err, error_text}
use pobj.Http.{Request, Response, Json}
use pobj.Store.{Store, Platform, Io, Disk, open_store}
use pobj.Cluster.{Config, Cluster, Net, new}
use pobj.S3.{Node}
use pobj.S3
use pobj.Admin
use pobj.Replication

-- os.Getenv: "" for a variable that is not set.
abbrev pub Env : Type 0
Env = Text → Text

unfoldable pub get_env : Env → Text → Text → Text
unfolding ◌==◌
get_env env k d = if not (env k == lit "") then env k else d

or_default : ℤ → Option ℤ → ℤ
or_default d none = d
or_default d (some i) = i

unfoldable pub atoi_default : Text → ℤ → ℤ
unfolding trim_space atoi or_default
atoi_default v d = or_default d (atoi (trim_space v))

-- strings.EqualFold on ASCII text.
unfoldable pub equal_fold : Text → Text → Bool
unfolding to_lower ◌==◌
equal_fold s t = to_lower s == to_lower t

unfoldable pub tls_enabled : Env → Bool
unfolding get_env equal_fold
tls_enabled env = equal_fold (get_env env (lit "ENTITY_TLS_ENABLED") (lit "false")) (lit "true")

-- The pod's name, which falls back to the first pod of the service.
unfoldable pub named : Config → Config
unfolding ◌==◌
named cfg = if cfg.pod_name == lit "" then record cfg { pod_name = cfg.name ++ lit "-0" } else cfg

unfoldable pub cluster_cfg : Env → Config
unfolding get_env atoi_default tls_enabled named
cluster_cfg env =
    let s3_port = get_env env (lit "ENTITY_S3_PORT") (lit "9000") in
    let admin_port = get_env env (lit "ENTITY_ADMIN_PORT") (lit "19000") in
    named (record {
      pod_name = env (lit "POD_NAME");
      namespace = get_env env (lit "POD_NAMESPACE") (lit "default");
      name = get_env env (lit "ENTITY_SERVICE_NAME") (lit "entity");
      headless_name = get_env env (lit "ENTITY_HEADLESS_SERVICE_NAME") (lit "entity-headless");
      replicas = atoi_default (env (lit "ENTITY_REPLICAS")) (pos 1);
      s3_port = atoi_default s3_port (pos 9000);
      admin_port = atoi_default admin_port (pos 19000);
      token = env (lit "ENTITY_ADMIN_TOKEN");
      tls_enabled = tls_enabled env;
      ca_file = env (lit "ENTITY_TLS_CA_FILE");
      cert_file = env (lit "ENTITY_TLS_CERT_FILE");
      key_file = env (lit "ENTITY_TLS_KEY_FILE");
    })

pub data ClientAuth : Type 0 where
  no_client_cert verify_client_cert_if_given : ClientAuth

-- tls.Config; a pool is the PEM text that it is made from.
pub record TlsConfig : Type 0 where
  pub min_version : ℕ
  pub certificate : Text
  pub client_cas : Option Text
  pub client_auth : ClientAuth

-- tls.LoadX509KeyPair, os.ReadFile, and whether AppendCertsFromPEM finds a certificate.
pub record Files : Type 0 where
  pub load_key_pair : Text → Text → Result Text
  pub read_file : Text → Result Text
  pub append_certs : Text → Bool

-- The two results together: `ok none` is (nil, nil), as where the CA file has no certificate.
unfoldable pub make_server_tls_config : Files → Text → Text → Text → Result (Option TlsConfig)
unfolding ◌==◌
make_server_tls_config files cert_file key_file ca_file =
    elim (files.load_key_pair cert_file key_file) [
      | err e ↦ err e
      | ok cert ↦
          let tls_cfg : TlsConfig = record {
            min_version = 0x0303;
            certificate = cert;
            client_cas = none;
            client_auth = no_client_cert;
          } in
          if not (ca_file == lit "")
          then elim (files.read_file ca_file) [
            | err e ↦ err e
            | ok ca_bytes ↦
                if not (files.append_certs ca_bytes)
                then ok none
                else ok (some (record tls_cfg { client_cas = some ca_bytes }))
          ]
          else ok (some tls_cfg)
    ]

pub record Server : Type 0 where
  pub addr : Text
  pub tls_config : Option TlsConfig

pub record Process : Type 0 where
  pub cluster : Cluster
  pub token : Text
  pub store : Store
  pub s3_server : Server
  pub admin_server : Server

-- log.Fatal, a nil pointer that is followed, or two servers that listen.
pub data Boot : Type 0 where
  fatal : Text → Boot
  panicked : Boot
  serving : Process → Boot

-- The TLS of the admin server. `tlsCfg.Clone()` is nil for a nil `tlsCfg`, and then the assignment to
-- `adminTLS.ClientAuth` follows a nil pointer.
unfoldable pub secured : Process → Result (Option TlsConfig) → Boot
unfolding error_text
secured p (err e) = fatal (lit "failed to build TLS config: " ++ error_text e)
secured p (ok none) = panicked
secured p (ok (some tls_cfg)) = serving (record p {
  s3_server = record p.s3_server { tls_config = some tls_cfg };
  admin_server = record p.admin_server {
    tls_config = some (record tls_cfg { client_auth = verify_client_cert_if_given });
  };
})

-- The process with its store, before TLS.
unfoldable pub started : Env → Store → Process
unfolding get_env cluster_cfg new
started env store = record {
  cluster = new (cluster_cfg env);
  token = env (lit "ENTITY_ADMIN_TOKEN");
  store = store;
  s3_server = record {
    addr = lit ":" ++ get_env env (lit "ENTITY_S3_PORT") (lit "9000");
    tls_config = none;
  };
  admin_server = record {
    addr = lit ":" ++ get_env env (lit "ENTITY_ADMIN_PORT") (lit "19000");
    tls_config = none;
  };
}

-- `if tlsEnabled { … }`
unfoldable pub with_tls : Files → Env → Process → Boot
unfolding tls_enabled make_server_tls_config secured
with_tls files env p =
    if tls_enabled env
    then secured p (
        make_server_tls_config files (env (lit "ENTITY_TLS_CERT_FILE"))
          (env (lit "ENTITY_TLS_KEY_FILE")) (env (lit "ENTITY_TLS_CA_FILE")))
    else serving p

opened : Files → Env → Result Store → Boot
unfolding error_text started with_tls
opened files env (err e) = fatal (lit "failed to open store: " ++ error_text e)
opened files env (ok store) = with_tls files env (started env store)

module _ (lib : Platform) (io : Io) (files : Files) where
  unfoldable pub boot : Env → Disk → Boot
  unfolding get_env open_store opened ◌==◌
  boot env disk =
      if env (lit "ENTITY_ADMIN_TOKEN") == lit ""
      then fatal (lit "ENTITY_ADMIN_TOKEN must be set")
      else opened files env
          (open_store lib io (get_env env (lit "ENTITY_DATA_DIR") (lit "/data")) disk)

-- What a http.ServeMux makes of a request: one of its handlers, or an answer of its own, such as a
-- redirect to the cleaned path or 404.
pub data Route (Handler : Type 0) : Type 0 where
  handler : Handler → Route Handler
  own_answer : Response → Route Handler

pub data AdminHandler : Type 0 where
  cluster_handler admin_handler : AdminHandler

module _ {W : Type 0} (lib : Platform) (io : Io) (json : Json) (net : Net W) (p : Process) where
  -- The handlers that `main` registers, behind the choice of the mux.
  unfoldable pub serve_admin_port : Route AdminHandler → Request → Node W → Response × Node W
  unfolding Admin.serve_http Replication.serve_http
  serve_admin_port (own_answer response) r n = (response, n)
  serve_admin_port (handler cluster_handler) r n =
      let (response, store) = Replication.serve_http lib io json p.token r n.store in
      (response, record n { store = store })
  serve_admin_port (handler admin_handler) r n =
      Admin.serve_http lib io json net (some p.cluster) p.token r n

  unfoldable pub serve_s3_port :
      (Text → Text → Text) → Route (Unit {0}) → Request → Node W → Response × Node W
  unfolding S3.serve_http
  serve_s3_port hmac (own_answer response) r n = (response, n)
  serve_s3_port hmac (handler u) r n = S3.serve_http lib io net (some p.cluster) hmac r n
