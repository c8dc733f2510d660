-- ===== src/Driver.antt =====
-- cmd/cosidriver/main.go: the start of the COSI driver from its environment, with NewAdminClient of
-- internal/cosi/admin_client.go and NewListener of internal/cosi/listeners.go. Its env is
-- getEnv of cmd/objectd/main.go.
pub mod Environment
use pobj.Prelude.{Bool, ℕ, Option, none, some, if◌then◌else◌}
use pobj.Text.{Text, lit, ◌==◌}
use pobj.Dict.{Dict}
use pobj.Exec.{Result}
use pobj.Http.{Method}
use pobj.Store.{AccessKey}
use pobj.Cosi.AdminClient.{AdminClient, Answer}
use pobj.Cosi.Listener.{Listener}
use pobj.Objectd.{Env, get_env}

-- http.Transport: the roots that a server's certificate is checked with, and the least TLS version,
-- where they are set.
pub record Transport : Type 0 where
  pub root_cas : Option Text
  pub min_version : Option ℕ

-- http.Client with a transport, and encoding/json on what the driver sends and receives.
pub record HttpClient (W : Type 0) : Type 0 where
  pub client : Transport → Method → Text → Dict Text → Text → W → Result Answer × W
  pub marshal_name : Text → Text
  pub marshal_grant : Text → Bool → Text
  pub decode_access_key : Text → Result AccessKey
  pub marshal_info : Text → Text → Text → AccessKey → Text

unfoldable pub transport : Text → Transport
unfolding ◌==◌
transport ca_pem =
    if ca_pem == lit ""
    then record { root_cas = none; min_version = none }
    else record { root_cas = some ca_pem; min_version = some 0x0303 }

module _ {W : Type 0} (http : HttpClient W) where
  unfoldable pub new_admin_client : Text → Text → Text → AdminClient W
  unfolding transport
  new_admin_client base_url token ca_pem = record {
    base_url = base_url;
    token = token;
    send = http.client (transport ca_pem);
    marshal_name = http.marshal_name;
    marshal_grant = http.marshal_grant;
    decode_access_key = http.decode_access_key;
  }

  unfoldable pub new_listener : Text → Text → Text → Text → AdminClient W → Listener W
  new_listener driver_name endpoint region ca_bundle admin = record {
    driver_name = driver_name;
    endpoint = endpoint;
    region = region;
    ca_bundle = ca_bundle;
    admin = admin;
    marshal_info = http.marshal_info;
  }

-- log.Fatal, or the listener that the controller runs with.
pub data Start (W : Type 0) : Type 0 where
  fatal : Text → Start W
  listening : Listener W → Start W

module _ {W : Type 0} (http : HttpClient W) where
  abbrev pub configured : Env → Listener W
  configured env =
      new_listener http (get_env env (lit "ENTITY_DRIVER_NAME") (lit "entity.io/s3"))
        (get_env env (lit "ENTITY_S3_ENDPOINT") (lit "entity.default.svc.cluster.local:9000"))
        (get_env env (lit "ENTITY_S3_REGION") (lit "us-east-1")) (env (lit "ENTITY_S3_CA_PEM"))
        (new_admin_client http
          (get_env env (lit "ENTITY_ADMIN_URL")
            (lit "https://entity.default.svc.cluster.local:19000"))
          (env (lit "ENTITY_ADMIN_TOKEN")) (env (lit "ENTITY_ADMIN_CA_PEM")))

  unfoldable pub start : Env → Start W
  unfolding ◌==◌ get_env new_listener new_admin_client
  start env =
      if env (lit "ENTITY_ADMIN_TOKEN") == lit ""
      then fatal (lit "ENTITY_ADMIN_TOKEN is required")
      else listening (configured env)
