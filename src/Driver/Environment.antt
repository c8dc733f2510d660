-- ===== src/Driver/Environment.antt =====
-- The environment that controllers/objectservice_controller.go writes for the COSI driver, as
-- cmd/cosidriver/main.go reads it.
use pobj.Prelude.{ℕ, ◌≡◌, ◌≢◌, sym, refl, ap, ◌∙◌, ◌++◌, [], ◌∷◌, some, arith}
use pobj.Text.{Text, lit, ◌==◌, ==_iff}
use pobj.Text.Parts.{decimal_ℤ}
use pobj.Dict.{get}
use pobj.Kube.{Secret, value, secret_key_ref}
use pobj.Cosi.Listener.{Listener}
use pobj.Objectd.{Env, get_env}
use pobj.Objectd.Environment.{get_env-set}
use pobj.Operator.Spec.{ObjectService}
use pobj.Operator.Tls.{content}
use pobj.Operator.Workloads.{cosi_env, endpoint_of, admin_url_of}
use pobj.Driver.{
  HttpClient, listening, start, configured, transport, new_listener, new_admin_client,
}

-- What the kubelet makes of the variables of the driver's container.
pub record IsDriverRun (obj : ObjectService) (secret : Text → Secret) (env : Env) : Type 0 where
  pub values : (k v : Text) → get (cosi_env obj) k ≡ some (value v) → env k ≡ v
  pub secrets :
      (k name key : Text)
      → get (cosi_env obj) k ≡ some (secret_key_ref name key)
      → env k ≡ content (secret name) key

split-filled : (a : Text) (c : ℕ) (b : Text) → (a ++ (c ∷ [])) ++ b ≢ []
split-filled [] c b e = absurd (ground (arith, e))
split-filled (d ∷ a) c b e = absurd (ground (arith, e))

transport-set :
    (ca : Text) → ca ≢ [] → transport ca ≡ record { root_cas = some ca; min_version = some 0x0303 }
unfolding transport
transport-set ca n = ground (arith, ==_iff ca [])

start-set :
    {W : Type 0} (http : HttpClient W) (env : Env)
    → env (lit "ENTITY_ADMIN_TOKEN") ≢ []
    → start http env ≡ listening (configured http env)
unfolding start
start-set http env n = ground (arith, ==_iff (env (lit "ENTITY_ADMIN_TOKEN")) [])

module _ {W : Type 0} (http : HttpClient W) (obj : ObjectService) (secret : Text → Secret) where
  -- What the operator means the driver to be configured with.
  abbrev pub intended : Listener W
  intended =
      let ca = content (secret obj.spec.tls_secret_name) (lit "ca.crt") in
      record {
        driver_name = lit "entity.io/s3";
        endpoint = endpoint_of obj;
        region = lit "us-east-1";
        ca_bundle = ca;
        admin = record {
          base_url = admin_url_of obj;
          token = content (secret obj.spec.admin_secret_name) (lit "adminToken");
          send = http.client (record { root_cas = some ca; min_version = some 0x0303 });
          marshal_name = http.marshal_name;
          marshal_grant = http.marshal_grant;
          decode_access_key = http.decode_access_key;
        };
        marshal_info = http.marshal_info;
      }

  -- The COSI driver that the operator deploys runs as the operator means it: it asks the admin
  -- port of the service with the token of the admin secret, trusts no server but by the CA of
  -- the TLS secret, and hands out the endpoint of the service with that CA. Assumed is that the
  -- environment is what the operator wrote with its references resolved, and that neither the
  -- CA nor the token is empty.
  pub start-operator :
      (env : Env)
      → IsDriverRun obj secret env
      → content (secret obj.spec.tls_secret_name) (lit "ca.crt") ≢ []
      → content (secret obj.spec.admin_secret_name) (lit "adminToken") ≢ []
      → start http env ≡ listening intended
  unfolding cosi_env get ◌==◌ new_listener new_admin_client endpoint_of admin_url_of
  start-operator env run ca token =
      start-set http env (λ e. token (sym (run.secrets (lit "ENTITY_ADMIN_TOKEN") _ _ refl) ∙ e))
      ∙ ap listening (λ t. record {
        driver_name =
            text_of (lit "ENTITY_DRIVER_NAME") (lit "entity.io/s3") (lit "entity.io/s3") refl
              (λ e. absurd (ground (arith, e))) t;
        endpoint =
            text_of (lit "ENTITY_S3_ENDPOINT") (endpoint_of obj)
              (lit "entity.default.svc.cluster.local:9000") refl
              (split-filled (((obj.name ++ lit ".") ++ obj.namespace) ++ lit ".svc.cluster.local")
                b':' (decimal_ℤ obj.spec.port))
              t;
        region =
            text_of (lit "ENTITY_S3_REGION") (lit "us-east-1") (lit "us-east-1") refl
              (λ e. absurd (ground (arith, e))) t;
        ca_bundle = run.secrets (lit "ENTITY_S3_CA_PEM") _ _ refl t;
        admin = record {
          base_url =
              text_of (lit "ENTITY_ADMIN_URL") (admin_url_of obj)
                (lit "https://entity.default.svc.cluster.local:19000") refl
                (λ e. absurd (ground (arith, e))) t;
          token = run.secrets (lit "ENTITY_ADMIN_TOKEN") _ _ refl t;
          send = http.client (
              (ap transport (run.secrets (lit "ENTITY_ADMIN_CA_PEM") _ _ refl) ∙ transport-set _ ca)
                t);
          marshal_name = http.marshal_name;
          marshal_grant = http.marshal_grant;
          decode_access_key = http.decode_access_key;
        };
        marshal_info = http.marshal_info;
      })
    where
      text_of :
          (k v d : Text) → get (cosi_env obj) k ≡ some (value v) → v ≢ [] → get_env env k d ≡ v
      text_of k v d g n = get_env-set env k d (run.values k v g) n
