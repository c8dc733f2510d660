-- ===== src/Tests/Boot.antt =====
-- The start of the COSI driver at a concrete environment.
use pobj.Prelude.{◌≡◌, refl, ap, ℕ, Option, none, some, [], ◌∷◌, arith}
use pobj.Text.{Text, lit, ◌==◌}
use pobj.Dict.{get}
use pobj.Exec.{ok}
use pobj.Kube.{Secret, EnvSource, value, field_ref, secret_key_ref}
use pobj.Operator.Tls.{content}
use pobj.Operator.Workloads.{cosi_env}
use pobj.Objectd.{Env, get_env}
use pobj.Driver.{HttpClient, fatal, listening, start}
use pobj.Driver.Environment.{IsDriverRun, intended, start-operator}
use pobj.Tests.Driver.{counting, new_key}
use pobj.Tests.Objectd.{named_service}

abbrev both : Secret
both = record {
  type = lit "";
  contents = (lit "adminToken", lit "abcd") ∷ (lit "ca.crt", lit "PEM") ∷ [];
  owner = some (lit "store");
}

abbrev http_client : HttpClient ℕ
http_client = record {
  client = λ transport. counting.send;
  marshal_name = counting.marshal_name;
  marshal_grant = counting.marshal_grant;
  decode_access_key = λ body. ok new_key;
  marshal_info = λ bucket endpoint region creds. bucket;
}

resolved : Option EnvSource → Text
unfolding content ◌==◌
resolved none = []
resolved (some (value v)) = v
resolved (some (field_ref path)) = lit "driver-0"
resolved (some (secret_key_ref name k)) = content both k

driver_env : Env
unfolding resolved cosi_env get
driver_env k = resolved (get (cosi_env named_service) k)

driver_IsRun : IsDriverRun named_service (λ name. both) driver_env
unfolding driver_env resolved ◌==◌
driver_IsRun = record { values = λ k v h. ap resolved h; secrets = λ k name key h. ap resolved h }

start-operator_example :
    start http_client driver_env ≡ listening (intended http_client named_service (λ name. both))
unfolding content get ◌==◌
start-operator_example =
    start-operator http_client named_service (λ name. both) driver_env driver_IsRun
      (λ e. absurd (ground (arith, e))) (λ e. absurd (ground (arith, e)))

-- Without a token the driver does not start.
no_token : start http_client (λ k. []) ≡ fatal (lit "ENTITY_ADMIN_TOKEN is required")
unfolding start ◌==◌ get_env
no_token = refl
