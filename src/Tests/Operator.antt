-- ===== src/Tests/Operator.antt =====
-- The theorems about the operator at concrete inputs.
use pobj.Prelude.{◌≡◌, ◌≢◌, refl, true, false, some, [], ◌∷◌, arith}
use pobj.Prelude.Int.{pos}
use pobj.Text.{lit, ◌==◌}
use pobj.Dict.{get}
use pobj.Exec.{Result, ok, err, failed}
use pobj.Kube.{Calls, Secret}
use pobj.Operator.Spec.{ObjectService, with_defaults}
use pobj.Operator.Pki.{Draws}
use pobj.Operator.Namespace.{Namespace}
use pobj.Operator.Settled.{no_failures}
use pobj.Operator.Rotation.{needs_rotation-self_signed}
use pobj.Operator.Reconcile.{Reconciler, reconcile}
use pobj.Operator.Again.{reconcile_again}
use pobj.Operator.Runs.{Runs, start, next, Runs-token}
use pobj.Operator.Defaults.{IsFilled, with_defaults_lem}
use pobj.Operator.Tls.{self_signed, needs_rotation}
use pobj.Tests.Codec.{small_pki, small_pki-IsLawful}

abbrev pub store_service : ObjectService
store_service = record {
  name = lit "store";
  namespace = lit "default";
  generation = pos 1;
  spec = record {
    replicas = pos 3;
    storage_class_name = lit "";
    volume_size = lit "";
    service_type = lit "";
    port = pos 9000;
    tls_secret_name = lit "";
    use_cert_manager = false;
    issuer_ref_name = lit "";
    issuer_ref_kind = lit "";
    issuer_ref_group = lit "";
    admin_secret_name = lit "";
    data_path = lit "";
    enable_versioning = false;
    force_path_style = true;
  };
  status = record {
    phase = lit "";
    ready_replicas = pos 0;
    service_endpoint = lit "";
    observed_generation = pos 0;
  };
}

abbrev pub reconciler : Reconciler
reconciler = record { operator_image = lit "entity:1"; pki = small_pki; parse_quantity = λ t. ok t }

abbrev pub draws : Draws
draws = record {
  token = ok (171 ∷ 205 ∷ []);
  ca_key = ok (lit "ca key");
  ca_serial = 1;
  leaf_key = ok (lit "leaf key");
  leaf_serial = 2;
}

abbrev other_draws : Draws
other_draws = record draws { token = ok (1 ∷ 2 ∷ []); ca_serial = 3 }

abbrev only_service : Namespace
only_service = record {
  object_services = (lit "store", store_service) ∷ [];
  secrets = [];
  services = [];
  stateful_sets = [];
  deployments = [];
  certificates = [];
}

abbrev token_secret : Secret
token_secret = record {
  type = lit "";
  contents = (lit "adminToken", lit "abcd") ∷ [];
  owner = some (lit "store");
}

abbrev with_token : Namespace
with_token = record only_service { secrets = (lit "store-admin", token_secret) ∷ [] }

-- Every service call fails.
abbrev no_services : Calls
no_services = record no_failures { create = λ kind name. some (failed (lit "quota")) }

with_defaults_lem_example :
    IsFilled (with_defaults store_service).spec
    × (with_defaults (with_defaults store_service) ≡ with_defaults store_service)
with_defaults_lem_example = with_defaults_lem store_service

named_store :
    (o : ObjectService)
    → get only_service.object_services (lit "store") ≡ some o
    → o.name ≡ lit "store"
unfolding get ◌==◌
named_store o h = ground (arith, h)

first_run : (reconcile reconciler no_failures draws 1000000 (lit "store") only_service).0 ≡ ok tt
unfolding reconcile
first_run = refl

reconcile_again_example :
    let u = (reconcile reconciler no_failures draws 1000000 (lit "store") only_service).1 in
    reconcile reconciler no_failures other_draws 1000000 (lit "store") u ≡ (ok tt, u)
reconcile_again_example =
    reconcile_again reconciler no_failures draws other_draws 1000000 (lit "store") only_service
      small_pki-IsLawful named_store (λ kind key. refl) first_run

abbrev after_two : Namespace
after_two =
    (reconcile reconciler no_failures other_draws 20000000 (lit "store")
      (reconcile reconciler no_services draws 1000000 (lit "store") with_token).1).1

after_two-Runs : Runs reconciler (lit "store") with_token after_two
after_two-Runs = next no_failures other_draws 20000000 (next no_services draws 1000000 start)

stored_service : get with_token.object_services (lit "store") ≡ some store_service
unfolding get ◌==◌
stored_service = refl

other_names :
    (with_defaults store_service).spec.tls_secret_name
    ≢ (with_defaults store_service).spec.admin_secret_name
unfolding with_defaults ◌==◌
other_names e = absurd (ground (arith, e))

token_there :
    get with_token.secrets (with_defaults store_service).spec.admin_secret_name ≡ some token_secret
unfolding with_defaults get ◌==◌
token_there = refl

Runs-token_example :
    get after_two.secrets (with_defaults store_service).spec.admin_secret_name ≡ some token_secret
Runs-token_example =
    Runs-token reconciler (lit "store") with_token after_two after_two-Runs refl stored_service
      other_names token_there

abbrev secret_of : Result Secret → Secret
secret_of (ok x) = x
secret_of (err e) = token_secret

abbrev leaf_secret : Secret
leaf_secret = secret_of (self_signed no_failures small_pki draws 1000000 store_service)

made : self_signed no_failures small_pki draws 1000000 store_service ≡ ok leaf_secret
unfolding self_signed
made = refl

needs_rotation-self_signed_example : needs_rotation small_pki 13000000 leaf_secret ≡ false
needs_rotation-self_signed_example =
    needs_rotation-self_signed small_pki draws 1000000 no_failures store_service 13000000
      small_pki-IsLawful made (omega arith)
