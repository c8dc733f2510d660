-- ===== src/Operator/Token.antt =====
-- The admin secret of a service through one run of Reconcile (controllers/objectservice_controller.go).
use pobj.Prelude.{◌≡◌, ◌≢◌, ap, refl, ℕ, Option, none, some, arith}
use pobj.Text.{Text}
use pobj.Dict.{get}
use pobj.Exec.{Error, is_not_found, Exec, ok, err, ◌>>◌}
use pobj.Kube.{Calls, Kind, Secret, read}
use pobj.Operator.Spec.{ObjectService, with_defaults}
use pobj.Operator.Pki.{Draws}
use pobj.Operator.Namespace.{Namespace}
use pobj.Operator.Settled.{no_failures}
use pobj.Operator.Keeps.{Keeps->>=, secret_at, secret_at-Ignores, Keeps-ensure_tls}
use pobj.Operator.Secrets.{ensure_admin_secret_there}
use pobj.Operator.Frame.{workloads, Keeps-workloads}
use pobj.Operator.Tls.{ensure_tls}
use pobj.Operator.Reconcile.{Reconciler, ensure_all, update_status, reconcile}

module _ (r : Reconciler) (calls : Calls) (draws : Draws) (now : ℕ) (obj : ObjectService) where
  ensure_tls_on :
      (s : Namespace)
      → obj.spec.tls_secret_name ≢ obj.spec.admin_secret_name
      → secret_at obj.spec.admin_secret_name
          ((ensure_tls calls r.pki draws now obj >> workloads r calls draws now obj) s).1
        ≡ secret_at obj.spec.admin_secret_name s
  ensure_tls_on s ne =
      let name = obj.spec.admin_secret_name in
      Keeps->>= (secret_at name) (ensure_tls calls r.pki draws now obj) _
        (Keeps-ensure_tls calls (secret_at name) r.pki draws now obj
          (secret_at-Ignores calls name obj.spec.tls_secret_name ne))
        (λ u t. ap (λ p. get p.0 name) (Keeps-workloads r calls draws now obj t)) s

  -- The token that is there stays, whether the calls fail or not.
  ensure_all_token :
      (s : Namespace) {x : Secret}
      → obj.spec.tls_secret_name ≢ obj.spec.admin_secret_name
      → get s.secrets obj.spec.admin_secret_name ≡ some x
      → get (ensure_all r calls draws now obj s).1.secrets obj.spec.admin_secret_name ≡ some x
  unfolding ensure_all
  ensure_all_token s ne there =
      ground
        (arith, ensure_admin_secret_there calls r.pki draws now obj s there, ensure_tls_on s ne)

module _ (r : Reconciler) (calls : Calls) (draws : Draws) (now : ℕ) where
  update_status_secrets :
      (obj : ObjectService) (s : Namespace)
      → (update_status r calls draws now obj s).1.secrets ≡ s.secrets
  unfolding update_status
  update_status_secrets obj s = ground arith

  abbrev pub run : ObjectService → Exec Namespace Unit
  run obj = do ensure_all r calls draws now obj; update_status r calls draws now obj

  -- A run for an object that is found.
  pub reconcile_found :
      (name : Text) (s : Namespace) {stored : ObjectService}
      → read (calls.get Kind.object_service name) s.object_services name ≡ ok stored
      → reconcile r calls draws now name s ≡ run (with_defaults stored) s
  unfolding reconcile
  reconcile_found name s e = rw (e, reconcile) refl

  -- For one that is not found, nothing is changed.
  pub reconcile_missing :
      (name : Text) (s : Namespace) {e : Error}
      → read (calls.get Kind.object_service name) s.object_services name ≡ err e
      → (reconcile r calls draws now name s).1 ≡ s
  unfolding reconcile
  reconcile_missing name s q = ground arith

  run_token :
      (obj : ObjectService) (s : Namespace) {x : Secret}
      → obj.spec.tls_secret_name ≢ obj.spec.admin_secret_name
      → get s.secrets obj.spec.admin_secret_name ≡ some x
      → get (run obj s).1.secrets obj.spec.admin_secret_name ≡ some x
  run_token obj s ne there = ground (
    arith,
    ensure_all_token r calls draws now obj s ne there,
    update_status_secrets obj (ensure_all r calls draws now obj s).1,
  )

  pub reconcile_token :
      (name : Text) (s : Namespace) {stored : ObjectService} {x : Secret}
      → get s.object_services name ≡ some stored
      → (with_defaults stored).spec.tls_secret_name ≢ (with_defaults stored).spec.admin_secret_name
      → get s.secrets (with_defaults stored).spec.admin_secret_name ≡ some x
      → get
          (reconcile r calls draws now name s).1.secrets
          (with_defaults stored).spec.admin_secret_name
        ≡ some x
  unfolding reconcile
  reconcile_token name s {stored} {x} g ne there = from (calls.get Kind.object_service name) refl
    where
      from :
          (o : Option Error)
          → calls.get Kind.object_service name ≡ o
          → get
              (reconcile r calls draws now name s).1.secrets
              (with_defaults stored).spec.admin_secret_name
            ≡ some x
      from none q =
          rw (reconcile_found name s {stored = stored} (ground (arith, q, g)))
            (run_token (with_defaults stored) s ne there)
      from (some e) q = rw (reconcile_missing name s {e = e} (ground (arith, q))) there

-- No object, no call that fails.
pub reconcile_absent :
    (r : Reconciler) (draws : Draws) (now : ℕ) (name : Text) (s : Namespace)
    → get s.object_services name ≡ none
    → reconcile r no_failures draws now name s ≡ (ok tt, s)
unfolding reconcile is_not_found
reconcile_absent r draws now name s g = rw (g, reconcile) refl
