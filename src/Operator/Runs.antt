-- ===== src/Operator/Runs.antt =====
-- Any number of runs of Reconcile (controllers/objectservice_controller.go), each with its own
-- failures, its own random bytes and its own time.
use pobj.Prelude.{◌≡◌, ◌≢◌, ◌∙◌, sym, ap, subst, refl, ℕ, Option, none, some, arith}
use pobj.Text.{Text, ==-refl}
use pobj.Dict.{get, get-put}
use pobj.Exec.{Error, Result, ok, err}
use pobj.Kube.{Calls, Kind, Secret, read}
use pobj.Operator.Spec.{ObjectService, with_defaults}
use pobj.Operator.Pki.{Draws}
use pobj.Operator.Namespace.{Namespace}
use pobj.Operator.Frame.{Keeps-ensure_all}
use pobj.Operator.Token.{run, reconcile_found, reconcile_missing, reconcile_token}
use pobj.Operator.Reconcile.{Reconciler, ensure_all, update_status, status_of, reconcile}

pub data Runs (r : Reconciler) (name : Text) (s : Namespace) : Namespace → Type 0 where
  start : Runs r name s s
  next :
      {t : Namespace} (calls : Calls) (draws : Draws) (now : ℕ)
      → Runs r name s t
      → Runs r name s (reconcile r calls draws now name t).1

-- The object is the one it was, but for its status.
abbrev Asks : ObjectService → Text → Namespace → Type 0
Asks stored name s =
    (o : ObjectService) × (get s.object_services name ≡ some o)
    × (record o { status = stored.status } ≡ stored)

module _ (r : Reconciler) (calls : Calls) (draws : Draws) (now : ℕ) where
  update_status-Asks :
      (stored obj : ObjectService) (name : Text) (s : Namespace)
      → obj.name ≡ name
      → Asks stored name s
      → Asks stored name (update_status r calls draws now obj s).1
  unfolding update_status
  update_status-Asks stored obj name s named (o, g, e) = from calls.update_status refl
    where
      from :
          (failure : Option Error)
          → calls.update_status ≡ failure
          → Asks stored name (update_status r calls draws now obj s).1
      from (some x) q = (o, ground (arith, q, g), e)
      from none q =
          let written = record o { status = status_of r calls draws now obj s } in
          (
            written,
            ground (arith, q, g, named, get-put s.object_services name name written, ==-refl name),
            e,
          )

  run-Asks :
      (stored obj : ObjectService) (name : Text) (s : Namespace)
      → obj.name ≡ name
      → Asks stored name s
      → Asks stored name (run r calls draws now obj s).1
  run-Asks stored obj name s named (o, g, e) = from (ensure_all r calls draws now obj s).0 refl
    where
      behind : Asks stored name (ensure_all r calls draws now obj s).1
      behind = (o, ap (λ d. get d name) (Keeps-ensure_all r calls draws now obj s) ∙ g, e)

      from :
          (result : Result (Unit {0}))
          → (ensure_all r calls draws now obj s).0 ≡ result
          → Asks stored name (run r calls draws now obj s).1
      from (ok u) q =
          rw q
            (update_status-Asks stored obj name (ensure_all r calls draws now obj s).1 named behind)
      from (err x) q = rw q behind

  reconcile-Asks :
      (stored : ObjectService) (name : Text) (s : Namespace)
      → stored.name ≡ name
      → Asks stored name s
      → Asks stored name (reconcile r calls draws now name s).1
  unfolding with_defaults
  reconcile-Asks stored name s named (o, g, e) =
      from (read (calls.get Kind.object_service name) s.object_services name) refl
    where
      from :
          (result : Result ObjectService)
          → read (calls.get Kind.object_service name) s.object_services name ≡ result
          → Asks stored name (reconcile r calls draws now name s).1
      from (err x) q = rw (reconcile_missing r calls draws now name s q) (o, g, e)
      from (ok found) q =
          let same : found ≡ o = ground (arith, q, g) in
          let is_named : found.name ≡ name = ap (λ x. x.name) same ∙ ap (λ x. x.name) e ∙ named in
          rw (reconcile_found r calls draws now name s q)
            (run-Asks stored (with_defaults found) name s is_named (o, g, e))

-- What the operator takes from the object does not depend on its status.
with_defaults-Asks :
    (o stored : ObjectService)
    → record o { status = stored.status } ≡ stored
    → (with_defaults o).spec ≡ (with_defaults stored).spec
unfolding with_defaults
with_defaults-Asks o stored e = ap (λ x. (with_defaults x).spec) e

Runs-Asks :
    (r : Reconciler) (name : Text) (s t : Namespace) (stored : ObjectService)
    → Runs r name s t
    → stored.name ≡ name
    → Asks stored name s
    → Asks stored name t
Runs-Asks r name s t stored start named a = a
Runs-Asks r name s _ stored (next {t = t} calls draws now runs) named a =
    reconcile-Asks r calls draws now stored name t named (Runs-Asks r name s t stored runs named a)

-- However often the operator runs for an object, at whatever times and whatever calls fail, the
-- secret with the admin token stays the one that it was, if the two secret names of the service
-- differ. Assumed is that the object is stored under its own name.
pub Runs-token :
    (r : Reconciler) (name : Text) (s t : Namespace) {stored : ObjectService} {x : Secret}
    → Runs r name s t
    → stored.name ≡ name
    → get s.object_services name ≡ some stored
    → (with_defaults stored).spec.tls_secret_name ≢ (with_defaults stored).spec.admin_secret_name
    → get s.secrets (with_defaults stored).spec.admin_secret_name ≡ some x
    → get t.secrets (with_defaults stored).spec.admin_secret_name ≡ some x
Runs-token r name s t start named g ne there = there
Runs-token r name s _ {stored} {x} (next {t = t} calls draws now runs) named g ne there =
    let (o, k, e) = Runs-Asks r name s t stored runs named (stored, g, refl) in
    let spec = with_defaults-Asks o stored e in
    let here = Runs-token r name s t runs named g ne there in
    let admin = ap (λ z. z.admin_secret_name) spec in
    let differs : (with_defaults o).spec.tls_secret_name
        ≢ (with_defaults o).spec.admin_secret_name =
      λ z. ne (sym (ap (λ z. z.tls_secret_name) spec) ∙ z ∙ admin) in
    subst (λ n. get (reconcile r calls draws now name t).1.secrets n ≡ some x) admin
      (reconcile_token r calls draws now name t k differs (ap (get t.secrets) admin ∙ here))
