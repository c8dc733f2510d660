-- ===== src/Operator/Keeps.antt =====
-- Parts of the namespace, and the steps of controllers/objectservice_controller.go that write secrets.
use pobj.Prelude.{◌≡◌, ◌≢◌, refl, if◌then◌else◌, ℕ, true, false, Option, none, some, arith}
use pobj.Text.{Text, ==_iff, ==-refl}
use pobj.Dict.{Dict, get, get-put}
use pobj.Exec.{Result, ok, err, Exec, ◌>>=◌, lift}
use pobj.Kube.{Calls, Kind, Secret, read}
use pobj.Operator.Spec.{ObjectService}
use pobj.Operator.Pki.{Pki, Draws}
use pobj.Operator.Namespace.{Namespace, own, create_secret, update_secret}
use pobj.Operator.Tls.{
  rotate, issuing, ensure_certificate, ensure_admin_secret, create_admin_secret, ensure_tls,
  check_tls, create_or_rotate, self_signed, needs_rotation,
}

-- A part of the state is the same after the step, whether it fails or not.
abbrev pub Keeps : {V A : Type 0} → (Namespace → V) → Exec Namespace A → Type 0
Keeps view m = (s : Namespace) → view (m s).1 ≡ view s

pub Keeps->>= :
    {V A B : Type 0} (view : Namespace → V) (m : Exec Namespace A) (f : A → Exec Namespace B)
    → Keeps view m
    → ((a : A) → Keeps view (f a))
    → Keeps view (m >>= f)
Keeps->>= {V} {A} {B} view m f km kf s = from (m s).0 refl
  where
    from : (r : Result A) → (m s).0 ≡ r → view ((m >>= f) s).1 ≡ view s
    from (ok a) e = ground (arith, e, km s, kf a (m s).1)
    from (err x) e = ground (arith, e, km s)

-- What the parts of the state named here hold under a name.
abbrev pub secret_at : Text → Namespace → Option Secret
secret_at name s = get s.secrets name

abbrev pub services_in : Namespace → Dict ObjectService
services_in s = s.object_services

module _ (calls : Calls) where
  pub create_secret-ok :
      (name : Text) (v : Secret) (s : Namespace)
      → (create_secret calls name v s).0 ≡ ok tt
      → get (create_secret calls name v s).1.secrets name ≡ some v
  create_secret-ok name v s h = ground (arith, get-put s.secrets name name v, ==-refl name)

  pub update_secret-ok :
      (name : Text) (v : Secret) (s : Namespace)
      → (update_secret calls name v s).0 ≡ ok tt
      → get (update_secret calls name v s).1.secrets name ≡ some v
  update_secret-ok name v s h = ground (arith, get-put s.secrets name name v, ==-refl name)

  -- A part of the state that writes of the secret `name` do not change, nor of certificates.
  pub record Ignores {V : Type 0} (view : Namespace → V) (name : Text) : Type 0 where
    pub creates : (x : Secret) → Keeps view (create_secret calls name x)
    pub updates : (x : Secret) → Keeps view (update_secret calls name x)
    pub owns : Keeps view (own calls Kind.secret)
    pub issues :
        (pki : Pki) (draws : Draws) (now : ℕ) (obj : ObjectService)
        → Keeps view (ensure_certificate calls pki draws now obj)

  -- Another secret is such a part, and so are the object services.
  pub secret_at-Ignores : (name other : Text) → other ≢ name → Ignores (secret_at name) other
  unfolding ensure_certificate
  secret_at-Ignores name other ne = record {
    creates = λ x s. ground (arith, get-put s.secrets other name x, ==_iff other name);
    updates = λ x s. ground (arith, get-put s.secrets other name x, ==_iff other name);
    owns = λ s. ground arith;
    issues = λ pki draws now obj s. ground arith;
  }

  pub object_services-Ignores : (other : Text) → Ignores services_in other
  unfolding ensure_certificate
  object_services-Ignores other = record {
    creates = λ x s. refl;
    updates = λ x s. refl;
    owns = λ s. ground arith;
    issues = λ pki draws now obj s. ground arith;
  }

  module _ {V : Type 0} (view : Namespace → V) (pki : Pki) (draws : Draws) (now : ℕ)
      (obj : ObjectService) where
    Keeps-rotate :
        (write : Secret → Exec Namespace Unit)
        → Ignores view obj.spec.tls_secret_name
        → ((x : Secret) → Keeps view (write x))
        → Keeps view (rotate calls pki draws now obj write)
    Keeps-rotate write i k =
        Keeps->>= view (lift (self_signed calls pki draws now obj)) _ (λ s. refl)
          (λ x. Keeps->>= view (own calls Kind.secret) _ i.owns (λ u. k x))

    Keeps-create_or_rotate :
        (o : Option Secret)
        → Ignores view obj.spec.tls_secret_name
        → Keeps view (create_or_rotate calls pki draws now obj o)
    unfolding create_or_rotate
    Keeps-create_or_rotate none i = Keeps-rotate _ i i.creates
    Keeps-create_or_rotate (some x) i =
        elim (needs_rotation pki now x)
          as (λ b. Keeps view (
            if b
            then rotate calls pki draws now obj (update_secret calls obj.spec.tls_secret_name)
            else λ s. (ok tt, s))) [ true ↦ Keeps-rotate _ i i.updates | false ↦ λ s. refl ]

    Keeps-check_tls :
        (r : Result Secret)
        → Ignores view obj.spec.tls_secret_name
        → Keeps view (check_tls calls pki draws now obj r)
    unfolding check_tls
    Keeps-check_tls (ok x) i s = ground (arith, Keeps-create_or_rotate (some x) i s)
    Keeps-check_tls (err e) i s = ground (arith, Keeps-create_or_rotate none i s)

    Keeps-issuing :
        Ignores view obj.spec.tls_secret_name → Keeps view (issuing calls pki draws now obj)
    Keeps-issuing i =
        elim obj.spec.use_cert_manager
          as (λ b.
            Keeps view
              (if b then ensure_certificate calls pki draws now obj else λ s. (ok tt, s))) [
                | true ↦ i.issues pki draws now obj
                | false ↦ λ s. refl
              ]

    pub Keeps-ensure_tls :
        Ignores view obj.spec.tls_secret_name → Keeps view (ensure_tls calls pki draws now obj)
    unfolding ensure_tls
    Keeps-ensure_tls i =
        Keeps->>= view (issuing calls pki draws now obj) _ (Keeps-issuing i) (λ u s.
          Keeps-check_tls
            (read (calls.get Kind.secret obj.spec.tls_secret_name) s.secrets
              obj.spec.tls_secret_name)
            i s)

    Keeps-create_admin_secret :
        Ignores view obj.spec.admin_secret_name
        → Keeps view (create_admin_secret calls pki draws now obj)
    unfolding create_admin_secret
    Keeps-create_admin_secret i =
        Keeps->>= view (lift draws.token) _ (λ s. refl)
          (λ bytes. Keeps->>= view (own calls Kind.secret) _ i.owns (λ u. i.creates _))

    pub Keeps-ensure_admin_secret :
        Ignores view obj.spec.admin_secret_name
        → Keeps view (ensure_admin_secret calls pki draws now obj)
    unfolding ensure_admin_secret
    Keeps-ensure_admin_secret i s = ground (arith, Keeps-create_admin_secret i s)
