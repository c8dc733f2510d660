-- ===== src/Operator/Defaults.antt =====
-- The defaults that Reconcile (controllers/objectservice_controller.go) fills in.
use pobj.Prelude.{if◌then◌else◌, ap, ◌≡◌, ◌≢◌, refl, ◌++◌, [], ◌∷◌, Bool, true, false, arith}
use pobj.Prelude.Int.{ℤ, pos, ltb_ℤ, eqb_ℤ, eqb_ℤ-≡}
use pobj.Text.{Text, lit, ==_iff}
use pobj.Operator.Spec.{ObjectService, ObjectServiceSpec, or_else, with_defaults}

-- What the rest of a run relies on: a replica at least, a port, and no empty name, size or path.
pub record IsFilled (spec : ObjectServiceSpec) : Type 0 where
  pub replicas : ltb_ℤ (pos 0) spec.replicas ≡ true
  pub port : spec.port ≢ pos 0
  pub service_type : spec.service_type ≢ []
  pub data_path : spec.data_path ≢ []
  pub volume_size : spec.volume_size ≢ []
  pub admin_secret_name : spec.admin_secret_name ≢ []
  pub tls_secret_name : spec.tls_secret_name ≢ []

or_else-filled : (v d : Text) → d ≢ [] → or_else v d ≢ []
or_else-filled v d n e = absurd (n (ground (arith, ==_iff v [], e)))

or_else-same : (v d : Text) → v ≢ [] → or_else v d ≡ v
or_else-same v d n = ground (arith, ==_iff v [])

at_least_one : (z : ℤ) → ltb_ℤ (pos 0) (if ltb_ℤ (pos 0) z then z else pos 1) ≡ true
at_least_one z = from (ltb_ℤ (pos 0) z) refl
  where
    from :
        (b : Bool)
        → ltb_ℤ (pos 0) z ≡ b
        → ltb_ℤ (pos 0) (if ltb_ℤ (pos 0) z then z else pos 1) ≡ true
    from true e = rw e e
    from false e = rw e refl

some_port : (z : ℤ) → (if eqb_ℤ z (pos 0) then pos 9000 else z) ≢ pos 0
some_port z h = from (eqb_ℤ z (pos 0)) refl
  where
    from : (b : Bool) → eqb_ℤ z (pos 0) ≡ b → ⊥
    from true e = absurd (ground (arith, e, h))
    from false e =
        let zero : z ≡ pos 0 = ground (arith, e, h) in
        absurd (ground (arith, ap (λ x. eqb_ℤ x (pos 0)) zero, e))

pub port_kept : (z : ℤ) → z ≢ pos 0 → (if eqb_ℤ z (pos 0) then pos 9000 else z) ≡ z
port_kept z n = from (eqb_ℤ z (pos 0)) refl
  where
    from : (b : Bool) → eqb_ℤ z (pos 0) ≡ b → (if eqb_ℤ z (pos 0) then pos 9000 else z) ≡ z
    from true e = absurd (n (eqb_ℤ-≡ z (pos 0) e))
    from false e = rw e refl

-- A name with a suffix is not empty.
pub suffixed : (name suffix : Text) → suffix ≢ [] → name ++ suffix ≢ []
suffixed [] suffix n e = n e
suffixed (c ∷ name) suffix n e = absurd (ground (arith, e))

with_defaults-IsFilled : (obj : ObjectService) → IsFilled (with_defaults obj).spec
unfolding with_defaults
with_defaults-IsFilled obj =
    let spec = obj.spec in
    record {
      replicas = at_least_one spec.replicas;
      port = some_port spec.port;
      service_type =
          or_else-filled spec.service_type (lit "ClusterIP") (λ e. absurd (ground (arith, e)));
      data_path = or_else-filled spec.data_path (lit "/data") (λ e. absurd (ground (arith, e)));
      volume_size = or_else-filled spec.volume_size (lit "100Gi") (λ e. absurd (ground (arith, e)));
      admin_secret_name =
          or_else-filled spec.admin_secret_name (obj.name ++ lit "-admin")
            (suffixed obj.name (lit "-admin") (λ e. absurd (ground (arith, e))));
      tls_secret_name =
          or_else-filled spec.tls_secret_name (obj.name ++ lit "-tls")
            (suffixed obj.name (lit "-tls") (λ e. absurd (ground (arith, e))));
    }

-- They are filled in once: what is there already stays.
with_defaults_same : (obj : ObjectService) → IsFilled obj.spec → with_defaults obj ≡ obj
unfolding with_defaults
with_defaults_same obj f =
    let spec = obj.spec in
    rw
      (
        f.replicas,
        port_kept spec.port f.port,
        or_else-same spec.service_type (lit "ClusterIP") f.service_type,
        or_else-same spec.data_path (lit "/data") f.data_path,
        or_else-same spec.volume_size (lit "100Gi") f.volume_size,
        or_else-same spec.admin_secret_name (obj.name ++ lit "-admin") f.admin_secret_name,
        or_else-same spec.tls_secret_name (obj.name ++ lit "-tls") f.tls_secret_name,
      )
      refl

-- After the defaults the service has a replica at least, a port that is not 0, and no empty
-- service type, path, size or secret name; and filling them in a second time changes nothing.
pub with_defaults_lem :
    (obj : ObjectService)
    → IsFilled (with_defaults obj).spec × (with_defaults (with_defaults obj) ≡ with_defaults obj)
with_defaults_lem obj =
    let filled = with_defaults-IsFilled obj in
    (filled, with_defaults_same (with_defaults obj) filled)
