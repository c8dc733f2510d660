-- ===== src/Objectd/Environment.antt =====
-- The environment that controllers/objectservice_controller.go writes for a pod, as
-- cmd/objectd/main.go reads it.
use pobj.Prelude.{
  ◌≡◌, ◌≢◌, refl, ap, ◌∙◌, ℕ, suc, ◌<◌, ◌++◌, [], ◌∷◌, true, some, arith, if◌then◌else◌,
}
use pobj.Prelude.Int.{ℤ, pos, ltb_ℤ}
use pobj.Text.{Text, lit, ◌==◌, ==_iff}
use pobj.Text.Parts.{decimal, decimal_ℤ}
use pobj.Text.Words.{to_lower}
use pobj.Text.Numbers.{atoi-decimal, decimal-filled, trim_space-decimal}
use pobj.Dict.{get}
use pobj.Kube.{Secret, value, field_ref, secret_key_ref}
use pobj.Cluster.{Config, new, with_defaults}
use pobj.Cluster.Ordinal.{parse_ordinal-pod}
use pobj.Operator.Spec.{ObjectService, headless_name}
use pobj.Operator.Defaults.{suffixed, port_kept}
use pobj.Operator.Tls.{content}
use pobj.Operator.Workloads.{objectd_env}
use pobj.Objectd.{
  Env, get_env, atoi_default, or_default, equal_fold, tls_enabled, named, cluster_cfg,
}

-- What the kubelet makes of the variables of a container: values as they are, the pod's name and
-- namespace, and a key of a secret.
pub record IsRun (obj : ObjectService) (pod_name : Text) (secret : Text → Secret) (env : Env)
    : Type 0 where
  pub values : (k v : Text) → get (objectd_env obj) k ≡ some (value v) → env k ≡ v
  pub names :
      (k : Text)
      → get (objectd_env obj) k ≡ some (field_ref (lit "metadata.name"))
      → env k ≡ pod_name
  pub namespaces :
      (k : Text)
      → get (objectd_env obj) k ≡ some (field_ref (lit "metadata.namespace"))
      → env k ≡ obj.namespace
  pub secrets :
      (k name key : Text)
      → get (objectd_env obj) k ≡ some (secret_key_ref name key)
      → env k ≡ content (secret name) key

pub get_env-set : (env : Env) (k d : Text) {v : Text} → env k ≡ v → v ≢ [] → get_env env k d ≡ v
unfolding get_env
get_env-set env k d e n = ground (arith, e, ==_iff (env k) [])

atoi_default-decimal : (n : ℕ) (d : ℤ) → n < 0x8000000000000000 → atoi_default (decimal n) d ≡ pos n
unfolding atoi_default or_default
atoi_default-decimal n d h = rw (trim_space-decimal n, atoi-decimal n h, atoi_default) refl

dashed-filled : (name number : Text) → (name ++ lit "-") ++ number ≢ []
dashed-filled [] number e = absurd (ground (arith, e))
dashed-filled (c ∷ name) number e = absurd (ground (arith, e))

named-filled : (cfg : Config) → cfg.pod_name ≢ [] → named cfg ≡ cfg
unfolding named
named-filled cfg n = ground (arith, ==_iff cfg.pod_name [])

module _ (obj : ObjectService) (secret : Text → Secret) (env : Env) (i : ℕ) where
  abbrev pub pod : Text
  pod = (obj.name ++ lit "-") ++ decimal i

  -- What the operator means the pod with ordinal i to be configured with.
  abbrev pub intended : Config
  intended = record {
    pod_name = pod;
    namespace = obj.namespace;
    name = obj.name;
    headless_name = headless_name obj;
    replicas = obj.spec.replicas;
    s3_port = obj.spec.port;
    admin_port = pos 19000;
    token = content (secret obj.spec.admin_secret_name) (lit "adminToken");
    tls_enabled = true;
    ca_file = lit "/etc/entity/tls/ca.crt";
    cert_file = lit "/etc/entity/tls/tls.crt";
    key_file = lit "/etc/entity/tls/tls.key";
  }

  cluster_cfg-operator :
      (replicas port : ℕ)
      → IsRun obj pod secret env
      → obj.name ≢ []
      → obj.namespace ≢ []
      → obj.spec.replicas ≡ pos replicas
      → obj.spec.port ≡ pos port
      → replicas < 0x8000000000000000
      → port < 0x8000000000000000
      → cluster_cfg env ≡ intended
  unfolding cluster_cfg objectd_env get ◌==◌ headless_name tls_enabled equal_fold to_lower
  cluster_cfg-operator replicas port run name namespace r p hr hp =
      ap named (λ t. record {
        pod_name = run.names (lit "POD_NAME") refl t;
        namespace =
            get_env-set env (lit "POD_NAMESPACE") (lit "default")
              (run.namespaces (lit "POD_NAMESPACE") refl) namespace t;
        name = text_of (lit "ENTITY_SERVICE_NAME") obj.name (lit "entity") refl name t;
        headless_name =
            text_of (lit "ENTITY_HEADLESS_SERVICE_NAME") (headless_name obj) (lit "entity-headless")
              refl headless t;
        replicas =
            (ap (λ v. atoi_default v (pos 1)) (run.values (lit "ENTITY_REPLICAS") _ refl)
                ∙ number obj.spec.replicas replicas (pos 1) r hr)
              t;
        s3_port = s3 t;
        admin_port =
            ap (λ v. atoi_default v (pos 19000))
              (text_of (lit "ENTITY_ADMIN_PORT") (lit "19000") (lit "19000") refl
                (λ e. absurd (ground (arith, e))))
              t;
        token = run.secrets (lit "ENTITY_ADMIN_TOKEN") _ _ refl t;
        tls_enabled =
            ap (λ v. equal_fold v (lit "true"))
              (text_of (lit "ENTITY_TLS_ENABLED") (lit "true") (lit "false") refl
                (λ e. absurd (ground (arith, e))))
              t;
        ca_file = run.values (lit "ENTITY_TLS_CA_FILE") _ refl t;
        cert_file = run.values (lit "ENTITY_TLS_CERT_FILE") _ refl t;
        key_file = run.values (lit "ENTITY_TLS_KEY_FILE") _ refl t;
      })
      ∙ named-filled _ (dashed-filled obj.name (decimal i))
    where
      text_of :
          (k v d : Text) → get (objectd_env obj) k ≡ some (value v) → v ≢ [] → get_env env k d ≡ v
      text_of k v d g n = get_env-set env k d (run.values k v g) n

      headless : headless_name obj ≢ []
      headless = suffixed obj.name (lit "-headless") (λ e. absurd (ground (arith, e)))

      number :
          (z : ℤ) (n : ℕ) (d : ℤ)
          → z ≡ pos n
          → n < 0x8000000000000000
          → atoi_default (decimal_ℤ z) d ≡ z
      number z n d e h = rw e (atoi_default-decimal n d h)

      s3 : atoi_default (get_env env (lit "ENTITY_S3_PORT") (lit "9000")) (pos 9000) ≡ obj.spec.port
      s3 =
          ap (λ v. atoi_default v (pos 9000))
            (text_of (lit "ENTITY_S3_PORT") (decimal_ℤ obj.spec.port) (lit "9000") refl
              (rw p (decimal-filled port)))
          ∙ number obj.spec.port port (pos 9000) p hp

  -- The cluster that the pod with ordinal i sees is the one that the operator means: the names,
  -- replicas and port of the service, TLS with the mounted files, the token of the admin
  -- secret, and the ordinal i. Assumed is that the environment is what the operator wrote with
  -- its references resolved, that name and namespace are not empty, and that replicas and port
  -- are positive; these and i are below 2 ^ 63.
  pub new-operator :
      (replicas port : ℕ)
      → IsRun obj pod secret env
      → obj.name ≢ []
      → obj.namespace ≢ []
      → obj.spec.replicas ≡ pos (suc replicas)
      → obj.spec.port ≡ pos (suc port)
      → suc replicas < 0x8000000000000000
      → suc port < 0x8000000000000000
      → i < 0x8000000000000000
      → new (cluster_cfg env) ≡ record { cfg = intended; ordinal = pos i }
  unfolding new with_defaults
  new-operator replicas port run name namespace r p hr hp hi =
      ap new (cluster_cfg-operator (suc replicas) (suc port) run name namespace r p hr hp)
      ∙ (λ t. record { cfg = same t; ordinal = parse_ordinal-pod obj.name i hi t })
    where
      kept_replicas :
          (if ltb_ℤ (pos 0) obj.spec.replicas then obj.spec.replicas else pos 1) ≡ obj.spec.replicas
      kept_replicas = ground (arith, r)

      same : with_defaults intended ≡ intended
      same = λ t. record intended {
        replicas = kept_replicas t;
        s3_port = port_kept obj.spec.port (λ e. absurd (ground (arith, e, p))) t;
      }
