-- ===== src/Objectd/Start.antt =====
-- How a pod starts (cmd/objectd/main.go).
use pobj.Prelude.{
  ◌≡◌, ◌≢◌, ◌↔◌, refl, sym, ap, subst, ◌∙◌, [], Bool, true, false, Option, some, none, arith,
}
use pobj.Text.{Text, lit, ◌==◌, ==_iff}
use pobj.Exec.{Result, ok, err}
use pobj.Store.{Store, Platform, Io, Disk, open_store}
use pobj.Objectd.{
  Env, get_env, tls_enabled, Files, TlsConfig, verify_client_cert_if_given, make_server_tls_config,
  Process, Boot, serving, panicked, secured, with_tls, started, opened, boot,
}

-- The two servers of a process without TLS, or with the same key pair and client certificates
-- verified on the admin port.
abbrev pub IsSecured : Bool → Process → Type 0
IsSecured false p = (p.s3_server.tls_config ≡ none) × (p.admin_server.tls_config ≡ none)
IsSecured true p =
    (cfg : TlsConfig) × (p.s3_server.tls_config ≡ some cfg)
    × (p.admin_server.tls_config ≡ some (record cfg { client_auth = verify_client_cert_if_given }))

process_of : Process → Boot → Process
process_of p (serving q) = q
process_of p _ = p

serving-inj : (p q : Process) → serving p ≡ serving q → p ≡ q
unfolding process_of
serving-inj p q h = ap (process_of p) h

secured-IsSecured :
    (p q : Process) (o : Result (Option TlsConfig))
    → secured p o ≡ serving q
    → (q.token ≡ p.token) × (q.store ≡ p.store) × IsSecured true q
unfolding secured
secured-IsSecured p q (err e) h = absurd (ground (arith, h))
secured-IsSecured p q (ok none) h = absurd (ground (arith, h))
secured-IsSecured p q (ok (some cfg)) h =
    subst (λ x. (x.token ≡ p.token) × (x.store ≡ p.store) × IsSecured true x) (serving-inj _ q h)
      (refl, refl, (cfg, refl, refl))

abbrev tls_result : Files → Env → Result (Option TlsConfig)
tls_result files env =
    make_server_tls_config files (env (lit "ENTITY_TLS_CERT_FILE"))
      (env (lit "ENTITY_TLS_KEY_FILE")) (env (lit "ENTITY_TLS_CA_FILE"))

with_tls-IsSecured :
    (files : Files) (env : Env) (p q : Process)
    → p.s3_server.tls_config ≡ none
    → p.admin_server.tls_config ≡ none
    → with_tls files env p ≡ serving q
    → (q.token ≡ p.token) × (q.store ≡ p.store) × IsSecured (tls_enabled env) q
unfolding with_tls
with_tls-IsSecured files env p q a b h = from (tls_enabled env) refl
  where
    from :
        (t : Bool)
        → tls_enabled env ≡ t
        → (q.token ≡ p.token) × (q.store ≡ p.store) × IsSecured (tls_enabled env) q
    from true e = rw e (secured-IsSecured p q (tls_result files env) (ground (arith, e, h)))
    from false e = rw e (
        subst (λ x. (x.token ≡ p.token) × (x.store ≡ p.store) × IsSecured false x)
          (serving-inj p q (ground (arith, e, h))) (refl, refl, (a, b)))

module _ (lib : Platform) (io : Io) (files : Files) (env : Env) (disk : Disk) where
  -- A pod that serves has the token of its environment, which is not empty, and the store that
  -- was opened; with TLS on, both ports use one configuration and the admin port verifies
  -- client certificates, and with TLS off neither uses any.
  pub boot-serving :
      (p : Process)
      → boot lib io files env disk ≡ serving p
      → (p.token ≡ env (lit "ENTITY_ADMIN_TOKEN"))
        × (p.token ≢ [])
        × (open_store lib io (get_env env (lit "ENTITY_DATA_DIR") (lit "/data")) disk ≡ ok p.store)
        × IsSecured (tls_enabled env) p
  unfolding boot opened started
  boot-serving p h =
      from (open_store lib io (get_env env (lit "ENTITY_DATA_DIR") (lit "/data")) disk)
        (env (lit "ENTITY_ADMIN_TOKEN") == lit "") refl refl
    where
      from :
          (r : Result Store) (b : Bool)
          → open_store lib io (get_env env (lit "ENTITY_DATA_DIR") (lit "/data")) disk ≡ r
          → (env (lit "ENTITY_ADMIN_TOKEN") == lit "") ≡ b
          → (p.token ≡ env (lit "ENTITY_ADMIN_TOKEN"))
            × (p.token ≢ [])
            × (open_store lib io (get_env env (lit "ENTITY_DATA_DIR") (lit "/data")) disk
                ≡ ok p.store)
            × IsSecured (tls_enabled env) p
      from r true e q = absurd (ground (arith, q, h))
      from (err x) false e q = absurd (ground (arith, q, e, h))
      from (ok store) false e q =
          let (token, kept, secure) =
            with_tls-IsSecured files env (started env store) p refl refl
              (ground (arith, q, e, h)) in
          (
            token,
            λ z.
                absurd
                  (ground (arith, q, ==_iff (env (lit "ENTITY_ADMIN_TOKEN")) [], sym token ∙ z)),
            e ∙ ap ok (sym kept),
            secure,
          )

  -- With a token, a store that opens, TLS on, a key pair that loads and a CA file that is read,
  -- the start of a pod panics exactly if no certificate is found in the CA file.
  pub boot-panicked :
      (ca cert : Text)
      → env (lit "ENTITY_ADMIN_TOKEN") ≢ []
      → (store : Store)
      → open_store lib io (get_env env (lit "ENTITY_DATA_DIR") (lit "/data")) disk ≡ ok store
      → tls_enabled env ≡ true
      → files.load_key_pair (env (lit "ENTITY_TLS_CERT_FILE")) (env (lit "ENTITY_TLS_KEY_FILE"))
        ≡ ok cert
      → env (lit "ENTITY_TLS_CA_FILE") ≢ []
      → files.read_file (env (lit "ENTITY_TLS_CA_FILE")) ≡ ok ca
      → (boot lib io files env disk ≡ panicked) ↔ (files.append_certs ca ≡ false)
  unfolding boot opened started with_tls secured make_server_tls_config
  boot-panicked ca cert token store s t k c r = (
    λ h. ground (
      arith,
      h,
      ==_iff (env (lit "ENTITY_ADMIN_TOKEN")) [],
      ==_iff (env (lit "ENTITY_TLS_CA_FILE")) [],
    ),
    λ h. ground (
      arith,
      h,
      ==_iff (env (lit "ENTITY_ADMIN_TOKEN")) [],
      ==_iff (env (lit "ENTITY_TLS_CA_FILE")) [],
    ),
  )
