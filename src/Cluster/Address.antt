-- ===== src/Cluster/Address.antt =====
-- internal/cluster/cluster.go: the path in the URL of a request to a peer, adminURL(i) + path.
use pobj.Prelude.{◌≡◌, refl, ℕ, Bool, true, false, [], ◌∷◌, ◌++◌, some, arith, if◌then◌else◌}
use pobj.Prelude.Int.{pos}
use pobj.Text.{Text, lit}
use pobj.Text.Parts.{decimal, decimal_ℤ}
use pobj.Text.Numbers.{all_digits, decimal-all_digits}
use pobj.Text.Url.{
  all, all-append, all-both, all-weaken, url_path, url_path-http, is_host_byte, is_authority_byte,
  is_path_byte,
}
use pobj.Store.Names.{valid_char, valid_chars, valid_bucket}
use pobj.Cluster.{Cluster, Config, admin_host, admin_url}

digits-is_host : (s : Text) → all_digits s ≡ true → all is_host_byte s ≡ true
unfolding all all_digits
digits-is_host [] h = refl
digits-is_host (c ∷ s) h = ground (arith, h, digits-is_host s)

valid_chars-is_host : (s : Text) → valid_chars s ≡ true → all is_host_byte s ≡ true
unfolding all valid_chars valid_char
valid_chars-is_host [] h = refl
valid_chars-is_host (c ∷ s) h = ground (arith, h, valid_chars-is_host s)

pub valid_bucket-is_host : (s : Text) → valid_bucket s ≡ true → all is_host_byte s ≡ true
unfolding valid_bucket
valid_bucket-is_host s h = ground (arith, h, valid_chars-is_host s)

-- The names in a configuration are DNS names, and its admin port is no negative number.
pub record IsAddressed (cfg : Config) (port : ℕ) : Type 0 where
  pub name : all is_host_byte cfg.name ≡ true
  pub headless : all is_host_byte cfg.headless_name ≡ true
  pub namespace : all is_host_byte cfg.namespace ≡ true
  pub admin_port : cfg.admin_port ≡ pos port

admin_host-is_host :
    (c : Cluster) (i port : ℕ)
    → IsAddressed c.cfg port
    → all is_host_byte (admin_host c (pos i)) ≡ true
unfolding admin_host decimal_ℤ all
admin_host-is_host c i port a =
    let number = digits-is_host (decimal i) (decimal-all_digits i) in
    simp (all-append is_host_byte, a.name, a.headless, a.namespace, number)

after_tls :
    (tls : Bool) (host port path : Text)
    → all is_host_byte host ≡ true
    → all_digits port ≡ true
    → all is_path_byte (b'/' ∷ path) ≡ true
    → url_path (
        (((((if tls then lit "https" else lit "http") ++ lit "://") ++ host) ++ lit ":") ++ port)
        ++ (b'/' ∷ path))
      ≡ some (b'/' ∷ path)
unfolding all
after_tls tls host port path h d p = from tls
  where
    authority : all is_authority_byte ((host ++ lit ":") ++ port) ≡ true
    authority =
        let wide = λ (s : Text) (k : all is_host_byte s ≡ true).
          all-weaken is_host_byte is_authority_byte s (λ c e. ground (arith, e)) k in
        all-both is_authority_byte (host ++ lit ":") port
          (all-both is_authority_byte host (lit ":") (wide host h) refl)
          (wide port (digits-is_host port d))

    from :
        (tls : Bool)
        → url_path (
            (((((if tls then lit "https" else lit "http") ++ lit "://") ++ host) ++ lit ":")
              ++ port)
            ++ (b'/' ∷ path))
          ≡ some (b'/' ∷ path)
    from true = url_path-http true ((host ++ lit ":") ++ port) path authority p
    from false = url_path-http false ((host ++ lit ":") ++ port) path authority p

pub url_path-admin_url :
    (c : Cluster) (i port : ℕ) (path : Text)
    → IsAddressed c.cfg port
    → all is_path_byte (b'/' ∷ path) ≡ true
    → url_path (admin_url c (pos i) ++ (b'/' ∷ path)) ≡ some (b'/' ∷ path)
unfolding admin_url decimal_ℤ
url_path-admin_url c i port path a p = rw a.admin_port (
    after_tls c.cfg.tls_enabled (admin_host c (pos i)) (decimal port) path
      (admin_host-is_host c i port a) (decimal-all_digits port) p)
