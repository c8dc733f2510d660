-- ===== src/Cluster/Proxy.antt =====
-- internal/cluster/cluster.go, ProxyToLeader: the server that a request of the S3 API is proxied to.
use pobj.Prelude.{
  ◌≡◌, ◌≢◌, refl, sym, ap, ◌∙◌, ℕ, Bool, true, false, ◌||◌, [], ◌∷◌, ◌++◌, arith, eqb, length, drop,
  if◌then◌else◌,
}
use pobj.Prelude.Int.{pos}
use mathlib.Core.List.{append-nil, append_assoc}
use pobj.Text.{Text, lit, has_prefix}
use pobj.Text.Parts.{decimal, decimal_ℤ}
use pobj.Text.Numbers.{all_digits, decimal-filled, decimal-all_digits}
use pobj.Cluster.{Cluster, admin_host, admin_url}
use pobj.Cluster.Transport.{Service, base, replace_first}

unfoldable pub has_colon : Text → Bool
has_colon [] = false
has_colon (c ∷ s) = eqb c b':' || has_colon s

has_colon-append : (a b : Text) → has_colon (a ++ b) ≡ (has_colon a || has_colon b)
unfolding has_colon
has_colon-append [] b = refl
has_colon-append (c ∷ a) b = ground (arith, has_colon-append a b)

has_colon-digits : (s : Text) → all_digits s ≡ true → has_colon s ≡ false
unfolding has_colon all_digits
has_colon-digits [] h = refl
has_colon-digits (c ∷ s) h = ground (arith, h, has_colon-digits s)

has_prefix-slash : (d s : Text) → d ≢ [] → all_digits d ≡ true → has_prefix d (b'/' ∷ s) ≡ false
unfolding has_prefix all_digits
has_prefix-slash [] s n h = absurd (n refl)
has_prefix-slash (c ∷ d) s n h = ground (arith, h)

has_prefix-same : (s : Text) → has_prefix s s ≡ true
unfolding has_prefix
has_prefix-same [] = refl
has_prefix-same (c ∷ s) = ground (arith, has_prefix-same s)

drop-all : (s : Text) → drop (length s) s ≡ []
drop-all [] = refl
drop-all (c ∷ s) = drop-all s

-- A text that ends in what is replaced, and has no colon before.
replace_first-last :
    (d new a : Text)
    → has_colon a ≡ false
    → replace_first (b':' ∷ d) new (a ++ (b':' ∷ d)) ≡ a ++ new
unfolding replace_first has_colon has_prefix
replace_first-last d new [] h = rw (has_prefix-same d, drop-all d) (append-nil new)
replace_first-last d new (c ∷ a) h = ground (arith, h, replace_first-last d new a)

has_colon-admin_host :
    (c : Cluster) (i : ℕ)
    → has_colon c.cfg.name ≡ false
    → has_colon c.cfg.headless_name ≡ false
    → has_colon c.cfg.namespace ≡ false
    → has_colon (admin_host c (pos i)) ≡ false
unfolding admin_host decimal_ℤ has_colon
has_colon-admin_host c i name headless namespace = simp (
  has_colon-append,
  name,
  headless,
  namespace,
  has_colon-digits (decimal i) (decimal-all_digits i),
)

-- The URL after its scheme.
after_scheme :
    (host port s3 : Text)
    → has_colon host ≡ false
    → replace_first (b':' ∷ port) (b':' ∷ s3) ((host ++ lit ":") ++ port) ≡ (host ++ lit ":") ++ s3
after_scheme host port s3 h =
    ap (replace_first (b':' ∷ port) (b':' ∷ s3)) (append_assoc host (lit ":") port)
    ∙ replace_first-last port (b':' ∷ s3) host h
    ∙ sym (append_assoc host (lit ":") s3)

after_http :
    (tls : Bool) (host port s3 : Text)
    → has_colon host ≡ false
    → port ≢ []
    → all_digits port ≡ true
    → replace_first
        (b':' ∷ port)
        (b':' ∷ s3)
        (((((if tls then lit "https" else lit "http") ++ lit "://") ++ host) ++ lit ":") ++ port)
      ≡ ((((if tls then lit "https" else lit "http") ++ lit "://") ++ host) ++ lit ":") ++ s3
unfolding replace_first has_prefix
after_http true host port s3 h n d =
    rw (has_prefix-slash port (b'/' ∷ ((host ++ lit ":") ++ port)) n d)
      (ap (λ t. lit "https://" ++ t) (after_scheme host port s3 h))
after_http false host port s3 h n d =
    rw (has_prefix-slash port (b'/' ∷ ((host ++ lit ":") ++ port)) n d)
      (ap (λ t. lit "http://" ++ t) (after_scheme host port s3 h))

-- A request of the S3 API that is proxied goes to the S3 port of the leader: the base of its URL
-- is the admin URL of that ordinal with the S3 port as its port. Assumed is that the admin port
-- is not negative and that the names of the service, of the headless service and of the namespace
-- have no colon.
pub base-s3 :
    (c : Cluster) (leader port : ℕ)
    → c.cfg.admin_port ≡ pos port
    → has_colon c.cfg.name ≡ false
    → has_colon c.cfg.headless_name ≡ false
    → has_colon c.cfg.namespace ≡ false
    → base c Service.s3 leader
      ≡ admin_url (record c { cfg = record c.cfg { admin_port = c.cfg.s3_port } }) (pos leader)
unfolding base admin_url decimal_ℤ admin_host
base-s3 c leader port e name headless namespace = rw e (
    after_http c.cfg.tls_enabled (admin_host c (pos leader)) (decimal port)
      (decimal_ℤ c.cfg.s3_port) (has_colon-admin_host c leader name headless namespace)
      (decimal-filled port) (decimal-all_digits port))
