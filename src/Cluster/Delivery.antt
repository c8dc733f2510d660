-- ===== src/Cluster/Delivery.antt =====
-- internal/cluster: a request of Replicate, as the replication handler of a peer takes it.
use pobj.Prelude.{◌≡◌, ◌≢◌, refl, ap, ◌∙◌, ◌++◌, true, some, [], ◌∷◌, arith, ℕ}
use pobj.Text.{Text, lit, ◌==◌, has_prefix, trim_prefix, ==_iff, ==-refl}
use pobj.Exec.{ok}
use pobj.Http.{Method, Request, Json}
use pobj.Store.{Store, Platform, Io}
use mathlib.Core.List.{append_assoc}
use pobj.Text.Url.{all, all-both, host-is_path, is_path_byte, url_path}
use pobj.Store.Names.{NoSlash, valid_bucket, valid_bucket-NoSlash}
use pobj.Cluster.Address.{IsAddressed, url_path-admin_url, valid_bucket-is_host}
use pobj.Store.Objects.{put_object}
use pobj.Text.Parts.{split_two}
use pobj.Cluster.{Cluster}
use pobj.Cluster.Transport.{Outgoing, Client, peer_request}
use pobj.Replication.{serve_http, dispatch, reply, has_peer_client_cert}

-- The request as a server gets it: its path is the one in the URL, and the headers that were set
-- are among its headers.
pub record IsReceived (o : Outgoing) (r : Request) : Type 0 where
  pub method : r.method ≡ o.method
  pub path : url_path o.url ≡ some r.path
  pub header : (k : Text) → o.header k ≢ [] → r.header k ≡ o.header k
  pub body : r.body ≡ o.body

split_two-slash : (a b : Text) → NoSlash a → split_two b'/' (a ++ (b'/' ∷ b)) ≡ (a, some b)
unfolding split_two
split_two-slash [] b n = refl
split_two-slash (c ∷ a) b n = ground (arith, n.0, split_two-slash a b n.1)

abbrev objects : Text
objects = lit "/_cluster/replicate/objects/"

path_bytes :
    (bucket key : Text)
    → valid_bucket bucket ≡ true
    → all is_path_byte key ≡ true
    → all is_path_byte (objects ++ ((bucket ++ lit "/") ++ key)) ≡ true
unfolding all
path_bytes bucket key valid plain =
    let name = host-is_path bucket (valid_bucket-is_host bucket valid) in
    all-both is_path_byte objects ((bucket ++ lit "/") ++ key) refl (
      all-both is_path_byte (bucket ++ lit "/") key
        (all-both is_path_byte bucket (lit "/") name refl) plain)

split_object :
    (p bucket key : Text)
    → NoSlash bucket
    → p ≡ objects ++ (bucket ++ (b'/' ∷ key))
    → split_two b'/' (trim_prefix objects p) ≡ (bucket, some key)
unfolding trim_prefix has_prefix
split_object p bucket key plain e =
    ap (λ t. split_two b'/' (trim_prefix objects t)) e ∙ split_two-slash bucket key plain

dispatch-put :
    (lib : Platform) (io : Io) (json : Json) (bucket key body : Text) (r : Request) (s : Store)
    → NoSlash bucket
    → r.method ≡ Method.put
    → r.path ≡ objects ++ (bucket ++ (b'/' ∷ key))
    → r.body ≡ ok body
    → dispatch lib io json r s ≡ reply 400 (put_object lib io bucket key body s)
unfolding dispatch trim_prefix has_prefix
dispatch-put lib io json bucket key body r s plain method path content =
    rw (method, path, split_two-slash bucket key plain, content)
      (ap (λ parts. reply 400 (put_object lib io parts.0 key body s))
        (split_object r.path bucket key plain path))

module _ {W : Type 0} (client : Client W) (c : Cluster) (lib : Platform) (io : Io)
    (json : Json) where
  received_path :
      (i port : ℕ) (method : Method) (path body : Text) (r : Request)
      → IsAddressed c.cfg port
      → all is_path_byte (b'/' ∷ path) ≡ true
      → IsReceived (peer_request c client i method (b'/' ∷ path) body) r
      → r.path ≡ b'/' ∷ path
  unfolding peer_request
  received_path i port method path body r a plain is =
      ground (arith, is.path, url_path-admin_url c i port path a plain)

  serve_http-dispatch :
      (i : ℕ) (method : Method) (path body : Text) (r : Request) (s : Store)
      → IsReceived (peer_request c client i method path body) r
      → r.path ≢ lit "/_cluster/health"
      → has_peer_client_cert r ≡ true
      → serve_http lib io json c.cfg.token r s ≡ dispatch lib io json r s
  unfolding serve_http peer_request ◌==◌
  serve_http-dispatch i method path body r s is n cert = ground (
    arith,
    is.header (lit "Authorization") (λ e. absurd (ground (arith, e))),
    is.header (lit "X-ENTITY-Internal-Replication") (λ e. absurd (ground (arith, e))),
    cert,
    n,
    ==_iff r.path (lit "/_cluster/health"),
    ==-refl (lit "Bearer " ++ c.cfg.token),
  )

  -- An object that a server replicates is put by the peer that gets the request: with the token
  -- of the sender and a client certificate that was verified, the replication handler finds in
  -- the URL the very bucket and key, puts the very bytes under them into its store, and answers
  -- by 204 or with the error of the store. Assumed is that method, body and the headers that
  -- were set arrive, that the names in the configuration are DNS names and the admin port is
  -- not negative, that the bucket name is valid, and that the key has no control character,
  -- question mark, number sign or percent sign.
  pub serve_http-peer_request :
      (i port : ℕ) (bucket key body : Text) (r : Request) (s : Store)
      → IsAddressed c.cfg port
      → valid_bucket bucket ≡ true
      → all is_path_byte key ≡ true
      → (let path = ((lit "/_cluster/replicate/objects/" ++ bucket) ++ lit "/") ++ key in
          IsReceived (peer_request c client i Method.put path body) r)
      → has_peer_client_cert r ≡ true
      → serve_http lib io json c.cfg.token r s ≡ reply 400 (put_object lib io bucket key body s)
  unfolding peer_request
  serve_http-peer_request i port bucket key body r s a valid plain is cert =
      let path : r.path ≡ objects ++ ((bucket ++ lit "/") ++ key) =
        received_path i port Method.put
          (lit "_cluster/replicate/objects/" ++ ((bucket ++ lit "/") ++ key)) body r a
          (path_bytes bucket key valid plain) is in
      serve_http-dispatch i Method.put (objects ++ ((bucket ++ lit "/") ++ key)) body r s is
        (λ e. absurd (ground (arith, e, path))) cert
      ∙ dispatch-put lib io json bucket key body r s (valid_bucket-NoSlash bucket valid) is.method
          (path ∙ ap (λ t. objects ++ t) (append_assoc bucket (lit "/") key)) is.body
