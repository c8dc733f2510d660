-- ===== src/S3/Acked.antt =====
-- What the success of a write says of the cluster (internal/s3/handler.go).
use pobj.Prelude.{◌≡◌, refl, ◌<◌, ◌*◌, ◌++◌, ℕ, [], ◌∷◌, some, true, arith}
use pobj.Text.{Text, lit}
use pobj.Exec.{Result, ok, err}
use pobj.Http.{Request, Method, Response, Body}
use pobj.Store.{Platform, Io, ObjectMeta}
use pobj.Store.Objects
use pobj.Prelude.Int.{pos}
use pobj.Cluster.{Cluster, Net, replicas, enabled, replicate}
use pobj.Cluster.Quorum.{has_change, count_below, replicate-majority}
use pobj.S3.{Node, put_object, replicate_then, quoted, put_payload}

module _ {W : Type 0} (lib : Platform) (io : Io) (net : Net W) (c : Cluster) where
  replicate_then-ok :
      (method : Method) (path body : Text) (done : Response) (n : Node W)
      → enabled c ≡ true
      → (replicate_then lib io net (some c) method path body done n).0.status ≡ 200
      → (replicate net c method path body n.world).0 ≡ ok tt
  unfolding replicate_then
  replicate_then-ok method path body done n e h =
      from (replicate net c method path body n.world).0 refl
    where
      from :
          (o : Result (Unit {0}))
          → (replicate net c method path body n.world).0 ≡ o
          → (replicate net c method path body n.world).0 ≡ ok tt
      from (ok x) r = r
      from (err x) r = absurd (ground (arith, r, e, h))

  -- A PutObject that the S3 API answers by 200 in a cluster of several replicas has been done by the
  -- server's own store, and has been acknowledged by so many peers that, with the server, more than
  -- half of the replicas have it. Assumed is that the server's own ordinal is one of the replicas'.
  pub put_object-majority :
      (self : ℕ) (r : Request) (bucket key payload : Text) (n : Node W)
      → c.ordinal ≡ pos self
      → self < replicas c
      → enabled c ≡ true
      → r.body ≡ ok payload
      → (put_object lib io net (some c) r bucket key n).0.status ≡ 200
      → (m : ObjectMeta) × ((Objects.put_object lib io bucket key payload n.store).0 ≡ ok m)
        × (replicas c
            < 2
              * count_below
                  (has_change net c Method.put
                    (((lit "/_cluster/replicate/objects/" ++ bucket) ++ lit "/") ++ key)
                    payload
                    n.world)
                  (replicas c))
  unfolding put_object put_payload
  put_object-majority self r bucket key payload n here l e b h =
      from (Objects.put_object lib io bucket key payload n.store).0 refl
    where
      path : Text
      path = ((lit "/_cluster/replicate/objects/" ++ bucket) ++ lit "/") ++ key

      from :
          (o : Result ObjectMeta)
          → (Objects.put_object lib io bucket key payload n.store).0 ≡ o
          → (m : ObjectMeta) × ((Objects.put_object lib io bucket key payload n.store).0 ≡ ok m)
            × (replicas c
                < 2 * count_below (has_change net c Method.put path payload n.world) (replicas c))
      from (err x) q = absurd (ground (arith, q, b, h))
      from (ok m) q =
          let acked =
            replicate_then-ok Method.put path payload
              (record {
                status = 200;
                headers = (lit "ETag", quoted m.etag) ∷ [];
                body = Body.empty;
              })
              (record n { store = (Objects.put_object lib io bucket key payload n.store).1 }) e
              (rw (b, q, put_payload) at h) in
          (m, q, (replicate-majority net c Method.put path payload self here n.world l e).0 acked)
