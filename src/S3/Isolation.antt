-- ===== src/S3/Isolation.antt =====
-- What a request with scoped credentials can change (internal/s3/handler.go).
use pobj.Signature.{verify_sig_v4}
use pobj.Prelude.{
  ◌⊎◌, inl, inr, [], refl, sym, subst, ◌∙◌, Bool, true, false, arith, ◌≢◌, ◌≡◌, Option,
}
use pobj.Exec.{Result, ok, err}
use pobj.Http.{Method, Request, Response}
use pobj.Store.{Platform, Io, Store}
use pobj.Store.Buckets
use pobj.Store.Objects
use pobj.Store.Objects.{open_object}
use pobj.Store.Others.{put_object-SameRead, open_object-SameRead}
use pobj.Store.View.{create_bucket-SameRead, delete_bucket-SameRead, delete_object-SameRead}
use pobj.Store.Consistent.{IsConsistent}
use pobj.Store.Consistent.Puts.{IsFresh}
use pobj.Dict.{get}
use pobj.Text.{Text, ◌==◌, ==_iff}
use pobj.Cluster.{Cluster, Net}
use pobj.Store.Scope.{
  get-create_bucket_ne, get-delete_bucket_ne, get-put_object_ne, get-delete_object_ne,
}
use pobj.S3.{
  lookup, AuthResult, Node, split_path, serve_as, serve_http, dispatch, replicate_then,
  create_bucket, delete_bucket, put_object, delete_object, proxied, should_proxy_to_leader,
}

module _ {W : Type 0} (lib : Platform) (io : Io) (net : Net W) (cluster : Option Cluster) where
  store-replicate_then :
      (method : Method) (path body : Text) (done : Response) (n : Node W)
      → (replicate_then lib io net cluster method path body done n).1.store ≡ n.store
  unfolding replicate_then
  store-replicate_then method path body done n = ground arith

  pub read_only_unchanged :
      (auth : AuthResult) (r : Request) (bucket key : Text) (n : Node W)
      → auth.read_only ≡ true
      → (serve_as lib io net cluster auth r bucket key n).1 ≡ n
  unfolding serve_as dispatch proxied should_proxy_to_leader
  read_only_unchanged auth r bucket key n ro = ground arith

  -- Read-only credentials change nothing: a request that authenticates with them leaves the store of
  -- the server as it is, and neither proxies nor replicates anything.
  pub serve_http-read_only :
      (hmac : Text → Text → Text) (r : Request) (n : Node W) {auth : AuthResult}
      → verify_sig_v4 lib hmac r (lookup n.store) ≡ ok auth
      → auth.read_only ≡ true
      → (serve_http lib io net cluster hmac r n).1 ≡ n
  unfolding serve_http
  serve_http-read_only hmac r n {auth} v ro =
      let (bucket, key) = split_path r.path in
      ground (arith, v, read_only_unchanged auth r bucket key n ro)

  store-create_bucket :
      (bucket : Text) (n : Node W)
      → (create_bucket lib io net cluster bucket n).1.store
        ≡ (Buckets.create_bucket lib io bucket n.store).1
  unfolding create_bucket replicate_then
  store-create_bucket bucket n = ground arith

  store-delete_bucket :
      (bucket : Text) (n : Node W)
      → (delete_bucket lib io net cluster bucket n).1.store
        ≡ (Buckets.delete_bucket lib io bucket n.store).1
  unfolding delete_bucket replicate_then
  store-delete_bucket bucket n = ground arith

  store-delete_object :
      (bucket key : Text) (n : Node W)
      → (delete_object lib io net cluster bucket key n).1.store
        ≡ (Objects.delete_object lib io bucket key n.store).1
  unfolding delete_object replicate_then
  store-delete_object bucket key n = ground arith

  store-put_payload :
      (r : Request) (bucket key payload : Text) (n : Node W)
      → r.body ≡ ok payload
      → (put_object lib io net cluster r bucket key n).1.store
        ≡ (Objects.put_object lib io bucket key payload n.store).1
  unfolding put_object replicate_then
  store-put_payload r bucket key payload n b = ground arith

  module _ (other name : Text) (reader : Io) where
    -- The state of the bucket `other`, with its metadata and access keys, and a read in it.
    abbrev Kept : Store → Store → Type 0
    Kept s t =
        (get t.state other ≡ get s.state other)
        × (open_object lib reader other name t ≡ open_object lib reader other name s)

    create_bucket-Kept :
        (bucket : Text) (n : Node W)
        → bucket ≢ other
        → Kept n.store (create_bucket lib io net cluster bucket n).1.store
    create_bucket-Kept bucket n ne = subst (Kept n.store) (sym (store-create_bucket bucket n)) (
      get-create_bucket_ne lib io bucket other ne n.store,
      open_object-SameRead lib reader other name n.store _
          (create_bucket-SameRead lib io other name bucket n.store),
    )

    delete_bucket-Kept :
        (bucket : Text) (n : Node W)
        → bucket ≢ other
        → IsConsistent lib n.store
        → Kept n.store (delete_bucket lib io net cluster bucket n).1.store
    delete_bucket-Kept bucket n ne h = subst (Kept n.store) (sym (store-delete_bucket bucket n)) (
      get-delete_bucket_ne lib io bucket other ne n.store,
      open_object-SameRead lib reader other name n.store _
          (delete_bucket-SameRead lib io other name bucket n.store h),
    )

    delete_object-Kept :
        (bucket key : Text) (n : Node W)
        → bucket ≢ other
        → IsConsistent lib n.store
        → Kept n.store (delete_object lib io net cluster bucket key n).1.store
    delete_object-Kept bucket key n ne h =
        subst (Kept n.store) (sym (store-delete_object bucket key n)) (
          get-delete_object_ne lib io bucket other ne n.store key,
          open_object-SameRead lib reader other name n.store _
              (delete_object-SameRead lib io other name bucket key n.store (λ e. ne e.0) h),
        )

    put_object-Kept :
        (r : Request) (bucket key : Text) (n : Node W)
        → bucket ≢ other
        → IsConsistent lib n.store
        → IsFresh lib io bucket n.store
        → Kept n.store (put_object lib io net cluster r bucket key n).1.store
    unfolding put_object
    put_object-Kept r bucket key n ne h fresh = from r.body refl
      where
        from :
            (o : Result Text)
            → r.body ≡ o
            → Kept n.store (put_object lib io net cluster r bucket key n).1.store
        from (err e) b = ground (arith, b)
        from (ok payload) b =
            subst (Kept n.store) (sym (store-put_payload r bucket key payload n b)) (
              get-put_object_ne lib io bucket other ne n.store key payload,
              open_object-SameRead lib reader other name n.store _ (
                  put_object-SameRead lib io bucket key other name (λ e. ne e.0) payload n.store h
                    fresh),
            )

    serve_as-Kept :
        (auth : AuthResult) (r : Request) (bucket key : Text) (n : Node W)
        → auth.bucket ≢ other
        → IsConsistent lib n.store
        → IsFresh lib io auth.bucket n.store
        → Kept n.store (serve_as lib io net cluster auth r bucket key n).1.store
    unfolding serve_as dispatch proxied
    serve_as-Kept auth r bucket key n ne h fresh = from (auth.bucket == bucket) refl
      where
        at_own :
            auth.bucket ≡ bucket
            → Kept n.store (serve_as lib io net cluster auth r bucket key n).1.store
        at_own same =
            let ne' : bucket ≢ other = λ e. ne (same ∙ e) in
            let fresh' = subst (λ b. IsFresh lib io b n.store) same fresh in
            ground (
              arith,
              create_bucket-Kept bucket n ne',
              delete_bucket-Kept bucket n ne' h,
              put_object-Kept r bucket key n ne' h fresh',
              delete_object-Kept bucket key n ne' h,
            )

        from :
            (own : Bool)
            → (auth.bucket == bucket) ≡ own
            → Kept n.store (serve_as lib io net cluster auth r bucket key n).1.store
        from true e = at_own ((==_iff auth.bucket bucket).0 e)
        from false e = ground (arith, e)

    serve_as-refused :
        (auth : AuthResult) (r : Request) (bucket key : Text) (n : Node W)
        → auth.bucket ≢ other
        → other ≢ []
        → bucket ≡ other
        → let (response, n') = serve_as lib io net cluster auth r bucket key n in
          (response.status ≡ 403) × (n' ≡ n)
    unfolding serve_as
    serve_as-refused auth r bucket key n ne filled same =
        ground (arith, same, ==_iff auth.bucket bucket, ==_iff bucket [])

    -- Credentials for one bucket reach no other bucket: whatever request they sign, the
    -- metadata and the access keys of any other bucket in the store of the server are as
    -- before, a read of any key in it gives what it gave before, and a request whose path
    -- names it is answered by 403 and changes nothing. Assumed is the invariant of the store,
    -- and that a put does not draw the name of an existing file.
    pub serve_http-Kept :
        (hmac : Text → Text → Text) (r : Request) (n : Node W) {auth : AuthResult}
        → verify_sig_v4 lib hmac r (lookup n.store) ≡ ok auth
        → auth.bucket ≢ other
        → other ≢ []
        → IsConsistent lib n.store
        → IsFresh lib io auth.bucket n.store
        → let (response, n') = serve_http lib io net cluster hmac r n in
          (get n'.store.state other ≡ get n.store.state other)
          × (open_object lib reader other name n'.store ≡ open_object lib reader other name n.store)
          × (((split_path r.path).0 ≢ other) ⊎ ((response.status ≡ 403) × (n' ≡ n)))
    unfolding serve_http
    serve_http-Kept hmac r n {auth} v ne filled h fresh =
        let (bucket, key) = split_path r.path in
        let kept = serve_as-Kept auth r bucket key n ne h fresh in
        (ground (arith, v, kept.0), ground (arith, v, kept.1), from (bucket == other) refl)
      where
        from :
            (named : Bool)
            → ((split_path r.path).0 == other) ≡ named
            → let (response, n') = serve_http lib io net cluster hmac r n in
              ((split_path r.path).0 ≢ other) ⊎ ((response.status ≡ 403) × (n' ≡ n))
        from true e =
            let (bucket, key) = split_path r.path in
            let same = (==_iff bucket other).0 e in
            inr (ground (arith, v, serve_as-refused auth r bucket key n ne filled same))
        from false e = inl (λ same. ground (arith, e, (==_iff (split_path r.path).0 other).1 same))
