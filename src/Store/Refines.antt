-- ===== src/Store/Refines.antt =====
-- The object store (internal/objectd/store.go) and its view as a function from buckets and keys to
-- contents.
use pobj.Prelude.{
  ◌≡◌, refl, sym, ap, ◌∙◌, [], ◌∷◌, Bool, true, false, ◌&&◌, Option, some, none, List, arith,
  if◌then◌else◌,
}
use pobj.Text.{Text, ◌==◌, ==_iff, ==-refl}
use pobj.Dict.{get, delete, get-put, get-delete}
use pobj.Exec.{Result, ok, err}
use pobj.Store.{Store, Platform, Io, BucketState, ObjectMeta}
use pobj.Store.Buckets.{create_bucket, delete_bucket}
use pobj.Store.Objects.{find_record, put_object, delete_object, drop_object, new_record}
use pobj.Store.Access.{create_access, put_access, delete_access}
use pobj.Store.Ops.{Op, run, outcome, outcome_store}
use pobj.Store.PutGet.{Stored, put_object-Stored}
use pobj.Store.Others.{put_object-SameRead}
use pobj.Store.Consistent.{IsConsistent}
use pobj.Store.Consistent.Grants.{
  put_access-SameObjects, create_access-SameObjects, delete_access-SameObjects,
}
use pobj.Store.Consistent.Puts.{IsFresh}
use pobj.Store.Consistent.Runs.{DrawsFresh, run-IsConsistent}
use pobj.Store.View.{
  View, view, content_of, applied, view-SameRead, SameObjects-SameRead, create_bucket-SameRead,
  delete_bucket-SameRead, delete_object-SameRead,
}

same_place : (bucket key b k : Text) → (bucket == b && key == k) ≡ true → (bucket ≡ b) × (key ≡ k)
same_place bucket key b k e = (ground (arith, e, ==_iff bucket b), ground (arith, e, ==_iff key k))

other_place :
    (bucket key b k : Text) → (bucket == b && key == k) ≡ false → (bucket ≡ b) × (key ≡ k) → ⊥
other_place bucket key b k e (p, q) =
    absurd (ground (arith, e, ==_iff bucket b, ==_iff key k, p, q))

module _ (lib : Platform) (io : Io) (bucket key : Text) (s : Store) where
  view-Stored :
      (body : Text) (t : Store) {m : ObjectMeta}
      → Stored lib io bucket key body m t
      → view t bucket key ≡ some body
  unfolding view content_of new_record
  view-Stored body t st = ground (arith, st.found, st.content)

  put_object-view :
      (body b k : Text) {m : ObjectMeta}
      → IsConsistent lib s
      → IsFresh lib io bucket s
      → (put_object lib io bucket key body s).0 ≡ ok m
      → view (put_object lib io bucket key body s).1 b k
        ≡ (if bucket == b && key == k then some body else view s b k)
  put_object-view body b k h fresh done = from (bucket == b && key == k) refl
    where
      from :
          (here : Bool)
          → (bucket == b && key == k) ≡ here
          → view (put_object lib io bucket key body s).1 b k
            ≡ (if bucket == b && key == k then some body else view s b k)
      from true e =
          let (p, q) = same_place bucket key b k e in
          rw (sym p, sym q, ==-refl bucket, ==-refl key)
            (view-Stored body (put_object lib io bucket key body s).1
              (put_object-Stored lib io bucket key body s done))
      from false e = rw e (
          view-SameRead b k s (put_object lib io bucket key body s).1 (
            put_object-SameRead lib io bucket key b k (other_place bucket key b k e) body s h
              fresh))

  delete_object-gone :
      (delete_object lib io bucket key s).0 ≡ ok tt
      → find_record (delete_object lib io bucket key s).1.state bucket key ≡ none
  unfolding delete_object drop_object find_record
  delete_object-gone done = from (get s.state bucket) refl
    where
      from :
          (o : Option BucketState)
          → get s.state bucket ≡ o
          → find_record (delete_object lib io bucket key s).1.state bucket key ≡ none
      from none g = absurd (ground (arith, g, done))
      from (some c) g = ground (
        arith,
        g,
        ==-refl bucket,
        ==-refl key,
        get-put s.state bucket bucket (record c { objects = delete c.objects key }),
        get-delete c.objects key key,
      )

  delete_object-view :
      (b k : Text)
      → IsConsistent lib s
      → (delete_object lib io bucket key s).0 ≡ ok tt
      → view (delete_object lib io bucket key s).1 b k
        ≡ (if bucket == b && key == k then none else view s b k)
  unfolding view content_of
  delete_object-view b k h done = from (bucket == b && key == k) refl
    where
      from :
          (here : Bool)
          → (bucket == b && key == k) ≡ here
          → view (delete_object lib io bucket key s).1 b k
            ≡ (if bucket == b && key == k then none else view s b k)
      from true e =
          let (p, q) = same_place bucket key b k e in
          rw (sym p, sym q, ==-refl bucket, ==-refl key, delete_object-gone done) refl
      from false e = rw e (
          view-SameRead b k s (delete_object lib io bucket key s).1
            (delete_object-SameRead lib io b k bucket key s (other_place bucket key b k e) h))

outcome-ok : {A : Type 0} (p : Result A × Store) → (outcome p).0 ≡ ok tt → (a : A) × (p.0 ≡ ok a)
outcome-ok (ok a, s) h = (a, refl)
outcome-ok (err e, s) h = absurd (ground (arith, h))

-- Whatever operation succeeds, the contents are what it was to make of them.
pub run-view :
    (lib : Platform) (io : Io) (op : Op) (s : Store) (b k : Text)
    → IsConsistent lib s
    → DrawsFresh lib io op s
    → (run lib io op s).0 ≡ ok tt
    → view (run lib io op s).1 b k ≡ applied op (view s) b k
unfolding run applied
run-view lib io (Op.create_bucket name) s b k h f done =
    view-SameRead b k s (create_bucket lib io name s).1 (create_bucket-SameRead lib io b k name s)
run-view lib io (Op.delete_bucket name) s b k h f done =
    view-SameRead b k s (delete_bucket lib io name s).1 (delete_bucket-SameRead lib io b k name s h)
run-view lib io (Op.put_object bucket key body) s b k h f done =
    let (m, e) = outcome-ok (put_object lib io bucket key body s) done in
    rw outcome_store (put_object-view lib io bucket key s body b k h f e)
run-view lib io (Op.delete_object bucket key) s b k h f done =
    delete_object-view lib io bucket key s b k h done
run-view lib io (Op.create_access bucket read_only) s b k h f done = rw outcome_store (
    view-SameRead b k s (create_access lib io bucket read_only s).1 (
      SameObjects-SameRead b k s (create_access lib io bucket read_only s).1
        (create_access-SameObjects lib io bucket read_only s)))
run-view lib io (Op.put_access a) s b k h f done =
    view-SameRead b k s (put_access lib io a s).1
      (SameObjects-SameRead b k s (put_access lib io a s).1 (put_access-SameObjects lib io a s))
run-view lib io (Op.delete_access access_key) s b k h f done =
    view-SameRead b k s (delete_access lib io access_key s).1 (
      SameObjects-SameRead b k s (delete_access lib io access_key s).1
        (delete_access-SameObjects lib io access_key s))

-- Operations that succeed, one behind the other, the last one first; each with its own answers of
-- the operating system.
pub data Trace (lib : Platform) (s : Store) : List Op → Store → Type 0 where
  initial : Trace lib s [] s
  succeeded :
      {ops : List Op} {t : Store} (io : Io) (op : Op)
      → DrawsFresh lib io op t
      → (run lib io op t).0 ≡ ok tt
      → Trace lib s ops t
      → Trace lib s (op ∷ ops) (run lib io op t).1

abbrev pub performed : List Op → View → View
performed [] v = v
performed (op ∷ ops) v = applied op (performed ops v)

Trace-IsConsistent :
    (lib : Platform) (s t : Store) (ops : List Op)
    → IsConsistent lib s
    → Trace lib s ops t
    → IsConsistent lib t
Trace-IsConsistent lib s t _ h initial = h
Trace-IsConsistent lib s _ _ h (succeeded {ops = ops} {t = t} io op fresh done trace) =
    run-IsConsistent lib io op t (Trace-IsConsistent lib s t ops h trace) fresh

-- Any sequence of successful operations, from a consistent store, makes of the contents under all
-- buckets and keys what the abstract operations make of them: a put sets one content, a delete
-- removes one, and everything else leaves all contents alone. Assumed is that no put draws the
-- name of an existing file.
pub Trace-view :
    (lib : Platform) (s t : Store) (ops : List Op)
    → IsConsistent lib s
    → Trace lib s ops t
    → view t ≡ performed ops (view s)
Trace-view lib s t _ h initial = refl
Trace-view lib s _ _ h (succeeded {ops = ops} {t = t} io op fresh done trace) =
    (λ i b k. run-view lib io op t b k (Trace-IsConsistent lib s t ops h trace) fresh done i)
    ∙ ap (applied op) (Trace-view lib s t ops h trace)
