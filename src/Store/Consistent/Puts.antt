-- ===== src/Store/Consistent/Puts.antt =====
-- PutObject keeps the invariant, on every branch, if the random name of its file is not taken.
use pobj.Text.Parts.{hex_encode}
use pobj.Store.Durable.{write_file-meta_file, data_dir-record_object}
use pobj.Store.Consistent.{Shrinks-IsConsistent, object_path, Shrinks, Matches, IsIn, IsConsistent}
use pobj.Prelude.{
  false, true, Bool, ℕ, subst, List, ap, ◌∙◌, sym, refl, inr, inl, none, [], Option, ◌≢◌, ◌≡◌, ◌⊎◌,
  some, arith,
}
use pobj.Text.{◌==◌, Text, ==_iff}
use pobj.Dict.{get, put, get-put}
use pobj.Store.{lit, Error, err, ok, Result, Store, Platform, Io, BucketState, ObjectRecord}
use pobj.Store.Objects.{
  put_object, write_file, store_object, find_record, record_object, new_record,
}
use pobj.Store.Frames.{write_file-ok, files-write_file, files-record_object, state-record_object}

module _ (lib : Platform) (io : Io) where
  module _ (bucket key : Text) (b : BucketState) (body path : Text) (s : Store) where
    abbrev pub after : Store
    after = (record_object lib io bucket key b body path s).1

    abbrev Found : Text → Text → ObjectRecord → Type 0
    Found bucket' key' rec =
        ((bucket ≡ bucket') × (key ≡ key') × (rec ≡ new_record lib io body path))
        ⊎ ((find_record s.state bucket' key' ≡ some rec) × ((bucket ≡ bucket') × (key ≡ key') → ⊥))

    -- A record of the new state is the new one, or stood before at another place.
    found :
        (bucket' key' : Text) (rec : ObjectRecord)
        → get s.state bucket ≡ some b
        → find_record after.state bucket' key' ≡ some rec
        → ((bucket ≡ bucket') × (key ≡ key') × (rec ≡ new_record lib io body path))
          ⊎ ((find_record s.state bucket' key' ≡ some rec)
              × ((bucket ≡ bucket') × (key ≡ key') → ⊥))
    unfolding find_record
    found bucket' key' rec g e = ground (
      arith,
      state-record_object lib io bucket key b body path s,
      ==_iff bucket bucket',
      ==_iff key key',
      get-put s.state bucket bucket'
          (record b { objects = put b.objects key (new_record lib io body path) }),
      get-put b.objects key key' (new_record lib io body path),
    )

    -- An old record that stays keeps its file.
    pub kept_file :
        (bucket' key' : Text) (rec : ObjectRecord)
        → IsConsistent lib s
        → get s.state bucket ≡ some b
        → find_record s.state bucket' key' ≡ some rec
        → ((bucket ≡ bucket') × (key ≡ key') → ⊥)
        → get after.disk.files rec.path ≡ get s.disk.files rec.path
    unfolding find_record
    kept_file bucket' key' rec h g e other =
        files-record_object lib io bucket key b body path s rec.path λ prev p same.
          absurd (other (h.separate bucket key bucket' key' prev rec (ground arith) e same))

    -- What the new file must be for the step to keep the invariant.
    record Ready : Type 0 where
      bucket_there : get s.state bucket ≡ some b
      key_there : key ≢ []
      written : get s.disk.files path ≡ some body
      in_bucket : IsIn s.data_dir bucket path
      unused :
          (bucket' key' : Text) (rec : ObjectRecord)
          → find_record s.state bucket' key' ≡ some rec
          → rec.path ≢ path

    new_file : get after.disk.files path ≡ get s.disk.files path
    new_file = files-record_object lib io bucket key b body path s path (λ rec e p. refl)

    record_object-IsConsistent : IsConsistent lib s → Ready → IsConsistent lib after
    unfolding new_record
    record_object-IsConsistent h r = record {
      named = λ bucket' c e. ground (
        arith,
        h.named bucket b r.bucket_there,
        h.named bucket' c,
        state-record_object lib io bucket key b body path s,
        ==_iff bucket bucket',
        get-put s.state bucket bucket'
            (record b { objects = put b.objects key (new_record lib io body path) }),
      );
      keyed = λ bucket'. no_record bucket' (find_record after.state bucket' []) refl;
      stored =
          λ bucket' key' rec e. file bucket' key' rec (found bucket' key' rec r.bucket_there e);
      located =
          λ bucket' key' rec e. place bucket' key' rec (found bucket' key' rec r.bucket_there e);
      separate = λ b₁ k₁ b₂ k₂ rec₁ rec₂ e₁ e₂ p.
          apart b₁ k₁ b₂ k₂ rec₁ rec₂ p (found b₁ k₁ rec₁ r.bucket_there e₁)
            (found b₂ k₂ rec₂ r.bucket_there e₂);
    }
      where
        no_record :
            (bucket' : Text) (o : Option ObjectRecord)
            → find_record after.state bucket' [] ≡ o
            → find_record after.state bucket' [] ≡ none
        no_record bucket' none e = e
        no_record bucket' (some rec) e =
            ground (arith, found bucket' [] rec r.bucket_there e, h.keyed bucket', r.key_there)

        file :
            (bucket' key' : Text) (rec : ObjectRecord)
            → Found bucket' key' rec
            → Matches lib rec (get after.disk.files rec.path)
        file bucket' key' rec (inl (_, _, e)) = rw (e, new_file, r.written) (refl, refl)
        file bucket' key' rec (inr (e, other)) =
            rw (kept_file bucket' key' rec h r.bucket_there e other) (h.stored bucket' key' rec e)

        place :
            (bucket' key' : Text) (rec : ObjectRecord)
            → Found bucket' key' rec
            → IsIn after.data_dir bucket' rec.path
        place bucket' key' rec (inl (e, _, f)) =
            rw (data_dir-record_object lib io bucket key b body path s, ← e, f) r.in_bucket
        place bucket' key' rec (inr (e, other)) =
            rw (data_dir-record_object lib io bucket key b body path s)
              (h.located bucket' key' rec e)

        apart :
            (b₁ k₁ b₂ k₂ : Text) (rec₁ rec₂ : ObjectRecord)
            → rec₁.path ≡ rec₂.path
            → Found b₁ k₁ rec₁
            → Found b₂ k₂ rec₂
            → (b₁ ≡ b₂) × (k₁ ≡ k₂)
        apart b₁ k₁ b₂ k₂ rec₁ rec₂ p (inl (e, f, _)) (inl (e', f', _)) = (sym e ∙ e', sym f ∙ f')
        apart b₁ k₁ b₂ k₂ rec₁ rec₂ p (inl (e, f, x)) (inr (y, _)) =
            absurd (r.unused b₂ k₂ rec₂ y (sym p ∙ ap (λ (z : ObjectRecord). z.path) x))
        apart b₁ k₁ b₂ k₂ rec₁ rec₂ p (inr (y, _)) (inl (e, f, x)) =
            absurd (r.unused b₁ k₁ rec₁ y (p ∙ ap (λ (z : ObjectRecord). z.path) x))
        apart b₁ k₁ b₂ k₂ rec₁ rec₂ p (inr (y, _)) (inr (z, _)) =
            h.separate b₁ k₁ b₂ k₂ rec₁ rec₂ y z p

  -- The random name that the call draws is not the name of a file of the bucket.
  abbrev pub IsFresh : Text → Store → Type 0
  IsFresh bucket s =
      (bytes : List ℕ)
      → io.random ≡ ok bytes
      → get s.disk.files (object_path s.data_dir bucket (hex_encode bytes)) ≡ none

  -- No record points to a file that does not exist.
  unused_of_none :
      (s : Store) (bucket key : Text) (rec : ObjectRecord) (path : Text)
      → IsConsistent lib s
      → get s.disk.files path ≡ none
      → find_record s.state bucket key ≡ some rec
      → rec.path ≢ path
  unused_of_none s bucket key rec path h n e p =
      subst (Matches lib rec) (ap (get s.disk.files) p ∙ n) (h.stored bucket key rec e)

  pub write_file-files :
      (bucket key body : Text) (s : Store) (bucket' key' : Text) (rec : ObjectRecord)
      → IsConsistent lib s
      → IsFresh bucket s
      → find_record s.state bucket' key' ≡ some rec
      → get (write_file lib io bucket body s).1.disk.files rec.path ≡ get s.disk.files rec.path
  unfolding write_file
  write_file-files bucket key body s bucket' key' rec h fresh e = from io.random refl
    where
      from :
          (r : Result (List ℕ))
          → io.random ≡ r
          → get (write_file lib io bucket body s).1.disk.files rec.path ≡ get s.disk.files rec.path
      from (ok bytes) r =
          files-write_file lib io bucket body bytes s rec.path r
            (unused_of_none s bucket' key' rec _ h (fresh bytes r) e)
      from (err x) r = ground arith

  pub write_file-Shrinks :
      (bucket body : Text) (s : Store)
      → IsConsistent lib s
      → IsFresh bucket s
      → Shrinks s (write_file lib io bucket body s).1
  write_file-Shrinks bucket body s h fresh =
      let (state, dir, _) = write_file-meta_file lib io bucket body s in
      record {
        data_dir = dir;
        named = λ bucket' b e k. k b (rw state at e);
        records = λ bucket' key rec e. rw state at e;
        files = λ bucket' key rec e.
            write_file-files bucket key body s bucket' key rec h fresh (rw state at e);
      }

  pub no_name :
      (bucket body path : Text) (s : Store) (e : Error)
      → io.random ≡ err e
      → (write_file lib io bucket body s).0 ≢ ok path
  unfolding write_file
  no_name bucket body path s e r h = ground arith

  -- After the file is written, the second part of the operation finds what it needs.
  write_file-Ready :
      (bucket key body path : Text) (b : BucketState) (bytes : List ℕ) (s : Store)
      → IsConsistent lib s
      → IsFresh bucket s
      → get s.state bucket ≡ some b
      → key ≢ []
      → io.random ≡ ok bytes
      → (write_file lib io bucket body s).0 ≡ ok path
      → Ready bucket key b body path (write_file lib io bucket body s).1
  write_file-Ready bucket key body path b bytes s h fresh g k r w =
      let (state, dir, _) = write_file-meta_file lib io bucket body s in
      let (at, written) = write_file-ok lib io bucket body bytes s r w in
      record {
        bucket_there = rw state g;
        key_there = k;
        written = written;
        in_bucket = rw dir (hex_encode bytes, at);
        unused = λ bucket' key' rec e.
            unused_of_none s bucket' key' rec path h (ap (get s.disk.files) at ∙ fresh bytes r)
              (rw state at e);
      }

  store_object-IsConsistent :
      (bucket key body : Text) (b : BucketState) (s : Store)
      → IsConsistent lib s
      → IsFresh bucket s
      → get s.state bucket ≡ some b
      → key ≢ []
      → IsConsistent lib (store_object lib io bucket key b body s).1
  unfolding store_object
  store_object-IsConsistent bucket key body b s h fresh g k =
      from (write_file lib io bucket body s).0 io.random refl refl
    where
      w : Store
      w = (write_file lib io bucket body s).1

      after_write : IsConsistent lib w
      after_write = Shrinks-IsConsistent h (write_file-Shrinks bucket body s h fresh)

      from :
          (o : Result Text) (r : Result (List ℕ))
          → (write_file lib io bucket body s).0 ≡ o
          → io.random ≡ r
          → IsConsistent lib (store_object lib io bucket key b body s).1
      from (err x) r e f = rw (e, store_object) after_write
      from (ok path) (err x) e f = absurd (no_name bucket body path s x f e)
      from (ok path) (ok bytes) e f =
          rw (e, store_object)
            (record_object-IsConsistent bucket key b body path w after_write
              (write_file-Ready bucket key body path b bytes s h fresh g k f e))

  pub put_object-IsConsistent :
      (bucket key body : Text) (s : Store)
      → IsConsistent lib s
      → IsFresh bucket s
      → IsConsistent lib (put_object lib io bucket key body s).1
  unfolding put_object
  put_object-IsConsistent bucket key body s h fresh =
      from (get s.state bucket) (key == lit "") refl refl
    where
      from :
          (o : Option BucketState) (empty : Bool)
          → get s.state bucket ≡ o
          → (key == lit "") ≡ empty
          → IsConsistent lib (put_object lib io bucket key body s).1
      from none empty g e = rw (g, put_object) h
      from (some b) true g e = rw (g, e, put_object) h
      from (some b) false g e =
          rw (g, e, put_object)
            (store_object-IsConsistent bucket key body b s h fresh g
              (λ p. cc (e, (==_iff key []).1 p)))
