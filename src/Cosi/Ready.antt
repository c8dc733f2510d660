-- ===== src/Cosi/Ready.antt =====
-- Readiness of a bucket and of its claim (internal/cosi/listeners.go).
use pobj.Prelude.{
  ◌≡◌, ◌∙◌, sym, ap, refl, Bool, true, false, Option, none, some, arith, if◌then◌else◌,
}
use pobj.Text.{Text, lit, ◌==◌, ==_iff, ==-refl}
use pobj.Dict.{Dict, get, put, get-put}
use pobj.Exec.{Error, Result, ok, err, ◌>>◌, >>-ok, >>=-ok}
use pobj.Cosi.Objects.{
  World, Calls, Kind, Bucket, Claim, write_status, update_bucket_status, get_claim,
}
use pobj.Cosi.AdminClient.{create_bucket}
use pobj.Cosi.Listener.{
  Listener, asked, claim_key, sync_claim, sync_claim_ready_from_bucket, bind, add, update,
}

module _ {V : Type 0} where
  put-there :
      (d : Dict V) (k name : Text) (v : V) {w : V}
      → get d name ≡ some w
      → (x : V) × (get (put d k v) name ≡ some x)
  put-there d k name v {w} g = (if k == name then v else w, ground (arith, get-put d k name v, g))

  write_status-there :
      (o : Option Error) (d : Dict V) (k name : Text) (f : V → V) {w : V}
      → get d name ≡ some w
      → (x : V) × (get (write_status o d k f).1 name ≡ some x)
  write_status-there (some e) d k name f {w} g = (w, g)
  write_status-there none d k name f {w} g = from (get d k) refl
    where
      from :
          (o : Option V) → get d k ≡ o → (x : V) × (get (write_status none d k f).1 name ≡ some x)
      from none e = (w, ground (arith, e, g))
      from (some v) e = let (x, q) = put-there d k name (f v) g in (x, ground (arith, e, q))

  pub write_status-ok :
      (o : Option Error) (d : Dict V) (k : Text) (f : V → V) {v : V}
      → (write_status o d k f).0 ≡ ok v
      → (get (write_status o d k f).1 k ≡ some v) × ((w : V) × (v ≡ f w))
  write_status-ok (some e) d k f h = absurd (ground (arith, h))
  write_status-ok none d k f {v} h = from (get d k) refl
    where
      from :
          (o : Option V)
          → get d k ≡ o
          → (get (write_status none d k f).1 k ≡ some v) × ((w : V) × (v ≡ f w))
      from none e = absurd (ground (arith, e, h))
      from (some w) e =
          (ground (arith, e, h, get-put d k k (f w), ==-refl k), (w, ground (arith, e, h)))

module _ {W : Type 0} (l : Listener W) (calls : Calls) where
  -- The claim after a synchronisation that succeeds.
  sync_claim-ready :
      (b : Bucket) (name : Text) (s : World W) {bc : Claim}
      → get s.claims name ≡ some bc
      → calls.get Kind.claim name ≡ none
      → (sync_claim l calls b (some name) s).0 ≡ ok tt
      → (after : Claim) × (get (sync_claim l calls b (some name) s).1.claims name ≡ some after)
        × (after.status.bucket_ready ≡ b.status.bucket_ready)
  unfolding sync_claim
  sync_claim-ready b name s {bc} g c h =
      let written = record bc {
        status = record {
          bucket_name = if bc.status.bucket_name == lit "" then b.name else bc.status.bucket_name;
          bucket_ready = b.status.bucket_ready;
        };
      } in
      (written, ground (arith, g, c, h, get-put s.claims name name written, ==-refl name), refl)

  -- A claim that is there stays there, and the buckets are not touched.
  sync_claim-there :
      (b : Bucket) (key : Option Text) (name : Text) (s : World W) {bc : Claim}
      → get s.claims name ≡ some bc
      → (after : Claim) × (get (sync_claim l calls b key s).1.claims name ≡ some after)
  unfolding sync_claim
  sync_claim-there b none name s {bc} g = (bc, g)
  sync_claim-there b (some k) name s {bc} g = from (get_claim calls k s).0 refl
    where
      from :
          (r : Result Claim)
          → (get_claim calls k s).0 ≡ r
          → (after : Claim) × (get (sync_claim l calls b (some k) s).1.claims name ≡ some after)
      from (err e) q = (bc, ground (arith, q, g))
      from (ok c) q =
          let (after, there) =
            write_status-there (calls.update_status Kind.claim k) s.claims k name
              (λ stored. record stored {
                status = record {
                  bucket_name =
                      if c.status.bucket_name == lit "" then b.name else c.status.bucket_name;
                  bucket_ready = b.status.bucket_ready;
                };
              })
              g in
          (after, ground (arith, q, there))

  sync_claim-buckets :
      (b : Bucket) (key : Option Text) (s : World W)
      → (sync_claim l calls b key s).1.buckets ≡ s.buckets
  unfolding sync_claim
  sync_claim-buckets b none s = refl
  sync_claim-buckets b (some name) s = ground arith

  -- A bucket that `bind` makes ready.
  bind-ready :
      (b : Bucket) (id : Text) (s : World W)
      → (bind l calls b id s).0 ≡ ok tt
      → (after : Bucket) × (get (bind l calls b id s).1.buckets b.name ≡ some after)
        × (after.status ≡ record { bucket_ready = true; bucket_id = id })
  unfolding sync_claim_ready_from_bucket
  bind-ready b id s h =
      let (updated, e, k, q) =
        >>=-ok (update_bucket_status calls b.name (record { bucket_ready = true; bucket_id = id }))
          _ s h in
      let (there, (w, made)) =
        write_status-ok (calls.update_status Kind.bucket b.name) s.buckets b.name
          (λ stored. record stored { status = record { bucket_ready = true; bucket_id = id } }) e in
      let same =
        ap (λ t. t.buckets) q
        ∙ sync_claim-buckets updated (claim_key updated.spec.bucket_claim)
            (update_bucket_status calls b.name (record { bucket_ready = true; bucket_id = id })
              s).1 in
      (updated, ap (λ d. get d b.name) same ∙ there, ap (λ x. x.status) made)

  bind-there :
      (b : Bucket) (id name : Text) (s : World W) {bc : Claim}
      → get s.claims name ≡ some bc
      → (bind l calls b id s).0 ≡ ok tt
      → (after : Claim) × (get (bind l calls b id s).1.claims name ≡ some after)
  unfolding sync_claim_ready_from_bucket
  bind-there b id name s g h =
      let (updated, e, k, q) =
        >>=-ok (update_bucket_status calls b.name (record { bucket_ready = true; bucket_id = id }))
          _ s h in
      let (after, there) =
        sync_claim-there updated (claim_key updated.spec.bucket_claim) name
          (update_bucket_status calls b.name (record { bucket_ready = true; bucket_id = id }) s).1
          g in
      (after, ap (λ t. get t.claims name) q ∙ there)

  -- What `add` leaves behind for a new bucket of this driver.
  abbrev Added : Bucket → Text → World W → Type 0
  Added b name s =
      ((x : Bucket) × (get s.buckets b.name ≡ some x) × (x.status.bucket_ready ≡ true))
      × ((c : Claim) × (get s.claims name ≡ some c))

  bind-Added :
      (b : Bucket) (id name : Text) (s : World W) {bc : Claim}
      → get s.claims name ≡ some bc
      → (bind l calls b id s).0 ≡ ok tt
      → Added b name (bind l calls b id s).1
  bind-Added b id name s g h =
      let (x, there, status) = bind-ready b id s h in
      ((x, there, ap (λ t. t.bucket_ready) status), bind-there b id name s g h)

  add-Added :
      (b : Bucket) (name : Text) (s : World W) {bc : Claim}
      → b.spec.driver_name ≡ l.driver_name
      → b.status.bucket_ready ≡ false
      → get s.claims name ≡ some bc
      → (add l calls b s).0 ≡ ok tt
      → Added b name (add l calls b s).1
  unfolding add
  add-Added b name s mine unready g h = from (b.spec.existing_bucket_id == lit "") refl
    where
      driver : (b.spec.driver_name == l.driver_name) ≡ true
      driver = (==_iff b.spec.driver_name l.driver_name).1 mine

      from :
          (e : Bool) → (b.spec.existing_bucket_id == lit "") ≡ e → Added b name (add l calls b s).1
      from false e =
          let same : add l calls b s ≡ bind l calls b b.spec.existing_bucket_id s =
            rw (driver, unready, e, add) refl in
          rw same (bind-Added b b.spec.existing_bucket_id name s g (sym (ap (λ t. t.0) same) ∙ h))
      from true e =
          let created = asked (create_bucket l.admin b.name) in
          let same : add l calls b s ≡ (created >> bind l calls b b.name) s =
            rw (driver, unready, e, add) refl in
          let (h1, h2, q) =
            >>-ok created (bind l calls b b.name) s (sym (ap (λ t. t.0) same) ∙ h) in
          rw (same, q) (bind-Added b b.name name (created s).1 g h2)

  -- An update event that succeeds, for a bucket of this driver that is not ready and whose
  -- claim is there, leaves the bucket ready and its claim not ready. Assumed is that reading
  -- the claim does not fail.
  pub update_stale :
      (old new : Bucket) (name : Text) (s : World W) {bc : Claim}
      → new.spec.driver_name ≡ l.driver_name
      → new.status.bucket_ready ≡ false
      → claim_key new.spec.bucket_claim ≡ some name
      → get s.claims name ≡ some bc
      → calls.get Kind.claim name ≡ none
      → (update l calls old new s).0 ≡ ok tt
      → let t = (update l calls old new s).1 in
        ((b : Bucket) × (get t.buckets new.name ≡ some b) × (b.status.bucket_ready ≡ true))
        × ((c : Claim) × (get t.claims name ≡ some c) × (c.status.bucket_ready ≡ false))
  unfolding update sync_claim_ready_from_bucket
  update_stale old new name s mine unready claim g c h =
      let (h1, h2, q) = >>-ok (add l calls new) (sync_claim_ready_from_bucket l calls new) s h in
      let t = (add l calls new s).1 in
      let ((b, there, ready), (bc1, g1)) = add-Added new name s mine unready g h1 in
      let same : sync_claim_ready_from_bucket l calls new t ≡ sync_claim l calls new (some name) t =
        ap (λ k. sync_claim l calls new k t) claim in
      let (after, at, status) = sync_claim-ready new name t g1 c (sym (ap (λ t. t.0) same) ∙ h2) in
      (
        (
          b,
          ap (λ d. get d new.name)
                (ap (λ t. t.buckets) (q ∙ ap (λ t. t.1) same)
                  ∙ sync_claim-buckets new (some name) t)
              ∙ there,
          ready,
        ),
        (after, ap (λ t. get t.claims name) (q ∙ ap (λ t. t.1) same) ∙ at, status ∙ unready),
      )
