-- ===== src/Operator/Again.antt =====
-- Reconcile (controllers/objectservice_controller.go) run a second time, and the status that it writes.
use pobj.Prelude.{◌≡◌, ◌∙◌, sym, ap, refl, ℕ, Option, none, some, arith}
use pobj.Text.{Text, ==-refl}
use pobj.Dict.{Dict, get, put, get-put}
use pobj.Exec.{not_found, ok, >>-ok, >>-fixed}
use pobj.Kube.{Calls, Kind, StatefulSet}
use pobj.Operator.Spec.{ObjectService, ObjectServiceStatus, headless_name, cosi_name, with_defaults}
use pobj.Operator.Pki.{Draws}
use pobj.Operator.Namespace.{Namespace}
use pobj.Operator.Rotation.{IsLawful}
use pobj.Operator.Settled.{no_failures, put_same}
use pobj.Operator.Secrets.{is_tls_ready}
use pobj.Operator.Frame.{Keeps-ensure_all}
use pobj.Operator.Token.{run, reconcile_found, reconcile_missing, reconcile_absent}
use pobj.Operator.Idle.{IsSteady, ensure_all_steady}
use pobj.Operator.Steady.{ensure_all-IsSteady}
use pobj.Operator.Tls.{certificate_of, dns_names}
use pobj.Operator.Workloads.{
  endpoint_of, admin_url_of, objectd_env, cosi_env, objectd_template, stateful_set_of,
  cosi_deployment,
}
use pobj.Operator.Reconcile.{Reconciler, ensure_all, status_of, update_status, reconcile}

-- What a service asks for does not depend on its status.
IsSteady-status :
    (r : Reconciler) (now : ℕ) (obj : ObjectService) (s : Namespace) (status : ObjectServiceStatus)
    (d : Dict ObjectService)
    → IsSteady r now obj s
    → IsSteady r now (record obj { status = status }) (record s { object_services = d })
unfolding headless_name cosi_name certificate_of dns_names is_tls_ready stateful_set_of
    objectd_template objectd_env cosi_deployment cosi_env endpoint_of admin_url_of
IsSteady-status r now obj s status d st = record {
  quantity = st.quantity;
  quantity_read = st.quantity_read;
  admin = st.admin;
  tls = st.tls;
  certificate = st.certificate;
  headless = st.headless;
  service = st.service;
  stateful_set = st.stateful_set;
  cosi = st.cosi;
}

module _ (r : Reconciler) (calls : Calls) (draws : Draws) (now : ℕ) (obj : ObjectService) where
  -- A second look at the status finds what the first has written.
  status_again :
      (t : Namespace) (d : Dict ObjectService) (later : Draws) {x : StatefulSet}
      → get t.stateful_sets obj.name ≡ some x
      → calls.get Kind.stateful_set obj.name ≡ none
      → let status = status_of r calls draws now obj t in
        status_of r no_failures later now
          (record obj { status = status })
          (record t { object_services = d })
        ≡ status
  unfolding status_of endpoint_of
  status_again t d later g c = rw (c, g) refl

  update_status-ok :
      (t : Namespace)
      → (update_status r calls draws now obj t).0 ≡ ok tt
      → (stored : ObjectService) × (get t.object_services obj.name ≡ some stored)
        × ((update_status r calls draws now obj t).1 ≡ record t {
          object_services =
              put t.object_services obj.name
                (record stored { status = status_of r calls draws now obj t });
        })
  unfolding update_status
  update_status-ok t h = from (get t.object_services obj.name) refl
    where
      from :
          (o : Option ObjectService)
          → get t.object_services obj.name ≡ o
          → (stored : ObjectService) × (get t.object_services obj.name ≡ some stored)
            × ((update_status r calls draws now obj t).1 ≡ record t {
              object_services =
                  put t.object_services obj.name
                    (record stored { status = status_of r calls draws now obj t });
            })
      from none q = absurd (ground (arith, q, h))
      from (some stored) q = (stored, q, ground (arith, q, h))

  -- The status of an object that has it already.
  update_status_same :
      (t : Namespace) {stored : ObjectService}
      → get t.object_services obj.name ≡ some stored
      → stored.status ≡ status_of r no_failures draws now obj t
      → update_status r no_failures draws now obj t ≡ (ok tt, t)
  unfolding update_status
  update_status_same t {stored} g e =
      rw (g, update_status, sym e, put_same t.object_services obj.name stored g) refl

module _ (r : Reconciler) (calls : Calls) (draws later : Draws) (now : ℕ) where
  -- Two runs for an object that is there.
  run_again :
      (name : Text) (s : Namespace) {stored : ObjectService}
      → IsLawful r.pki
      → get s.object_services name ≡ some stored
      → stored.name ≡ name
      → calls.get Kind.stateful_set name ≡ none
      → (run r calls draws now (with_defaults stored) s).0 ≡ ok tt
      → let u = (run r calls draws now (with_defaults stored) s).1 in
        reconcile r no_failures later now name u ≡ (ok tt, u)
  unfolding with_defaults
  run_again name s {stored} law g named c h =
      let obj = with_defaults stored in
      let (h1, h2, q) =
        >>-ok (ensure_all r calls draws now obj) (update_status r calls draws now obj) s h in
      let t = (ensure_all r calls draws now obj s).1 in
      let st = ensure_all-IsSteady r calls draws now obj s law h1 in
      let (kept, k, e) = update_status-ok r calls draws now obj t h2 in
      let same : kept ≡ stored =
        ground (arith, k, g, named, Keeps-ensure_all r calls draws now obj s) in
      let status = status_of r calls draws now obj t in
      let stored1 = record stored { status = status } in
      let d = put t.object_services name stored1 in
      let u = record t { object_services = d } in
      let final : (run r calls draws now obj s).1 ≡ u =
        q
        ∙ e
        ∙ ap
            (λ n. record t {
              object_services = put t.object_services n (record kept { status = status });
            })
            named
        ∙ ap
            (λ o. record t {
              object_services = put t.object_services name (record o { status = status });
            })
            same in
      let found : get d name ≡ some stored1 =
        ground (arith, get-put t.object_services name name stored1, ==-refl name) in
      let obj1 = with_defaults stored1 in
      let st1 : IsSteady r now obj1 u = IsSteady-status r now obj t status d st in
      let settled = ensure_all_steady r later now obj1 u st1 in
      let (x, set, fix) = st.stateful_set in
      let again =
        status_again r calls draws now obj t d later set
          (ap (calls.get Kind.stateful_set) named ∙ c) in
      let written =
        update_status_same r no_failures later now obj1 u {stored = stored1}
          (ap (get d) named ∙ found) (sym again) in
      rw final (
        rw
          (reconcile_found r no_failures later now name u {stored = stored1}
            (ground (arith, found)))
          (>>-fixed (ensure_all r no_failures later now obj1)
            (update_status r no_failures later now obj1) u settled written))

  -- Reconcile is idempotent: after a run that succeeded, a run at the same time in which no
  -- call fails succeeds and changes nothing, whatever random bytes it draws. Assumed is that no
  -- read of the first run fails, that an object is stored under its own name, and that the PKI
  -- is lawful: PEM is decoded as what was encoded and is not empty, and a certificate is parsed
  -- as the template it was made from.
  pub reconcile_again :
      (name : Text) (s : Namespace)
      → IsLawful r.pki
      → ((o : ObjectService) → get s.object_services name ≡ some o → o.name ≡ name)
      → ((kind : Kind) (key : Text) → calls.get kind key ≡ none)
      → (reconcile r calls draws now name s).0 ≡ ok tt
      → let u = (reconcile r calls draws now name s).1 in
        reconcile r no_failures later now name u ≡ (ok tt, u)
  reconcile_again name s law named reads h = from (get s.object_services name) refl
    where
      from :
          (o : Option ObjectService)
          → get s.object_services name ≡ o
          → let u = (reconcile r calls draws now name s).1 in
            reconcile r no_failures later now name u ≡ (ok tt, u)
      from none g =
          let missing =
            reconcile_missing r calls draws now name s {e = not_found}
              (ground (arith, g, reads Kind.object_service name)) in
          rw missing (reconcile_absent r later now name s g)
      from (some stored) g =
          let found =
            reconcile_found r calls draws now name s {stored = stored}
              (ground (arith, g, reads Kind.object_service name)) in
          rw found (
            run_again name s law g (named stored g) (reads Kind.stateful_set name)
              (sym (ap (λ p. p.0) found) ∙ h))
