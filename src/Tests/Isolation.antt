-- ===== src/Tests/Isolation.antt =====
-- The S3 API with credentials for one of two buckets (internal/s3/handler.go).
use pobj.Prelude.{◌≡◌, ◌≢◌, refl, ap, subst, true, false, none, ◌⊎◌, arith}
use pobj.Text.{lit}
use pobj.Text.Parts.{hex_encode}
use pobj.Dict.{get, put}
use pobj.Exec.{ok}
use pobj.Http.{Request, Method}
use pobj.Signature.{AuthResult, verify_sig_v4}
use pobj.Store.{Store}
use pobj.Store.Names.{object_path, valid_bucket}
use pobj.Store.Ops.{Op, run}
use pobj.Store.Buckets.{create_bucket}
use pobj.Store.Access.{put_access}
use pobj.Store.Objects.{open_object, put_object, write_file, record_object, find_record}
use pobj.Store.Consistent.{IsConsistent}
use pobj.Store.Consistent.Puts.{IsFresh}
use pobj.Store.Consistent.Runs.{run-IsConsistent}
use pobj.S3.{Node, serve_http, split_path, lookup}
use pobj.S3.Isolation.{serve_http-Kept}
use pobj.S3.Guards.{serve_http-verify_sig_v4}
use pobj.S3
use pobj.Cluster.Leader.{in_charge}
use pobj.Tests.Fixtures.{calm, later, tiny, two_up}
use pobj.Tests.Store.{stored, stored-IsConsistent, drawn_of}
use pobj.Tests.Servers.{request, signed_headers, flat_hmac}

abbrev with_videos : Store
with_videos = (run tiny calm (Op.create_bucket (lit "videos")) stored).1

abbrev video_key : Op
video_key = Op.put_access (record {
  access_key = lit "PXAB";
  secret_key = lit "12";
  bucket = lit "videos";
  read_only = false;
})

-- An object in "photos", and a key for "videos".
abbrev two_buckets : Store
two_buckets = (run tiny calm video_key with_videos).1

two_buckets-IsConsistent : IsConsistent tiny two_buckets
two_buckets-IsConsistent =
    run-IsConsistent tiny calm video_key with_videos
      (run-IsConsistent tiny calm (Op.create_bucket (lit "videos")) stored stored-IsConsistent tt)
      tt

two_buckets-IsFresh : IsFresh tiny later (lit "videos") two_buckets
unfolding run create_bucket put_object valid_bucket write_file record_object put_access get put
two_buckets-IsFresh bytes e =
    subst
      (λ drawn.
        get two_buckets.disk.files
          (object_path two_buckets.data_dir (lit "videos") (hex_encode drawn))
        ≡ none)
      (ap drawn_of e) refl

abbrev video_put : Request
video_put = record (request Method.put (lit "/videos/a")) { header = signed_headers }

abbrev server : Node (Unit {0})
server = record { store = two_buckets; world = tt }

accepted_video :
    verify_sig_v4 tiny flat_hmac video_put (lookup two_buckets)
    ≡ ok (record { access_key = lit "PXAB"; bucket = lit "videos"; read_only = false })
unfolding verify_sig_v4 lookup run create_bucket put_object valid_bucket write_file record_object
    put_access get put
accepted_video = refl

serve_http-Kept_example :
    (get (serve_http tiny later two_up none flat_hmac video_put server).1.store.state (lit "photos")
      ≡ get two_buckets.state (lit "photos"))
    × (open_object tiny calm
          (lit "photos")
          (lit "a")
          (serve_http tiny later two_up none flat_hmac video_put server).1.store
        ≡ open_object tiny calm (lit "photos") (lit "a") two_buckets)
    × (((split_path (lit "/videos/a")).0 ≢ lit "photos")
        ⊎ (((serve_http tiny later two_up none flat_hmac video_put server).0.status ≡ 403)
            × ((serve_http tiny later two_up none flat_hmac video_put server).1 ≡ server)))
serve_http-Kept_example =
    serve_http-Kept tiny later two_up none (lit "photos") (lit "a") calm flat_hmac video_put server
      accepted_video (λ e. absurd (ground (arith, e))) (λ e. absurd (ground (arith, e)))
      two_buckets-IsConsistent two_buckets-IsFresh

stored_video : (serve_http tiny later two_up none flat_hmac video_put server).1.store ≢ two_buckets
unfolding serve_http verify_sig_v4 lookup run create_bucket put_object valid_bucket write_file
    record_object put_access get put S3.put_object find_record
stored_video e = absurd (ground (arith, found))
  where
    found :
        (find_record
          (serve_http tiny later two_up none flat_hmac video_put server).1.store.state
          (lit "videos")
          (lit "a"))
        ≡ none
    found = ap (λ (s : Store). find_record s.state (lit "videos") (lit "a")) e

serve_http-verify_sig_v4_example :
    (auth : AuthResult) × (verify_sig_v4 tiny flat_hmac video_put (lookup two_buckets) ≡ ok auth)
    × (auth.bucket ≡ (split_path (lit "/videos/a")).0)
    × (auth.read_only ≡ false)
    × (in_charge two_up none video_put tt ≡ true)
serve_http-verify_sig_v4_example =
    serve_http-verify_sig_v4 tiny later two_up none flat_hmac video_put server stored_video
