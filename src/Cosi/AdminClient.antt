-- ===== src/Cosi/AdminClient.antt =====
-- internal/cosi/admin_client.go: the COSI driver's calls of the admin API.
use pobj.Prelude.{ℕ, Bool, ◌++◌, ◌&&◌, not, [], ◌∷◌, leb, eqb, if◌then◌else◌}
use pobj.Text.{Text, lit}
use pobj.Dict.{Dict}
use pobj.Exec.{Result, ok, err, failed}
use pobj.Http.{Method}
use pobj.Store.{AccessKey}

-- An answer of the server: resp.StatusCode, resp.Status and the body.
pub record Answer : Type 0 where
  pub status_code : ℕ
  pub status : Text
  pub body : Text

-- `send` is http.NewRequestWithContext and Client.Do: the method, the URL, the headers and the body.
-- The rest is encoding/json on the two payloads and on an access key.
pub record AdminClient (W : Type 0) : Type 0 where
  pub base_url : Text
  pub token : Text
  pub send : Method → Text → Dict Text → Text → W → Result Answer × W
  pub marshal_name : Text → Text
  pub marshal_grant : Text → Bool → Text
  pub decode_access_key : Text → Result AccessKey

-- resp.StatusCode >= 300
abbrev refused : ℕ → Bool
refused code = leb 300 code

-- resp.StatusCode >= 300 && resp.StatusCode != 404
abbrev refused_found : ℕ → Bool
refused_found code = leb 300 code && not (eqb code 404)

-- The error of a call that is refused.
abbrev done : (ℕ → Bool) → Text → Result Answer → Result (Unit {0})
done refuses message (err e) = err e
done refuses message (ok answer) =
    if refuses answer.status_code then err (failed (message ++ answer.status)) else ok tt

module _ {W : Type 0} (c : AdminClient W) where
  abbrev bearer : Dict Text
  bearer = (lit "Authorization", lit "Bearer " ++ c.token) ∷ []

  abbrev bearer_json : Dict Text
  bearer_json =
      (lit "Authorization", lit "Bearer " ++ c.token)
      ∷ (lit "Content-Type", lit "application/json")
      ∷ []

  unfoldable pub create_bucket : Text → W → Result (Unit {0}) × W
  create_bucket name w =
      let (answer, w') =
        c.send Method.post (c.base_url ++ lit "/admin/buckets") bearer_json (c.marshal_name name)
          w in
      (done refused (lit "create bucket failed: ") answer, w')

  unfoldable pub delete_bucket : Text → W → Result (Unit {0}) × W
  delete_bucket name w =
      let (answer, w') =
        c.send Method.delete ((c.base_url ++ lit "/admin/buckets/") ++ name) bearer [] w in
      (done refused_found (lit "delete bucket failed: ") answer, w')

  abbrev created : Result Answer → Result AccessKey
  created (err e) = err e
  created (ok answer) =
      if refused answer.status_code
      then err (failed (lit "create access failed: " ++ answer.status))
      else c.decode_access_key answer.body

  unfoldable pub create_access : Text → Bool → W → Result AccessKey × W
  create_access bucket read_only w =
      let (answer, w') =
        c.send Method.post (c.base_url ++ lit "/admin/access") bearer_json
          (c.marshal_grant bucket read_only) w in
      (created answer, w')

  unfoldable pub delete_access : Text → W → Result (Unit {0}) × W
  delete_access access_key w =
      let (answer, w') =
        c.send Method.delete ((c.base_url ++ lit "/admin/access/") ++ access_key) bearer [] w in
      (done refused_found (lit "delete access failed: ") answer, w')
