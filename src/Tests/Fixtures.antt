-- ===== src/Tests/Fixtures.antt =====
-- Test data: a platform with a small working codec, surroundings where every call succeeds, and a
-- few stores.
use pobj.Http.{bare}
use pobj.Prelude.Int.{pos}
use pobj.Cluster.{Net, Cluster}
use pobj.Store.Durable.{empty_store}
use pobj.Text.{Text, lit}
use pobj.Exec.{ok, failed}
use pobj.Store.{ObjectRecord, Store, Platform, MetaState, Io, BucketState}
use pobj.Prelude.{true, ltb, eqb, if◌then◌else◌, drop, ◌∷◌, ◌++◌, none, some, []}

-- Metadata of buckets made by the test platform, without objects and access keys: the names, each
-- with a semicolon behind it.
unfoldable pub encode_names : MetaState → Text
encode_names [] = []
encode_names ((name, b) ∷ rest) = name ++ b';' ∷ encode_names rest

abbrev pub fresh_bucket : BucketState
fresh_bucket = record { created_at = lit "t0"; objects = []; access = [] }

unfoldable pub decode_names : Text → Text → MetaState
decode_names acc [] = []
decode_names acc (c ∷ text) =
    let now = decode_names [] text in
    let longer = decode_names (acc ++ c ∷ []) text in
    if eqb c b';' then (acc, fresh_bucket) ∷ now else longer

abbrev pub tiny : Platform
tiny = record {
  sha256_hex = λ content. lit "hash of " ++ content;
  marshal = λ state. ok (b'{' ∷ encode_names state);
  unmarshal = λ text. ok (decode_names [] (drop 1 text));
  format_time = λ now. lit "t0";
  parse_time = λ text. 0;
  http_time = λ now. lit "today";
}

abbrev pub calm : Io
calm = record {
  now = 0;
  mkdir = none;
  create = none;
  copy = none;
  close = none;
  write = none;
  rename = none;
  remove = none;
  remove_all = none;
  read = none;
  random = ok (171 ∷ []);
  random_secret = ok (18 ∷ []);
  partial = [];
  written = some [];
  removed = λ path. true;
}

abbrev pub disk_full : Io
disk_full = record calm { write = some (failed (lit "no space left on device")) }

-- The surroundings of a later call: another random identifier is drawn.
abbrev pub later : Io
later = record calm { now = 1; random = ok (205 ∷ []) }

abbrev pub no_files : Store
no_files = empty_store (lit "/data")

abbrev pub one_bucket : Store
one_bucket = record no_files { state = (lit "photos", fresh_bucket) ∷ [] }

-- An object "a" with the content "hi".
abbrev pub record_a : ObjectRecord
record_a = record {
  size = 2;
  etag = lit "hash of hi";
  mod_time = lit "t0";
  path = lit "/data/objects/photos/cd";
}

abbrev pub photos : BucketState
photos = record fresh_bucket { objects = (lit "a", record_a) ∷ [] }

abbrev pub one_object : Store
one_object = record no_files {
  state = (lit "photos", photos) ∷ [];
  disk = record {
    files = (lit "/data/objects/photos/cd", lit "hi") ∷ [];
    meta_file = none;
    tmp_file = none;
  };
}

-- Of three replicas, 0 and 1 answer.
abbrev pub two_up : Net (Unit {0})
two_up = record {
  healthy = λ i w. ltb i 2;
  send = λ i method path body w. (if ltb i 2 then some 204 else none, w);
  proxy = λ i r w. (ok (bare 200), w);
}

abbrev pub three : Cluster
three = record {
  cfg = record {
    pod_name = lit "pobj-0";
    namespace = lit "default";
    name = lit "pobj";
    headless_name = lit "pobj-headless";
    replicas = pos 3;
    s3_port = pos 9000;
    admin_port = pos 19000;
    token = lit "secret";
    tls_enabled = true;
    ca_file = lit "ca.crt";
    cert_file = lit "tls.crt";
    key_file = lit "tls.key";
  };
  ordinal = pos 0;
}

abbrev pub other_server : Cluster
other_server = record three { ordinal = pos 1 }
