-- ===== src/Signature.antt =====
-- internal/s3/sigv4.go: the check of an AWS signature, version 4.
pub mod Sound
use pobj.Text.Words.{fields, trim_space, to_lower, replace_all, join, canonical_header_key}
use pobj.Text.Parts.{hex_encode, split_two, split}
use pobj.Text.Escape.{query_escape, parse_query}
use pobj.Store.{Platform}
use pobj.Sort.{sort}
use pobj.Dict.{Dict, put, get}
use pobj.Prelude.{some, none, Option, if◌then◌else◌, Bool, ◌||◌, not, List, [], ◌∷◌, ◌++◌}
use pobj.Text.{Text, lit, ◌==◌, has_prefix, trim_prefix, le_text}
use pobj.Http.{Method, Request}
use pobj.Exec.{Result, ok, err, failed}

-- CredentialsResolver: the secret, the bucket and whether the key is read-only.
abbrev pub CredentialsResolver : Type 0
CredentialsResolver = Text → Result (Text × Text × Bool)

pub record AuthResult : Type 0 where
  pub access_key : Text
  pub bucket : Text
  pub read_only : Bool

add_field : Text × Option Text → Dict Text → Dict Text
unfolding put
add_field (k, none) m = m
add_field (k, some v) m = put m k v

add_fields : List Text → Dict Text → Dict Text
unfolding add_field split_two trim_space
add_fields [] m = m
add_fields (p ∷ ps) m = add_fields ps (add_field (split_two b'=' (trim_space p)) m)

unfoldable pub parse_auth_fields : Text → Dict Text
unfolding add_fields split
parse_auth_fields s = add_fields (split b',' s) []

-- m[k], "" for a key that is not there.
field : Dict Text → Text → Text
unfolding get
field m k = elim (get m k) [ none ↦ [] | some v ↦ v ]

unfoldable pub encode_path : Text → Text
unfolding has_prefix ◌==◌
encode_path p =
    if p == lit "" then lit "/" else if not (has_prefix (lit "/") p) then b'/' ∷ p else p

unfoldable pub aws_encode : Text → Text
unfolding query_escape replace_all
aws_encode s =
    replace_all (lit "%7E") (lit "~")
      (replace_all (lit "*") (lit "%2A") (replace_all (lit "+") (lit "%20") (query_escape s)))

-- out = append(out, kv{escK, awsEncode(v)}) for every value.
encoded_values : Text → List Text → List (Text × Text)
unfolding aws_encode
encoded_values k [] = []
encoded_values k (v ∷ vs) = (k, aws_encode v) ∷ encoded_values k vs

encoded_query : Dict (List Text) → List (Text × Text)
unfolding encoded_values aws_encode sort le_text
encoded_query [] = []
encoded_query ((k, vs) ∷ vals) =
    encoded_values (aws_encode k) (sort le_text vs) ++ encoded_query vals

-- By key, then by value.
le_pair : Text × Text → Text × Text → Bool
unfolding ◌==◌ le_text
le_pair (k, v) (k', v') = if k == k' then le_text v v' else le_text k k'

equations : List (Text × Text) → List Text
equations [] = []
equations ((k, v) ∷ out) = ((k ++ lit "=") ++ v) ∷ equations out

unfoldable pub canonical_query : Text → Text
unfolding parse_query encoded_query le_pair equations sort join ◌==◌
canonical_query raw_query =
    if raw_query == lit ""
    then []
    else join (lit "&") (equations (sort le_pair (encoded_query (parse_query raw_query))))

method_text : Method → Text
method_text Method.get = lit "GET"
method_text Method.put = lit "PUT"
method_text Method.post = lit "POST"
method_text Method.delete = lit "DELETE"
method_text Method.head = lit "HEAD"
method_text (Method.other name) = name

header_value : Request → Text → Text
unfolding canonical_header_key join fields ◌==◌
header_value r k =
    let v =
      if k == lit "host"
      then r.host
      else join (lit ",") (r.header_values (canonical_header_key k)) in
    join (lit " ") (fields v)

canonical_headers : Request → List Text → Text
unfolding header_value
canonical_headers r [] = []
canonical_headers r (k ∷ ks) =
    (((k ++ lit ":") ++ header_value r k) ++ lit "\n") ++ canonical_headers r ks

unfoldable pub canonical_request : Request → Text → Text → Text
unfolding canonical_headers canonical_query encode_path method_text sort split to_lower join le_text
canonical_request r signed_headers payload_hash =
    let hdrs = sort le_text (split b';' (to_lower signed_headers)) in
    join (lit "\n") (
      method_text r.method
      ∷ encode_path r.escaped_path
      ∷ canonical_query r.raw_query
      ∷ canonical_headers r hdrs
      ∷ join (lit ";") hdrs
      ∷ payload_hash
      ∷ [])

-- The header's value, or the default that stands for an unsigned payload.
payload_hash_of : Request → Text
unfolding ◌==◌
payload_hash_of r =
    let hash = r.header (lit "X-Amz-Content-Sha256") in
    if hash == lit "" then lit "UNSIGNED-PAYLOAD" else hash

-- A field of the Authorization header, behind the name of the scheme.
unfoldable pub auth_field : Request → Text → Text
unfolding parse_auth_fields field trim_prefix
auth_field r name =
    field
      (parse_auth_fields (trim_prefix (lit "AWS4-HMAC-SHA256 ") (r.header (lit "Authorization"))))
      name

-- `hmac` is hmacSHA256 with crypto/hmac, on bytes.
module _ (lib : Platform) (hmac : Text → Text → Text) where
  unfoldable pub string_to_sign : Text → Text → Text → Text → Text
  string_to_sign amz_date date region canon_req = join (lit "\n") (
      lit "AWS4-HMAC-SHA256"
      ∷ amz_date
      ∷ join (lit "/") (date ∷ region ∷ lit "s3" ∷ lit "aws4_request" ∷ [])
      ∷ lib.sha256_hex canon_req
      ∷ [])

  -- The signature that a request must carry for a secret and a credential scope.
  unfoldable pub expected_signature : Text → Text → Text → Text → Request → Text
  unfolding string_to_sign canonical_request payload_hash_of hex_encode
  expected_signature secret date region signed r =
      let to_sign =
        string_to_sign (r.header (lit "X-Amz-Date")) date region
          (canonical_request r signed (payload_hash_of r)) in
      let k_sign =
        hmac (hmac (hmac (hmac (lit "AWS4" ++ secret) date) region) (lit "s3"))
          (lit "aws4_request") in
      hex_encode (hmac k_sign to_sign)

  module _ (r : Request) (resolver : CredentialsResolver) where
    -- From the lookup of the access key on.
    check_signature : Text → Text → Text → Text → Text → Result AuthResult
    unfolding expected_signature ◌==◌
    check_signature access_key date region signed sig = elim (resolver access_key) [
      | err e ↦ err (failed (lit "invalid access key"))
      | ok (secret, bucket, read_only) ↦
          if expected_signature secret date region signed r == sig
          then ok (record { access_key = access_key; bucket = bucket; read_only = read_only })
          else err (failed (lit "signature mismatch"))
    ]

    check_scope : List Text → Text → Text → Result AuthResult
    unfolding check_signature ◌==◌
    check_scope (access_key ∷ date ∷ region ∷ service ∷ last ∷ []) signed sig =
        if not (service == lit "s3")
        then err (failed (lit "service must be s3"))
        else if r.header (lit "X-Amz-Date") == lit ""
        then err (failed (lit "missing x-amz-date"))
        else check_signature access_key date region signed sig
    check_scope _ signed sig = err (failed (lit "bad credential scope"))

    unfoldable pub verify_sig_v4 : Result AuthResult
    unfolding check_scope auth_field split has_prefix ◌==◌
    verify_sig_v4 =
        let cred = auth_field r (lit "Credential") in
        let signed = auth_field r (lit "SignedHeaders") in
        let sig = auth_field r (lit "Signature") in
        if not (has_prefix (lit "AWS4-HMAC-SHA256 ") (r.header (lit "Authorization")))
        then err (failed (lit "missing auth"))
        else if cred == lit "" || signed == lit "" || sig == lit ""
        then err (failed (lit "malformed auth"))
        else check_scope (split b'/' cred) signed sig
