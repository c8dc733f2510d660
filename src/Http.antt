-- ===== src/Http.antt =====
-- net/http and encoding/json as the handlers use them: requests, responses, and the JSON bodies of
-- the admin API and of replication.
use pobj.Prelude.Int.{ℤ}
use pobj.Prelude.{ℕ, Bool, true, false, Option, List, []}
use pobj.Text.{Text, lit, ◌==◌}
use pobj.Dict.{Dict}
use pobj.Exec.{Result}
use pobj.Store.{AccessKey, Bucket}
use pobj.Store.Listing.{Page}

-- The methods that the code names; `other` is any other method.
pub data Method : Type 0 where
  get put post delete head : Method
  other : Text → Method

abbrev pub same_method : Method → Method → Bool
same_method get get = true
same_method put put = true
same_method post post = true
same_method delete delete = true
same_method head head = true
same_method (other a) (other b) = a == b
same_method _ _ = false

-- x509.Certificate.ExtKeyUsage: nil, or a list; only client authentication matters.
pub data KeyUsage : Type 0 where
  client_auth other_usage : KeyUsage

pub record Certificate : Type 0 where
  pub ext_key_usage : Option (List KeyUsage)

-- r.TLS, if it is not nil; `verified_chains` is the number of chains.
pub record ConnectionState : Type 0 where
  pub peer_certificates : List Certificate
  pub verified_chains : ℕ

-- `header` is Header.Get, "" for a header that is not there; `query` is Query().Get; `body` is what
-- reading the body gives.
-- `header_values` is Header.Values of a canonical key, `escaped_path` is URL.EscapedPath().
pub record Request : Type 0 where
  pub method : Method
  pub path : Text
  pub raw_query : Text
  pub query : Text → Text
  pub header : Text → Text
  pub header_values : Text → List Text
  pub host : Text
  pub escaped_path : Text
  pub body : Result Text
  pub tls : Option ConnectionState

pub data Body : Type 0 where
  empty : Body
  text : Text → Body
  error_xml : Text → Text → Body
  bucket_list : List Bucket → Body
  object_list : Text → Text → ℤ → Page → Body
  content : Text → Body
  access_json : AccessKey → Body

pub record Response : Type 0 where
  pub status : ℕ
  pub headers : Dict Text
  pub body : Body

abbrev pub bare : ℕ → Response
bare status = record { status = status; headers = []; body = empty }

-- http.Error
abbrev pub plain_error : Text → ℕ → Response
plain_error message status = record { status = status; headers = []; body = text message }

-- http.NotFound
abbrev pub not_found_page : Response
not_found_page = plain_error (lit "404 page not found") 404

-- encoding/json on the bodies of the admin API and of replication: the `name` of a bucket, the
-- `bucket` and `readOnly` of an access request, and an AccessKey.
pub record Json : Type 0 where
  pub decode_name : Text → Result Text
  pub decode_grant : Text → Result (Text × Bool)
  pub decode_access_key : Text → Result AccessKey
  pub encode_access_key : AccessKey → Text
