-- ===== src/Tests/Cosi.antt =====
-- Names of buckets at concrete claims (internal/cosi/listeners.go).
use pobj.Store.Names.{valid_bucket, valid_chars}
use pobj.Cosi.Names.{valid_bucket-claim_bucket_name}
use pobj.Cosi.Clash.{claim_bucket_name-same}
use pobj.Prelude.{arith, ◌≡◌, refl, true}
use pobj.Text.{Text, lit}
use pobj.Cosi.{BucketClaim, claim_bucket_name}

abbrev claim : BucketClaim
claim = record { namespace = lit "shop"; name = lit "img.raw"; uid = lit "1f-2" }

named : claim_bucket_name claim ≡ lit "shop-img-raw-1f-2"
unfolding claim_bucket_name
named = refl

valid_bucket-claim_bucket_name_example : valid_bucket (claim_bucket_name claim) ≡ true
unfolding valid_chars
valid_bucket-claim_bucket_name_example =
    valid_bucket-claim_bucket_name claim b's' (lit "hop") refl (λ e. absurd (omega (arith, e)))
      (λ e. absurd (omega (arith, e))) refl refl refl

-- A namespace of 61 bytes.
abbrev long : Text
long = lit "a-namespace-whose-name-has-sixty-one-bytes-and-that-is-allowed"

abbrev first_claim : BucketClaim
first_claim = record { namespace = long; name = lit "data"; uid = lit "1" }

abbrev second_claim : BucketClaim
second_claim = record first_claim { uid = lit "2" }

claim_bucket_name-same_example : claim_bucket_name first_claim ≡ claim_bucket_name second_claim
claim_bucket_name-same_example =
    claim_bucket_name-same first_claim second_claim refl refl (omega arith)
