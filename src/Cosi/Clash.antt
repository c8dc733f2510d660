-- ===== src/Cosi/Clash.antt =====
-- Claims that get the same bucket (internal/cosi/listeners.go).
use pobj.Text.Words.{to_lower_byte, to_lower}
use pobj.Cosi.{replaced, raw_name, BucketClaim, claim_bucket_name, trim_right, trim_left, cut_name}
use pobj.Prelude.{
  length-append, ◌∙◌, sym, ap, inr, ◌+◌, inl, if◌then◌else◌, map, ltb, ◌++◌, Bool-cases, zero, suc,
  [], ◌≤◌, ◌∷◌, take, ℕ, length, ◌≡◌, refl, arith,
}
use pobj.Text.{Text, lit}

take_all : (n : ℕ) (s : Text) → length s ≤ n → take n s ≡ s
take_all zero [] l = refl
take_all zero (c ∷ s) l = absurd (omega arith)
take_all (suc n) [] l = refl
take_all (suc n) (c ∷ s) l = ap (λ t. c ∷ t) (take_all n s (omega arith))

cut_name-take : (s : Text) → cut_name s ≡ take 63 s
unfolding cut_name
cut_name-take s = from (length s) refl
  where
    from : (n : ℕ) → length s ≡ n → (if ltb 63 n then take 63 s else s) ≡ take 63 s
    from n e = elim (Bool-cases (ltb 63 n)) [
      | inl b ↦ rw b refl
      | inr b ↦ rw b (sym (take_all 63 s (ground (arith, e, b))))
    ]

-- The first bytes of a raw name stand in the front of the text that is long enough for them.
take-front :
    (n : ℕ) (s t t' : Text)
    → n ≤ length s
    → take n (map replaced (to_lower (s ++ t))) ≡ take n (map replaced (to_lower (s ++ t')))
unfolding to_lower
take-front zero s t t' l = refl
take-front (suc n) [] t t' l = absurd (omega arith)
take-front (suc n) (c ∷ s) t t' l =
    ap (λ u. replaced (to_lower_byte c) ∷ u) (take-front n s t t' (omega arith))

abbrev front : BucketClaim → Text
front bc = ((bc.namespace ++ lit "-") ++ bc.name) ++ lit "-"

length-front : (bc : BucketClaim) → length (front bc) ≡ length bc.namespace + length bc.name + 2
length-front bc = omega (
  arith,
  length-append ((bc.namespace ++ lit "-") ++ bc.name) (lit "-"),
  length-append (bc.namespace ++ lit "-") bc.name,
  length-append bc.namespace (lit "-"),
)

-- Two claims whose namespace and name agree and are 61 bytes long together, or longer, get the same
-- bucket, whatever their UIDs are.
pub claim_bucket_name-same :
    (bc bc' : BucketClaim)
    → bc.namespace ≡ bc'.namespace
    → bc.name ≡ bc'.name
    → 61 ≤ length bc.namespace + length bc.name
    → claim_bucket_name bc ≡ claim_bucket_name bc'
unfolding claim_bucket_name raw_name
claim_bucket_name-same bc bc' e e' l =
    ap
      (λ cut.
        let out = trim_right (trim_left cut) in
        if ltb (length out) 3 then out ++ lit "-entity" else out)
      cut
  where
    same_front : front bc ≡ front bc'
    same_front = rw (e, e') refl

    cut : cut_name (raw_name bc) ≡ cut_name (raw_name bc')
    cut =
        cut_name-take (raw_name bc)
        ∙ take-front 63 (front bc) bc.uid bc'.uid (omega (arith, length-front bc, l))
        ∙ ap (λ f. take 63 (map replaced (to_lower (f ++ bc'.uid)))) same_front
        ∙ sym (cut_name-take (raw_name bc'))
