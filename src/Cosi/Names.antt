-- ===== src/Cosi/Names.antt =====
-- Which names claims get (internal/cosi/listeners.go).
use pobj.Text.Words.{to_lower}
use pobj.Store.Names.{valid_char, valid_bucket, valid_chars}
use pobj.Cosi.{
  replaced, raw_name, BucketClaim, claim_bucket_name, before_trimmed, trim_right, trim_left,
  cut_name,
}
use pobj.Prelude.{
  subst, ◌||◌, sym, Bool, inr, inl, if◌then◌else◌, map, ltb, eqb, ◌≢◌, ◌++◌, length-take-le,
  Bool-cases, zero, suc, [], ◌≤◌, ◌∷◌, take, ℕ, true, length, false, ◌≡◌, refl, arith,
}
use pobj.Text.{◌==◌, has_suffix, has_prefix, Text, lit}

valid_chars-take : (n : ℕ) (s : Text) → valid_chars s ≡ true → valid_chars (take n s) ≡ true
unfolding valid_chars
valid_chars-take zero s h = refl
valid_chars-take (suc n) [] h = refl
valid_chars-take (suc n) (c ∷ s) h = ground (arith, valid_chars-take n s)

valid_chars-cut_name : (s : Text) → valid_chars s ≡ true → valid_chars (cut_name s) ≡ true
unfolding cut_name
valid_chars-cut_name s h = ground (arith, valid_chars-take 63 s)

length-cut_name : (s : Text) → length (cut_name s) ≤ 63
unfolding cut_name
length-cut_name s = from (length s) refl (length-take-le 63 s)
  where
    from :
        (n : ℕ)
        → n ≡ length s
        → length (take 63 s) ≤ 63
        → length (if ltb 63 n then take 63 s else s) ≤ 63
    from n e l = elim (Bool-cases (ltb 63 n)) [
      | inl b ↦ rw b l
      | inr b ↦ rw b (ground (arith, e, b))
    ]

valid_chars-trim_left : (s : Text) → valid_chars s ≡ true → valid_chars (trim_left s) ≡ true
unfolding valid_chars trim_left
valid_chars-trim_left [] h = h
valid_chars-trim_left (c ∷ s) h = ground (arith, valid_chars-trim_left s)

length-trim_left : (s : Text) → length (trim_left s) ≤ length s
unfolding trim_left
length-trim_left [] = omega arith
length-trim_left (c ∷ s) = ground (arith, length-trim_left s)

valid_chars-trim_right : (s : Text) → valid_chars s ≡ true → valid_chars (trim_right s) ≡ true
unfolding valid_chars trim_right
valid_chars-trim_right [] h = h
valid_chars-trim_right (c ∷ s) h = ground (arith, valid_chars-trim_right s)

length-trim_right : (s : Text) → length (trim_right s) ≤ length s
unfolding trim_right
length-trim_right [] = omega arith
length-trim_right (c ∷ s) = ground (arith, length-trim_right s)

no_dash-trim_left : (s : Text) → has_prefix (lit "-") (trim_left s) ≡ false
unfolding has_prefix trim_left
no_dash-trim_left [] = refl
no_dash-trim_left (c ∷ s) = ground (arith, no_dash-trim_left s)

no_dash-trim_right :
    (s : Text) → has_prefix (lit "-") s ≡ false → has_prefix (lit "-") (trim_right s) ≡ false
unfolding has_prefix trim_right
no_dash-trim_right [] h = refl
no_dash-trim_right (c ∷ s) h = ground arith

no_dash_end-trim_right : (s : Text) → has_suffix (lit "-") (trim_right s) ≡ false
unfolding has_suffix trim_right
no_dash_end-trim_right [] = refl
no_dash_end-trim_right (c ∷ s) = ground (arith, no_dash_end-trim_right s)

valid_chars-append :
    (s t : Text) → valid_chars s ≡ true → valid_chars t ≡ true → valid_chars (s ++ t) ≡ true
unfolding valid_chars
valid_chars-append [] t h k = k
valid_chars-append (c ∷ s) t h k = ground (arith, valid_chars-append s t)

replaced_valid : (c : ℕ) → valid_char c ≡ true → valid_char (replaced c) ≡ true
unfolding valid_char
replaced_valid c h = elim (Bool-cases (eqb c b'_' || eqb c b'.' || eqb c b'/' || eqb c b':')) [
  | inl e ↦ rw e refl
  | inr e ↦ rw e h
]

to_lower_nil : to_lower [] ≡ []
unfolding to_lower
to_lower_nil = refl

replaced_plain : (c : ℕ) → valid_char c ≡ true → c ≢ b'-' → c ≢ b'.' → replaced c ≢ b'-'
unfolding valid_char
replaced_plain c h n d = elim (Bool-cases (eqb c b'_' || eqb c b'.' || eqb c b'/' || eqb c b':')) [
  | inl e ↦ absurd (ground (arith, h, n, d, e))
  | inr e ↦ rw e n
]

to_lower_valid : (c : ℕ) (s : Text) → valid_char c ≡ true → to_lower (c ∷ s) ≡ c ∷ to_lower s
unfolding to_lower valid_char
to_lower_valid c s h = ground arith

valid_chars-replaced :
    (s : Text) → valid_chars s ≡ true → valid_chars (map replaced (to_lower s)) ≡ true
unfolding valid_chars
valid_chars-replaced [] h = rw to_lower_nil refl
valid_chars-replaced (c ∷ s) h = from (valid_char c) refl (valid_chars-replaced s)
  where
    from :
        (b : Bool)
        → valid_char c ≡ b
        → (valid_chars s ≡ true → valid_chars (map replaced (to_lower s)) ≡ true)
        → valid_chars (map replaced (to_lower (c ∷ s))) ≡ true
    from false e later = absurd (ground (arith, e, h))
    from true e later =
        rw (to_lower_valid c s e, replaced_valid c e, valid_chars)
          (later (rw (e, valid_chars) at h))

first_valid : (c : ℕ) (s : Text) → valid_chars (c ∷ s) ≡ true → valid_char c ≡ true
unfolding valid_chars
first_valid c s h = ground arith

-- A text that starts with another byte than a dash.
abbrev pub StartsPlain : Text → Type 0
StartsPlain [] = ⊥
StartsPlain (c ∷ s) = c ≢ b'-'

StartsPlain-cut_name : (s : Text) → StartsPlain s → StartsPlain (cut_name s)
unfolding cut_name
StartsPlain-cut_name [] h = absurd h
StartsPlain-cut_name (c ∷ s) h = elim (Bool-cases (ltb 63 (length (c ∷ s)))) [
  | inl e ↦ rw e h
  | inr e ↦ rw e h
]

StartsPlain-trim_left : (s : Text) → StartsPlain s → StartsPlain (trim_left s)
unfolding trim_left
StartsPlain-trim_left [] h = absurd h
StartsPlain-trim_left (c ∷ s) h = rw (eqb_false c h) h
  where
    eqb_false : (c : ℕ) → c ≢ b'-' → eqb c b'-' ≡ false
    eqb_false c n = ground arith

StartsPlain-trim_right : (s : Text) → StartsPlain s → StartsPlain (trim_right s)
unfolding trim_right
StartsPlain-trim_right [] h = absurd h
StartsPlain-trim_right (c ∷ s) h = from (trim_right s)
  where
    from : (t : Text) → StartsPlain (before_trimmed c t)
    from [] = rw (eqb_false c h) h
      where
        eqb_false : (c : ℕ) → c ≢ b'-' → eqb c b'-' ≡ false
        eqb_false c n = ground arith
    from (d ∷ t) = h

StartsPlain-replaced :
    (c : ℕ) (t : Text)
    → valid_char c ≡ true
    → c ≢ b'-'
    → c ≢ b'.'
    → StartsPlain (map replaced (to_lower (c ∷ t)))
StartsPlain-replaced c t v n d = rw (to_lower_valid c t v) (replaced_plain c v n d)

padded :
    (out : Text)
    → StartsPlain out
    → valid_chars out ≡ true
    → has_suffix (lit "-") out ≡ false
    → length out ≤ 63
    → valid_bucket (if ltb (length out) 3 then out ++ lit "-entity" else out) ≡ true
unfolding valid_bucket valid_chars has_prefix has_suffix ◌==◌
padded [] h v n l = absurd h
padded (a ∷ []) h v n l = ground arith
padded (a ∷ b ∷ []) h v n l = ground arith
padded (a ∷ b ∷ c ∷ out) h v n l = ground arith

-- The bucket name of a claim is one that the object store accepts. Assumed is what Kubernetes
-- guarantees: namespace, name and UID consist of lower-case letters, digits, dashes and dots, and
-- the namespace starts with a letter or a digit.
pub valid_bucket-claim_bucket_name :
    (bc : BucketClaim) (c : ℕ) (rest : Text)
    → bc.namespace ≡ c ∷ rest
    → c ≢ b'-'
    → c ≢ b'.'
    → valid_chars bc.namespace ≡ true
    → valid_chars bc.name ≡ true
    → valid_chars bc.uid ≡ true
    → valid_bucket (claim_bucket_name bc) ≡ true
unfolding claim_bucket_name raw_name valid_chars
valid_bucket-claim_bucket_name bc c rest starts no_dash no_dot v v' v'' =
    padded (trim_right (trim_left (cut_name (raw_name bc))))
      (StartsPlain-trim_right (trim_left (cut_name (raw_name bc)))
        (StartsPlain-trim_left (cut_name (raw_name bc)) (StartsPlain-cut_name (raw_name bc) plain)))
      (valid_chars-trim_right (trim_left (cut_name (raw_name bc)))
        (valid_chars-trim_left (cut_name (raw_name bc)) (valid_chars-cut_name (raw_name bc) valid)))
      (no_dash_end-trim_right (trim_left (cut_name (raw_name bc))))
      (omega (
        arith,
        length-trim_right (trim_left (cut_name (raw_name bc))),
        length-trim_left (cut_name (raw_name bc)),
        length-cut_name (raw_name bc),
      ))
  where
    dash : valid_chars (lit "-") ≡ true
    dash = refl

    plain : StartsPlain (raw_name bc)
    plain =
        subst
          (λ ns.
            StartsPlain
              (map replaced (to_lower ((((ns ++ lit "-") ++ bc.name) ++ lit "-") ++ bc.uid))))
          (sym starts)
          (StartsPlain-replaced c ((((rest ++ lit "-") ++ bc.name) ++ lit "-") ++ bc.uid)
            (first_valid c rest (rw starts at v)) no_dash no_dot)

    valid : valid_chars (raw_name bc) ≡ true
    valid = valid_chars-replaced ((((bc.namespace ++ lit "-") ++ bc.name) ++ lit "-") ++ bc.uid) (
        valid_chars-append (((bc.namespace ++ lit "-") ++ bc.name) ++ lit "-") bc.uid
          (valid_chars-append ((bc.namespace ++ lit "-") ++ bc.name) (lit "-")
            (valid_chars-append (bc.namespace ++ lit "-") bc.name
              (valid_chars-append bc.namespace (lit "-") v dash) v')
            dash)
          v'')
