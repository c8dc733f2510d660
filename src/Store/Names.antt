-- ===== src/Store/Names.antt =====
-- internal/objectd/store.go: bucket names. The source ranges over runes; a byte above 127 begins or
-- stands in a rune that fails the test, or is no rune and fails it, so a range over bytes decides
-- the same.
use pobj.Prelude.{
  refl, ◌∙◌, arith, ◌≡◌, ◌≢◌, ℕ, Bool, true, false, ◌&&◌, ◌||◌, [], ◌∷◌, ltb, leb, eqb,
  if◌then◌else◌, length,
}
use mathlib.Core.Path.{sym, subst₂}
use mathlib.Core.List.{append_assoc}
use pobj.Prelude.{Bool-cases, ◌++◌, inl, inr}
use pobj.Text.{has_prefix-same, Text, lit, has_prefix, has_suffix}

-- One round of the loop over the name.
unfoldable pub valid_char : ℕ → Bool
valid_char ch =
    (leb b'a' ch && leb ch b'z') || (leb b'0' ch && leb ch b'9') || eqb ch b'-' || eqb ch b'.'

unfoldable pub valid_chars : Text → Bool
unfolding valid_char
valid_chars [] = true
valid_chars (ch ∷ name) = if valid_char ch then valid_chars name else false

-- A name that CreateBucket accepts.
unfoldable pub valid_bucket : Text → Bool
unfolding valid_chars has_prefix has_suffix
valid_bucket name =
    if ltb (length name) 3 || ltb 63 (length name)
    then false
    else if has_prefix (lit "-") name || has_suffix (lit "-") name
    then false
    else valid_chars name

-- filepath.Join(s.dataDir, "objects", name). Join leaves a clean data directory and an accepted name
-- as they are.
unfoldable pub bucket_dir : Text → Text → Text
bucket_dir data_dir name = (data_dir ++ lit "/objects/") ++ name

-- filepath.Join(s.dataDir, "objects", bucket, id)
unfoldable pub object_path : Text → Text → Text → Text
unfolding bucket_dir
object_path data_dir bucket id = bucket_dir data_dir bucket ++ b'/' ∷ id

abbrev pub NoSlash : Text → Type 0
NoSlash [] = Unit
NoSlash (c ∷ s) = (c ≢ b'/') × NoSlash s

valid_chars-NoSlash : (name : Text) → valid_chars name ≡ true → NoSlash name
unfolding valid_chars
valid_chars-NoSlash [] h = tt
valid_chars-NoSlash (c ∷ s) h = ground (arith, valid_chars-NoSlash s)

pub valid_bucket-NoSlash : (name : Text) → valid_bucket name ≡ true → NoSlash name
unfolding valid_bucket
valid_bucket-NoSlash name h = ground (arith, valid_chars-NoSlash name)

-- Two names without a slash, each followed by one: the first is a prefix only of itself.
slash_prefix :
    (a b rest : Text)
    → NoSlash a
    → NoSlash b
    → has_prefix (a ++ lit "/") (b ++ b'/' ∷ rest) ≡ true
    → a ≡ b
unfolding has_prefix
slash_prefix [] [] rest h k e = refl
slash_prefix [] (y ∷ b) rest h k e = ground arith
slash_prefix (x ∷ a) [] rest h k e = ground arith
slash_prefix (x ∷ a) (y ∷ b) rest h k e = ground (arith, slash_prefix a b rest)

-- The directory of one accepted bucket name holds no object file of another accepted name.
pub not_below :
    (data_dir a b id : Text)
    → valid_bucket a ≡ true
    → valid_bucket b ≡ true
    → a ≢ b
    → has_prefix (bucket_dir data_dir a ++ lit "/") (object_path data_dir b id) ≡ false
unfolding bucket_dir object_path
not_below data_dir a b id v w ne = elim (Bool-cases below) [
  | inr no_prefix ↦ no_prefix
  | inl is_prefix ↦ absurd (
      ne (
        slash_prefix a b id (valid_bucket-NoSlash a v) (valid_bucket-NoSlash b w)
          (regrouped is_prefix)))
]
  where
    below : Bool
    below = has_prefix (bucket_dir data_dir a ++ lit "/") (object_path data_dir b id)

    regrouped : below ≡ true → has_prefix (a ++ lit "/") (b ++ b'/' ∷ id) ≡ true
    regrouped e =
        let root = data_dir ++ lit "/objects/" in
        sym (has_prefix-same root (a ++ lit "/") (b ++ b'/' ∷ id))
        ∙ subst₂ (λ x y. has_prefix x y ≡ true) (append_assoc root a (lit "/"))
            (append_assoc root b (b'/' ∷ id)) e
