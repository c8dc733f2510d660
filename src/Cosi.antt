-- ===== src/Cosi.antt =====
-- internal/cosi/listeners.go: the name of the bucket of a claim.
pub mod Names
pub mod Clash
pub mod Objects
pub mod AdminClient
pub mod Listener
pub mod Ready
pub mod Granted
use pobj.Prelude.{ℕ, Bool, ◌||◌, List, [], ◌∷◌, ◌++◌, if◌then◌else◌, eqb, ltb, length, take, map}
use pobj.Text.{Text, lit}
use pobj.Text.Words.{to_lower}

-- A BucketClaim, as far as its name goes.
pub record BucketClaim : Type 0 where
  pub namespace : Text
  pub name : Text
  pub uid : Text

-- strings.NewReplacer("_", "-", ".", "-", "/", "-", ":", "-"), on one byte.
abbrev pub replaced : ℕ → ℕ
replaced c = if eqb c b'_' || eqb c b'.' || eqb c b'/' || eqb c b':' then b'-' else c

unfoldable pub trim_left : Text → Text
trim_left [] = []
trim_left (c ∷ s) = let rest = trim_left s in if eqb c b'-' then rest else c ∷ s

-- A byte before a text that is trimmed on the right.
abbrev pub before_trimmed : ℕ → Text → Text
before_trimmed c [] = if eqb c b'-' then [] else c ∷ []
before_trimmed c (d ∷ s) = c ∷ d ∷ s

unfoldable pub trim_right : Text → Text
trim_right [] = []
trim_right (c ∷ s) = before_trimmed c (trim_right s)

-- fmt.Sprintf("%s-%s-%s", …), lower case, with the replacements.
unfoldable pub raw_name : BucketClaim → Text
unfolding to_lower
raw_name bc =
    map replaced (to_lower ((((bc.namespace ++ lit "-") ++ bc.name) ++ lit "-") ++ bc.uid))

unfoldable pub cut_name : Text → Text
cut_name out = if ltb 63 (length out) then take 63 out else out

unfoldable pub claim_bucket_name : BucketClaim → Text
unfolding raw_name cut_name trim_left trim_right
claim_bucket_name bc =
    let out = trim_right (trim_left (cut_name (raw_name bc))) in
    if ltb (length out) 3 then out ++ lit "-entity" else out
