-- ===== src/Text/Url.antt =====
-- net/url: the path of a URL with a scheme and a host, as Parse finds it.
use pobj.Prelude.{
  ◌≡◌, refl, ap, ◌∙◌, ℕ, Bool, true, false, not, ◌&&◌, ◌||◌, Option, none, some, [], ◌∷◌, ◌++◌,
  arith, drop, eqb, leb, if◌then◌else◌,
}
use pobj.Text.{Text, lit}
use pobj.Text.Words.{contains_byte}
use pobj.Text.Escape.{path_unescape, path_unescape-plain}

unfoldable pub all : (ℕ → Bool) → Text → Bool
all p [] = true
all p (c ∷ s) = p c && all p s

pub all-append : (p : ℕ → Bool) (a b : Text) → all p (a ++ b) ≡ (all p a && all p b)
unfolding all
all-append p [] b = refl
all-append p (c ∷ a) b = ground (arith, all-append p a b)

pub all-both : (p : ℕ → Bool) (a b : Text) → all p a ≡ true → all p b ≡ true → all p (a ++ b) ≡ true
all-both p a b h k = ground (arith, all-append p a b, h, k)

-- A byte that Parse accepts: no control character.
abbrev pub is_printed : ℕ → Bool
is_printed c = leb 32 c && not (eqb c 127)

-- What is before the first such byte, and what is from it on.
unfoldable pub before_byte : ℕ → Text → Text
before_byte b [] = []
before_byte b (c ∷ s) = let rest = before_byte b s in if eqb c b then [] else c ∷ rest

unfoldable pub from_byte : ℕ → Text → Text
from_byte b [] = []
from_byte b (c ∷ s) = let rest = from_byte b s in if eqb c b then c ∷ s else rest

-- URL.Path, without the fragment, the query, the scheme and the host; the host is a DNS name, maybe
-- with a port.
unfoldable pub url_path : Text → Option Text
unfolding all before_byte from_byte path_unescape
url_path url =
    if all is_printed url
    then path_unescape
        (from_byte b'/' (drop 3 (from_byte b':' (before_byte b'?' (before_byte b'#' url)))))
    else none

-- A byte that stands for itself in a path.
abbrev pub is_path_byte : ℕ → Bool
is_path_byte c = is_printed c && not (eqb c b'?' || eqb c b'#' || eqb c b'%')

-- A byte of a DNS name.
abbrev pub is_host_byte : ℕ → Bool
is_host_byte c =
    (leb b'a' c && leb c b'z') || (leb b'0' c && leb c b'9') || eqb c b'-' || eqb c b'.'

abbrev pub is_authority_byte : ℕ → Bool
is_authority_byte c = is_host_byte c || eqb c b':'

eqb-apart : (p : ℕ → Bool) (b c : ℕ) → p b ≡ false → p c ≡ true → eqb c b ≡ false
eqb-apart p b c n h = from (eqb c b) refl
  where
    same : eqb c b ≡ true → c ≡ b
    same e = ground (arith, e)

    from : (o : Bool) → eqb c b ≡ o → eqb c b ≡ false
    from true e = absurd (ground (arith, h, n, ap p (same e)))
    from false e = e

all-lacks :
    (p : ℕ → Bool) (b : ℕ) (s : Text) → p b ≡ false → all p s ≡ true → contains_byte b s ≡ false
unfolding all contains_byte
all-lacks p b [] n h = refl
all-lacks p b (c ∷ s) n h = ground (arith, h, eqb-apart p b c n, all-lacks p b s n)

pub all-weaken :
    (p q : ℕ → Bool) (s : Text)
    → ((c : ℕ) → p c ≡ true → q c ≡ true)
    → all p s ≡ true
    → all q s ≡ true
unfolding all
all-weaken p q [] w h = refl
all-weaken p q (c ∷ s) w h = ground (arith, h, w c, all-weaken p q s w)

before_byte-lacks : (b : ℕ) (s : Text) → contains_byte b s ≡ false → before_byte b s ≡ s
unfolding before_byte contains_byte
before_byte-lacks b [] h = refl
before_byte-lacks b (c ∷ s) h = ground (arith, h, before_byte-lacks b s)

from_byte-append :
    (b : ℕ) (a s : Text) → contains_byte b a ≡ false → from_byte b (a ++ (b ∷ s)) ≡ b ∷ s
unfolding from_byte contains_byte
from_byte-append b [] s h = ground arith
from_byte-append b (c ∷ a) s h = ground (arith, h, from_byte-append b a s)

url_path-cut :
    (url : Text)
    → all is_path_byte url ≡ true
    → url_path url ≡ path_unescape (from_byte b'/' (drop 3 (from_byte b':' url)))
unfolding url_path
url_path-cut url h =
    let printed = all-weaken is_path_byte is_printed url (λ c e. ground (arith, e)) h in
    rw
      (
        printed,
        before_byte-lacks b'#' url (all-lacks is_path_byte b'#' url refl h),
        before_byte-lacks b'?' url (all-lacks is_path_byte b'?' url refl h),
      )
      refl

host-path : (c : ℕ) → is_host_byte c ≡ true → is_path_byte c ≡ true
host-path c h = ground (arith, h)

authority-path : (c : ℕ) → is_authority_byte c ≡ true → is_path_byte c ≡ true
authority-path c h = ground (arith, h)

pub host-is_path : (s : Text) → all is_host_byte s ≡ true → all is_path_byte s ≡ true
host-is_path s h = all-weaken is_host_byte is_path_byte s host-path h

after_scheme :
    (host path : Text)
    → all is_authority_byte host ≡ true
    → all is_path_byte (b'/' ∷ path) ≡ true
    → path_unescape (from_byte b'/' (host ++ (b'/' ∷ path))) ≡ some (b'/' ∷ path)
after_scheme host path hh h =
    ap path_unescape
      (from_byte-append b'/' host path (all-lacks is_authority_byte b'/' host refl hh))
    ∙ path_unescape-plain (b'/' ∷ path) (all-lacks is_path_byte b'%' (b'/' ∷ path) refl h)

pub url_path-http :
    (tls : Bool) (host path : Text)
    → all is_authority_byte host ≡ true
    → all is_path_byte (b'/' ∷ path) ≡ true
    → url_path ((((if tls then lit "https" else lit "http") ++ lit "://") ++ host) ++ (b'/' ∷ path))
      ≡ some (b'/' ∷ path)
unfolding from_byte all
url_path-http tls host path hh hp = from tls
  where
    rest : all is_path_byte (host ++ (b'/' ∷ path)) ≡ true
    rest =
        all-both is_path_byte host (b'/' ∷ path)
          (all-weaken is_authority_byte is_path_byte host authority-path hh) hp

    from :
        (tls : Bool)
        → url_path
            ((((if tls then lit "https" else lit "http") ++ lit "://") ++ host) ++ (b'/' ∷ path))
          ≡ some (b'/' ∷ path)
    from true =
        url_path-cut (lit "https://" ++ (host ++ (b'/' ∷ path)))
          (all-both is_path_byte (lit "https://") (host ++ (b'/' ∷ path)) refl rest)
        ∙ after_scheme host path hh hp
    from false =
        url_path-cut (lit "http://" ++ (host ++ (b'/' ∷ path)))
          (all-both is_path_byte (lit "http://") (host ++ (b'/' ∷ path)) refl rest)
        ∙ after_scheme host path hh hp
