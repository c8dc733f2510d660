-- ===== src/Objectd/Hosts.antt =====
-- The hosts at which the pods reach each other (adminURL of internal/cluster/cluster.go), and the names
-- in the certificate that controllers/objectservice_controller.go makes for them.
use mathlib.Core.List.{append-nil, append_assoc}
use pobj.Prelude.{
  ◌≡◌, refl, sym, ap, ◌∙◌, ℕ, Bool, true, false, ◌&&◌, ◌||◌, List, [], ◌∷◌, ◌++◌, arith, eqb,
}
use pobj.Prelude.Int.{pos}
use pobj.Text.{Text, lit, ◌==◌, ==-refl}
use pobj.Text.Parts.{split, split_onto, decimal, decimal_ℤ}
use pobj.Text.Numbers.{all_digits, decimal-all_digits}
use pobj.Cluster.{Cluster, admin_host}
use pobj.Operator.Spec.{ObjectService, headless_name}
use pobj.Operator.Tls.{dns_names}

-- crypto/x509 on lower-case names: label by label, where `*` as the first label stands for any.
same_labels : List Text → List Text → Bool
unfolding ◌==◌
same_labels [] [] = true
same_labels [] (y ∷ ys) = false
same_labels (x ∷ xs) [] = false
same_labels (x ∷ xs) (y ∷ ys) = x == y && same_labels xs ys

match_first : List Text → List Text → Bool
unfolding same_labels ◌==◌
match_first [] hs = false
match_first (p ∷ ps) [] = false
match_first (p ∷ ps) (h ∷ hs) = (p == lit "*" || p == h) && same_labels ps hs

unfoldable pub matches_host : Text → Text → Bool
unfolding split match_first
matches_host pattern host = match_first (split b'.' pattern) (split b'.' host)

-- One of the names covers the host.
unfoldable pub covers : List Text → Text → Bool
unfolding matches_host
covers [] host = false
covers (p ∷ ps) host = matches_host p host || covers ps host

unfoldable pub has_dot : Text → Bool
has_dot [] = false
has_dot (c ∷ s) = eqb c b'.' || has_dot s

same_labels_refl : (xs : List Text) → same_labels xs xs ≡ true
unfolding same_labels
same_labels_refl [] = refl
same_labels_refl (x ∷ xs) = ground (arith, ==-refl x, same_labels_refl xs)

split_onto-dot :
    (part a rest : Text)
    → has_dot a ≡ false
    → split_onto b'.' part (a ++ b'.' ∷ rest) ≡ (part ++ a) ∷ split b'.' rest
unfolding split_onto split has_dot
split_onto-dot part [] rest h = ap (λ t. t ∷ split_onto b'.' [] rest) (sym (append-nil part))
split_onto-dot part (c ∷ a) rest h =
    ground (arith, h, split_onto-dot (part ++ c ∷ []) a rest, append_assoc part (c ∷ []) a)

-- The first label is any, the others are the same.
matches_host-wildcard :
    (label rest : Text)
    → has_dot label ≡ false
    → matches_host (lit "*." ++ rest) (label ++ b'.' ∷ rest) ≡ true
unfolding matches_host match_first split split_onto ◌==◌
matches_host-wildcard label rest h =
    ap (match_first (split b'.' (lit "*." ++ rest))) (split_onto-dot [] label rest h)
    ∙ same_labels_refl (split b'.' rest)

has_dot-append : (s t : Text) → has_dot (s ++ t) ≡ (has_dot s || has_dot t)
unfolding has_dot
has_dot-append [] t = refl
has_dot-append (c ∷ s) t = ground (arith, has_dot-append s t)

has_dot-all_digits : (s : Text) → all_digits s ≡ true → has_dot s ≡ false
unfolding has_dot all_digits
has_dot-all_digits [] h = refl
has_dot-all_digits (c ∷ s) h = ground (arith, has_dot-all_digits s)

-- What is behind the first label of a pod's host.
abbrev behind : ObjectService → Text
behind obj = ((headless_name obj ++ lit ".") ++ obj.namespace) ++ lit ".svc.cluster.local"

-- Four texts in front of a fifth, the first of them taken out.
append_assoc_four :
    (front h dot n tail : Text)
    → (((front ++ h) ++ dot) ++ n) ++ tail ≡ front ++ (((h ++ dot) ++ n) ++ tail)
append_assoc_four front h dot n tail =
    ap (λ t. (t ++ n) ++ tail) (append_assoc front h dot)
    ∙ ap (λ t. t ++ tail) (append_assoc front (h ++ dot) n)
    ∙ append_assoc front ((h ++ dot) ++ n) tail

host-parts :
    (obj : ObjectService) (c : Cluster) (i : ℕ)
    → c.cfg.name ≡ obj.name
    → c.cfg.headless_name ≡ headless_name obj
    → c.cfg.namespace ≡ obj.namespace
    → admin_host c (pos i) ≡ ((obj.name ++ lit "-") ++ decimal i) ++ b'.' ∷ behind obj
unfolding admin_host decimal_ℤ
host-parts obj c i n hd ns =
    let label = (obj.name ++ lit "-") ++ decimal i in
    rw (n, hd, ns, admin_host)
      (append_assoc_four (label ++ lit ".") (headless_name obj) (lit ".") obj.namespace
          (lit ".svc.cluster.local")
        ∙ append_assoc label (lit ".") (behind obj))

label_no_dot :
    (name : Text) (i : ℕ) → has_dot name ≡ false → has_dot ((name ++ lit "-") ++ decimal i) ≡ false
unfolding has_dot
label_no_dot name i h = ground (
  arith,
  h,
  has_dot-append (name ++ lit "-") (decimal i),
  has_dot-append name (lit "-"),
  has_dot-all_digits (decimal i) (decimal-all_digits i),
)

-- The certificate that the operator makes covers the host at which the pods of the service reach
-- any ordinal: one of its names matches it label by label, a first label * standing for any.
-- Assumed is that the pods have the service's name, headless service and namespace in their
-- configuration, and that the name has no dot.
pub covers-admin_host :
    (obj : ObjectService) (c : Cluster) (i : ℕ)
    → c.cfg.name ≡ obj.name
    → c.cfg.headless_name ≡ headless_name obj
    → c.cfg.namespace ≡ obj.namespace
    → has_dot obj.name ≡ false
    → covers (dns_names obj) (admin_host c (pos i)) ≡ true
unfolding covers dns_names
covers-admin_host obj c i n hd ns plain =
    let label = (obj.name ++ lit "-") ++ decimal i in
    let matched : matches_host (lit "*." ++ behind obj) (admin_host c (pos i)) ≡ true =
      ap (matches_host (lit "*." ++ behind obj)) (host-parts obj c i n hd ns)
      ∙ matches_host-wildcard label (behind obj) (label_no_dot obj.name i plain) in
    ground (arith, matched)
