-- ===== src/Store/Listing/Pages.antt =====
-- A client that follows the continuation tokens of ListObjectsV2 (internal/objectd/store.go).
use pobj.Exec.{Result, ok, err}
use pobj.Prelude.Int.{negsuc, pos, ℤ}
use mathlib.Core.List.{append_assoc}
use pobj.Prelude.{
  false, sym, subst, some, ◌∙◌, ltb→lt, ◌-◌, ap, refl, inr, inl, ◌∷◌, ◌++◌, Bool-cases,
  if◌then◌else◌, zero, true, suc, arith, ◌≡◌, none, [], ◌≢◌, ◌<◌, List, ◌↔◌, ℕ, Bool, keep, drop,
  take, length, All, ltb, take-append-drop, length-drop,
}
use pobj.Text.{◌==◌, lit, ==_iff, Text, has_prefix}
use pobj.Text.Sorted.{IsAscending, In, IsDistinct, sort-IsAscending, In-sort}
use pobj.Dict.{Dict, get, keys, IsMap}
use pobj.Store.{ObjectMeta, BucketState, Store, Platform, ObjectRecord}
use pobj.Store.Listing.{Page, list_objects_v2, page_size, metas_of, key_at, cut_page, listed_keys}
use pobj.Store.Listing.Cut.{current-key_at, cut_page-current, current}

In-keys : {V : Type 0} (k : Text) (d : Dict V) → In k (keys d) ↔ (get d k ≢ none)
unfolding keys get
In-keys k [] = (λ h. absurd h, λ h. absurd (h refl))
In-keys k ((j, v) ∷ d) = (
  λ h. ground (arith, (In-keys k d).0, ==_iff j k),
  λ h. ground (arith, (In-keys k d).1, ==_iff j k),
)

IsDistinct-keys : {V : Type 0} (d : Dict V) → IsMap d → IsDistinct (keys d)
unfolding keys
IsDistinct-keys [] h = tt
IsDistinct-keys ((j, v) ∷ d) (n, h) = (λ i. (In-keys j d).0 i n, IsDistinct-keys d h)

In-keep :
    (p : Text → Bool) (k : Text) (ks : List Text) → In k (keep p ks) ↔ (In k ks × (p k ≡ true))
In-keep p k [] = (λ h. absurd h, λ h. h.0)
In-keep p k (x ∷ ks) = elim (Bool-cases (p x)) [
  | inl e ↦ rw e (
    λ h. elim h [
      | inl q ↦ (inl q, rw (← q) e)
      | inr i ↦ (inr ((In-keep p k ks).0 i).0, ((In-keep p k ks).0 i).1)
    ],
    λ h. elim h.0 [ inl q ↦ inl q | inr i ↦ inr ((In-keep p k ks).1 (i, h.1)) ],
  )
  | inr e ↦ rw e (
    λ i. (inr ((In-keep p k ks).0 i).0, ((In-keep p k ks).0 i).1),
    λ h. elim h.0 [ inl q ↦ absurd (cc (e, h.1, ap p q)) | inr i ↦ (In-keep p k ks).1 (i, h.1) ],
  )
]

IsDistinct-keep : (p : Text → Bool) (ks : List Text) → IsDistinct ks → IsDistinct (keep p ks)
IsDistinct-keep p [] h = tt
IsDistinct-keep p (x ∷ ks) (n, h) = elim (Bool-cases (p x)) [
  | inl e ↦ rw e (λ i. n ((In-keep p x ks).0 i).0, IsDistinct-keep p ks h)
  | inr e ↦ rw e (IsDistinct-keep p ks h)
]

-- If each key stands once in the map, the keys to list are those of the map that have the prefix,
-- each once, in ascending order.
pub listed_keys-exact :
    (prefix : Text) (objects : Dict ObjectRecord)
    → IsMap objects
    → IsAscending (listed_keys prefix objects)
      × ((k : Text)
          → In k (listed_keys prefix objects)
            ↔ ((get objects k ≢ none) × (has_prefix prefix k ≡ true)))
unfolding listed_keys
listed_keys-exact prefix objects h =
    let ks = keep (has_prefix prefix) (keys objects) in
    (
      sort-IsAscending ks
          (IsDistinct-keep (has_prefix prefix) (keys objects) (IsDistinct-keys objects h)),
      λ k. (
        λ i.
            let (here, fits) =
              (In-keep (has_prefix prefix) k (keys objects)).0 ((In-sort k ks).0 i) in
            ((In-keys k objects).0 here, fits),
        λ p.
            (In-sort k ks).1
              ((In-keep (has_prefix prefix) k (keys objects)).1 ((In-keys k objects).1 p.0, p.1)),
      ),
    )

-- The loop of a client over the keys alone.
unfoldable pub follow : ℕ → ℕ → Text → List Text → List Text
follow zero max token all = []
follow (suc fuel) max token all =
    let (ks, next, more) = cut_page token max all in
    let rest = follow fuel max next all in if more then ks ++ rest else ks

suc_pred : (n : ℕ) → 0 < n → suc (n - 1) ≡ n
suc_pred n h = omega arith

module _ (max : ℕ) (pos_max : 0 < max) (all : List Text) (asc : IsAscending all)
    (full : All (λ k. k ≢ []) all) where
  shorter :
      (fuel : ℕ) (token : Text)
      → length (current token all) < suc fuel
      → ltb max (length (current token all)) ≡ true
      → length (current (key_at (current token all) (max - 1)) all) < fuel
  shorter fuel token h e = rw (current-key_at token (max - 1) all asc full (ground arith)) (
      omega (
        arith,
        length-drop {0} (suc (max - 1)) (current token all),
        ltb→lt max (length (current token all)) e,
      ))

  pub follow-eq_current :
      (fuel : ℕ) (token : Text)
      → length (current token all) < fuel
      → follow fuel max token all ≡ current token all
  unfolding follow
  follow-eq_current zero token h = absurd (omega arith)
  follow-eq_current (suc fuel) token h = elim (Bool-cases (ltb max (length (current token all)))) [
    | inr e ↦ rw (cut_page-current token max all asc) (rw e refl)
    | inl e ↦
        let cur = current token all in
        let last = current-key_at token (max - 1) all asc full (ground arith) in
        rw (cut_page-current token max all asc) (
          rw e (
            ap (λ ks. take max cur ++ ks)
              (follow-eq_current fuel (key_at cur (max - 1)) (shorter fuel token h e)
                ∙ last
                ∙ ap (λ n. drop n cur) (suc_pred max pos_max))
            ∙ take-append-drop max cur))
  ]

-- A client that asks for page after page, from no token on, until a page is not truncated: the
-- objects of all pages.
abbrev collect : Result Page → (Text → List ObjectMeta) → List ObjectMeta
collect (err e) more = []
collect (ok page) more = if page.truncated then page.objects ++ more page.next else page.objects

unfoldable pub all_pages : ℕ → Platform → Text → Text → ℤ → Store → Text → List ObjectMeta
all_pages zero lib bucket prefix max_keys s token = []
all_pages (suc fuel) lib bucket prefix max_keys s token =
    collect (list_objects_v2 lib bucket prefix token max_keys s)
      (all_pages fuel lib bucket prefix max_keys s)

metas_of-append :
    (lib : Platform) (bucket : Text) (objects : Dict ObjectRecord) (xs ys : List Text)
    → metas_of lib bucket objects (xs ++ ys)
      ≡ metas_of lib bucket objects xs ++ metas_of lib bucket objects ys
unfolding metas_of
metas_of-append lib bucket objects [] ys = refl
metas_of-append lib bucket objects (x ∷ xs) ys =
    simp (metas_of-append lib bucket objects xs ys, append_assoc)

page_size-pos : (max_keys : ℤ) → 0 < page_size max_keys
unfolding page_size
page_size-pos (pos n) = ground arith
page_size-pos (negsuc n) = omega arith

In-All : (P : Text → Type 0) (ks : List Text) → ((k : Text) → In k ks → P k) → All P ks
In-All P [] h = tt
In-All P (k ∷ ks) h = (h k (inl refl), In-All P ks (λ x i. h x (inr i)))

module _ (lib : Platform) (bucket prefix : Text) (max_keys : ℤ) (s : Store) (b : BucketState)
    (there : get s.state bucket ≡ some b) where
  abbrev page_of : Text → Page
  page_of token =
      let (ks, next, more) = cut_page token (page_size max_keys) (listed_keys prefix b.objects) in
      record { objects = metas_of lib bucket b.objects ks; next = next; truncated = more }

  found_page :
      (token : Text) → list_objects_v2 lib bucket prefix token max_keys s ≡ ok (page_of token)
  unfolding list_objects_v2
  found_page token = rw (there, list_objects_v2) refl

  all_pages-follow :
      (fuel : ℕ) (token : Text)
      → all_pages fuel lib bucket prefix max_keys s token
        ≡ metas_of lib bucket b.objects
            (follow fuel (page_size max_keys) token (listed_keys prefix b.objects))
  unfolding all_pages follow metas_of
  all_pages-follow zero token = refl
  all_pages-follow (suc fuel) token =
      let all = listed_keys prefix b.objects in
      let (ks, next, more) = cut_page token (page_size max_keys) all in
      ap (λ r. collect r (all_pages fuel lib bucket prefix max_keys s)) (found_page token)
      ∙ rest_of ks next more (all_pages-follow fuel next)
    where
      rest_of :
          (ks : List Text) (next : Text) (more : Bool)
          → all_pages fuel lib bucket prefix max_keys s next
            ≡ metas_of lib bucket b.objects
                (follow fuel (page_size max_keys) next (listed_keys prefix b.objects))
          → (if more
              then metas_of lib bucket b.objects ks
                ++ all_pages fuel lib bucket prefix max_keys s next
              else metas_of lib bucket b.objects ks)
            ≡ metas_of lib bucket b.objects (
                if more
                then ks ++ follow fuel (page_size max_keys) next (listed_keys prefix b.objects)
                else ks)
      rest_of ks next false ih = refl
      rest_of ks next true ih =
          ap (λ rest. metas_of lib bucket b.objects ks ++ rest) ih
          ∙ sym (
              metas_of-append lib bucket b.objects ks
                (follow fuel (page_size max_keys) next (listed_keys prefix b.objects)))

  -- Following the continuation tokens lists the whole of a bucket that is there: for every maxKeys,
  -- if no key is empty and each key stands once in the map, the pages together are the metadata of
  -- all keys with the prefix, each key once and in ascending order, and one request more than there
  -- are such keys is enough.
  pub all_pages_complete :
      (fuel : ℕ)
      → IsMap b.objects
      → get b.objects [] ≡ none
      → length (listed_keys prefix b.objects) < fuel
      → all_pages fuel lib bucket prefix max_keys s (lit "")
        ≡ metas_of lib bucket b.objects (listed_keys prefix b.objects)
  unfolding ◌==◌
  all_pages_complete fuel m e h =
      let (asc, exact) = listed_keys-exact prefix b.objects m in
      all_pages-follow fuel (lit "")
      ∙ ap (metas_of lib bucket b.objects) (
          follow-eq_current (page_size max_keys) (page_size-pos max_keys)
            (listed_keys prefix b.objects) asc
            (In-All (λ k. k ≢ []) (listed_keys prefix b.objects)
              (λ k i p. ((exact k).0 i).0 (subst (λ x. get b.objects x ≡ none) (sym p) e)))
            fuel (lit "") h)
