-- ===== src/Store/Listing.antt =====
-- internal/objectd/store.go: ListObjectsV2.
pub mod Cut
pub mod Pages
use pobj.Prelude.{
  Bool, true, false, ℕ, suc, ◌-◌, none, some, List, [], ◌∷◌, ◌++◌, if◌then◌else◌, not, length, keep,
  take, drop, get_elem?, ltb, leb, ◌||◌,
}
use pobj.Prelude.Int.{ℤ, pos, negsuc}
use pobj.Text.{Text, lit, ◌==◌, has_prefix, le_text}
use pobj.Dict.{Dict, get, keys}
use pobj.Sort.{sort}
use pobj.Exec.{Result, ok, err, not_found}
use pobj.Store.{Store, Platform, ObjectRecord, ObjectMeta}
use pobj.Store.Objects.{meta_of}

pub record Page : Type 0 where
  pub objects : List ObjectMeta
  pub next : Text
  pub truncated : Bool

-- if maxKeys <= 0 || maxKeys > 1000 { maxKeys = 1000 }
unfoldable pub page_size : ℤ → ℕ
page_size (pos n) = if leb n 0 || ltb 1000 n then 1000 else n
page_size (negsuc n) = 1000

-- for i, k := range keys { if k <= token { start = i + 1 } }
unfoldable pub start_from : Text → ℕ → ℕ → List Text → ℕ
start_from token i start [] = start
start_from token i start (k ∷ ks) =
    start_from token (suc i) (if le_text k token then suc i else start) ks

unfoldable pub start_of : Text → List Text → ℕ
unfolding start_from le_text ◌==◌
start_of token ks = if not (token == lit "") then start_from token 0 0 ks else 0

unfoldable pub key_at : List Text → ℕ → Text
key_at ks i = elim (get_elem? ks i) [ none ↦ [] | some k ↦ k ]

-- The cut of the sorted keys: those of the page, the next token, and whether keys are left.
unfoldable pub cut_page : Text → ℕ → List Text → List Text × Text × Bool
unfolding start_of key_at
cut_page token max_keys all =
    let ks = drop (start_of token all) all in
    if ltb max_keys (length ks)
    then (take max_keys ks, key_at ks (max_keys - 1), true)
    else (ks, lit "", false)

-- for k := range b.Objects { if strings.HasPrefix(k, prefix) { … } }; sort.Strings(keys)
unfoldable pub listed_keys : Text → Dict ObjectRecord → List Text
unfolding sort has_prefix keys le_text
listed_keys prefix objects = sort le_text (keep (has_prefix prefix) (keys objects))

-- rec := b.Objects[k]; every listed key has a record.
unfoldable pub meta_at : Platform → Text → Dict ObjectRecord → Text → List ObjectMeta
unfolding meta_of get
meta_at lib bucket objects k = elim (get objects k) [
  | none ↦ []
  | some rec ↦ meta_of lib bucket k rec ∷ []
]

unfoldable pub metas_of : Platform → Text → Dict ObjectRecord → List Text → List ObjectMeta
unfolding meta_at
metas_of lib bucket objects [] = []
metas_of lib bucket objects (k ∷ ks) =
    meta_at lib bucket objects k ++ metas_of lib bucket objects ks

unfoldable pub list_objects_v2 : Platform → Text → Text → Text → ℤ → Store → Result Page
unfolding listed_keys cut_page page_size metas_of get
list_objects_v2 lib bucket prefix token max_keys s = elim (get s.state bucket) [
  | none ↦ err not_found
  | some b ↦
      let (ks, next, truncated) =
        cut_page token (page_size max_keys) (listed_keys prefix b.objects) in
      ok (record { objects = metas_of lib bucket b.objects ks; next = next; truncated = truncated })
]
