-- ===== src/Tests/Access.antt =====
-- Access keys at concrete stores (internal/objectd/store.go).
use pobj.Text.{◌==◌}
use pobj.Exec.{not_found, ok, err}
use pobj.Text.{lit}
use pobj.Store.Credentials.{lookup-delete_access, lookup-create_access, holders}
use pobj.Store.Access.{lookup_access_key}
use pobj.Store.{Store, AccessKey}
use pobj.Store.Access.{delete_access, create_access}
use pobj.Prelude.{[], ◌∷◌, Bool, arith, ◌≡◌, refl, true}
use pobj.Tests.Fixtures.{fresh_bucket, one_bucket, no_files, tiny, calm}

abbrev grant : AccessKey
grant = record {
  access_key = lit "PXAB";
  secret_key = lit "12";
  bucket = lit "photos";
  read_only = true;
}

abbrev other_grant : AccessKey
other_grant = record grant { access_key = lit "PXCD" }

granted : (create_access tiny calm (lit "photos") true one_bucket).0 ≡ ok grant
unfolding create_access ◌==◌
granted = refl

lookup-create_access_example :
    (lookup_access_key (lit "PXAB") (create_access tiny calm (lit "photos") true one_bucket).1
      ≡ ok grant)
    × (lit "photos" ≡ lit "photos")
    × (◌≡◌ {A = Bool} true true)
unfolding lookup_access_key
lookup-create_access_example =
    lookup-create_access tiny calm one_bucket (lit "photos") true granted refl

-- A store with the key PXAB.
abbrev with_grant : Store
with_grant = record no_files {
  state =
      (
        lit "photos",
        record fresh_bucket {
          access = (lit "PXAB", record { secret_key = lit "12"; read_only = true }) ∷ [];
        },
      )
      ∷ [];
}

lookup-delete_access_example :
    lookup_access_key (lit "PXAB") (delete_access tiny calm (lit "PXAB") with_grant).1
    ≡ err not_found
unfolding holders
lookup-delete_access_example = lookup-delete_access tiny calm with_grant (lit "PXAB") (ground arith)
