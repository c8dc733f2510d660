-- ===== src/Replication/Gate.antt =====
use pobj.Replication.{serve_http}
use pobj.Text.{◌==◌, ==_iff, lit}
use pobj.Prelude.{
  false, Bool, [], ◌∷◌, refl, none, Option, List, ◌<◌, arith, ◌≢◌, some, ◌++◌, true, ◌≡◌,
}
use pobj.Http.{Certificate, ConnectionState, Json, Request}
use pobj.Store.{Store, Io, Platform}
use pobj.Replication.{Text, has_peer_client_cert}

-- Who may replicate to this server (internal/cluster/replication_handler.go).

-- A request passes the four checks: the shared token, the mark of a replication, and a client
-- certificate that the TLS layer has verified.
abbrev IsPeer : Text → Request → Type 0
IsPeer token r =
    (r.header (lit "Authorization") ≡ lit "Bearer " ++ token)
    × (r.header (lit "X-ENTITY-Internal-Replication") ≡ lit "true")
    × (has_peer_client_cert r ≡ true)

-- A certificate counts only if there is a TLS connection that has verified a chain for it.
pub has_peer_client_cert-verified :
    (r : Request)
    → has_peer_client_cert r ≡ true
    → (state : ConnectionState) × (r.tls ≡ some state) × (0 < state.verified_chains)
unfolding has_peer_client_cert
has_peer_client_cert-verified r h = from r.tls refl
  where
    certs :
        (state : ConnectionState) (l : List Certificate)
        → r.tls ≡ some state
        → state.peer_certificates ≡ l
        → 0 < state.verified_chains
    certs state [] e p = ground arith
    certs state (leaf ∷ l) e p = ground arith

    from :
        (o : Option ConnectionState)
        → r.tls ≡ o
        → (state : ConnectionState) × (r.tls ≡ some state) × (0 < state.verified_chains)
    from none e = ground arith
    from (some state) e = (state, e, certs state state.peer_certificates e refl)

module _ (lib : Platform) (io : Io) (json : Json) (token : Text) (r : Request) (s : Store) where
  -- A request that changes the store has passed every check: it carries the shared token and the
  -- mark of a replication, and came over TLS with a client certificate that was verified.
  pub serve_http-IsPeer : (serve_http lib io json token r s).1 ≢ s → IsPeer token r
  unfolding serve_http
  serve_http-IsPeer ne =
      from (r.header (lit "Authorization") == (lit "Bearer " ++ token))
        (r.header (lit "X-ENTITY-Internal-Replication") == lit "true") (has_peer_client_cert r) refl
        refl refl
    where
      from :
          (a b d : Bool)
          → (r.header (lit "Authorization") == (lit "Bearer " ++ token)) ≡ a
          → (r.header (lit "X-ENTITY-Internal-Replication") == lit "true") ≡ b
          → has_peer_client_cert r ≡ d
          → IsPeer token r
      from true true true ea eb ed = (
        (==_iff (r.header (lit "Authorization")) (lit "Bearer " ++ token)).0 ea,
        (==_iff (r.header (lit "X-ENTITY-Internal-Replication")) (lit "true")).0 eb,
        ed,
      )
      from false b d ea eb ed = absurd (ne (rw (serve_http, ea) refl))
      from true false d ea eb ed = absurd (ne (ground arith))
      from true true false ea eb ed = absurd (ne (ground arith))

  -- A request without the shared token is answered by 401 and changes nothing, on every path.
  pub serve_http-no_token :
      r.header (lit "Authorization") ≢ (lit "Bearer " ++ token)
      → ((serve_http lib io json token r s).0.status ≡ 401)
        × ((serve_http lib io json token r s).1 ≡ s)
  unfolding serve_http
  serve_http-no_token ne =
      ground (arith, ==_iff (r.header (lit "Authorization")) (lit "Bearer " ++ token))
