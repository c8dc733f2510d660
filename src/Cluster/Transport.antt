-- ===== src/Cluster/Transport.antt =====
-- internal/cluster/cluster.go: the requests that the cluster sends, on an HTTP client, as the `Net`
-- that leader, replication and proxy stand on. A peer reads no Content-Type, so the headers that
-- the callers of Replicate add are left out.
use pobj.Prelude.{
  ℕ, Bool, false, Option, none, some, [], ◌∷◌, ◌++◌, if◌then◌else◌, eqb, length, drop,
}
use pobj.Prelude.Int.{pos}
use pobj.Text.{Text, lit, ◌==◌, has_prefix}
use pobj.Text.Parts.{decimal_ℤ}
use pobj.Exec.{Result, ok, err}
use pobj.Http.{Method, Request, Response}
use pobj.Cluster.{Cluster, Net, admin_url}

-- An http.Request on its way out; `header` is Header.Get of a canonical key.
pub record Outgoing : Type 0 where
  pub method : Method
  pub url : Text
  pub host : Text
  pub header : Text → Text
  pub body : Result Text

-- http.NewRequestWithContext, which refuses a URL that does not parse, and Client.Do.
pub record Client (W : Type 0) : Type 0 where
  pub parses : Text → Bool
  pub host_of : Text → Text
  pub exchange : Outgoing → W → Result Response × W

-- Header.Set of a canonical key.
abbrev pub set_header : Text → Text → (Text → Text) → Text → Text
unfolding ◌==◌
set_header k v header name = if name == k then v else header name

-- strings.Replace with n = 1, of a text that is not empty.
unfoldable pub replace_first : Text → Text → Text → Text
unfolding has_prefix
replace_first old new [] = []
replace_first old new (c ∷ s) =
    let rest = replace_first old new s in
    if has_prefix old (c ∷ s) then new ++ drop (length old) (c ∷ s) else c ∷ rest

-- URL.RequestURI of the URL of a request that a server received.
unfoldable pub request_uri : Request → Text
unfolding ◌==◌
request_uri r =
    (if r.escaped_path == lit "" then lit "/" else r.escaped_path)
    ++ (if r.raw_query == lit "" then [] else lit "?" ++ r.raw_query)

-- The two servers of a node, as the `service` of ProxyToLeader.
pub data Service : Type 0 where
  s3 admin : Service

module _ (c : Cluster) where
  -- The base of the URL of a proxied request, from the admin URL of the leader.
  unfoldable pub base : Service → ℕ → Text
  unfolding admin_url replace_first
  base admin leader = admin_url c (pos leader)
  base s3 leader =
      replace_first (lit ":" ++ decimal_ℤ c.cfg.admin_port) (lit ":" ++ decimal_ℤ c.cfg.s3_port)
        (admin_url c (pos leader))

  abbrev pub authorization : (Text → Text) → Text → Text
  authorization header = set_header (lit "Authorization") (lit "Bearer " ++ c.cfg.token) header

  module _ {W : Type 0} (client : Client W) where
    abbrev pub health_request : ℕ → Outgoing
    health_request i =
        let url = admin_url c (pos i) ++ lit "/_cluster/health" in
        record {
          method = Method.get;
          url = url;
          host = client.host_of url;
          header = authorization (λ name. []);
          body = ok [];
        }

    abbrev pub answered_200 : Result Response → Bool
    answered_200 (err e) = false
    answered_200 (ok resp) = eqb resp.status 200

    unfoldable pub health : ℕ → W → Bool
    unfolding admin_url
    health i w =
        let request = health_request i in
        if client.parses request.url then answered_200 (client.exchange request w).0 else false

    unfoldable pub peer_request : ℕ → Method → Text → Text → Outgoing
    unfolding admin_url
    peer_request i method path body =
        let url = admin_url c (pos i) ++ path in
        record {
          method = method;
          url = url;
          host = client.host_of url;
          header =
              set_header (lit "X-ENTITY-Internal-Replication") (lit "true")
                (authorization (λ name. []));
          body = ok body;
        }

    abbrev pub status_of : Result Response → Option ℕ
    status_of (err e) = none
    status_of (ok resp) = some resp.status

    unfoldable pub send_to : ℕ → Method → Text → Text → W → Option ℕ × W
    unfolding peer_request
    send_to i method path body w =
        let request = peer_request i method path body in
        let (answer, w') = client.exchange request w in
        if client.parses request.url then (status_of answer, w') else (none, w)

    unfoldable pub proxied : Service → ℕ → Request → Outgoing
    unfolding base request_uri
    proxied service leader r = record {
      method = r.method;
      url = base service leader ++ request_uri r;
      host = r.host;
      header = r.header;
      body = r.body;
    }

    -- `refused` is the error of http.NewRequestWithContext. The answer is copied as it is.
    unfoldable pub proxy : Service → Result Response → ℕ → Request → W → Result Response × W
    unfolding proxied
    proxy service refused leader r w =
        let request = proxied service leader r in
        if client.parses request.url then client.exchange request w else (refused, w)

    -- The network as a server sees it that proxies to `service`.
    unfoldable pub net : Service → Result Response → Net W
    unfolding health send_to proxy
    net service refused = record { healthy = health; send = send_to; proxy = proxy service refused }
