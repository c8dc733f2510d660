-- ===== src/Objectd/Ports.antt =====
-- Requests to the servers of cmd/objectd/main.go.
use pobj.Prelude.{◌≡◌, ◌≢◌, refl, ◌++◌, some, arith}
use pobj.Text.{lit}
use pobj.Http.{Request, Json}
use pobj.Store.{Platform, Io}
use pobj.Cluster.{Net}
use pobj.S3.{Node}
use pobj.Admin.Gate.{serve_http-unauthorized}
use pobj.Replication.Gate.{serve_http-no_token}
use pobj.Objectd.{
  Process, Route, handler, own_answer, AdminHandler, cluster_handler, admin_handler,
  serve_admin_port,
}

-- A request to the admin port without the token of the pod changes neither the store nor the
-- network, and is answered by 401 by whichever handler it reaches.
pub serve_admin_port-no_token :
    {W : Type 0} (lib : Platform) (io : Io) (json : Json) (net : Net W) (p : Process)
    (route : Route AdminHandler) (r : Request) (n : Node W)
    → r.header (lit "Authorization") ≢ (lit "Bearer " ++ p.token)
    → ((serve_admin_port lib io json net p route r n).1 ≡ n)
      × ((h : AdminHandler)
          → route ≡ handler h
          → (serve_admin_port lib io json net p route r n).0.status ≡ 401)
unfolding serve_admin_port
serve_admin_port-no_token lib io json net p (own_answer a) r n ne =
    (refl, λ h e. absurd (ground (arith, e)))
serve_admin_port-no_token lib io json net p (handler cluster_handler) r n ne =
    let (status, same) = serve_http-no_token lib io json p.token r n.store ne in
    (rw same refl, λ h e. status)
serve_admin_port-no_token lib io json net p (handler admin_handler) r n ne =
    let (status, same) = serve_http-unauthorized lib io json net (some p.cluster) p.token r n ne in
    (same, λ h e. status)
