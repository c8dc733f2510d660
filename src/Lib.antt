-- ===== src/Lib.antt =====
-- pobj, an S3 object store that runs as a cluster of pods: a model of its Go code and theorems about
-- it.
--
-- The parts of the program, and the files that model them:
--   * internal/objectd/store.go, the object store: Store.antt (the state, metadata.json and the files
--     on disk, persistLocked, load, OpenStore), with Store/Names (validBucket and the paths of
--     files), Store/Buckets (CreateBucket, DeleteBucket, ListBuckets), Store/Objects (PutObject,
--     GetObjectMeta, OpenObject, DeleteObject), Store/Listing (ListObjectsV2), Store/Access
--     (CreateAccess, PutAccess, DeleteAccess, LookupAccessKey) and Store/Ops (the methods that change
--     the store, as one type). The other modules of Store hold theorems.
--   * internal/cluster/cluster.go, the leader and synchronous replication: Cluster.antt (Leader,
--     IsLeader, Replicate, ProxyToLeader, New, parseOrdinal, adminURL), and Cluster/Transport for the
--     requests that these send (health, and those of Replicate and ProxyToLeader).
--   * internal/cluster/replication_handler.go, what a peer does with a replicated change:
--     Replication.antt.
--   * internal/s3/sigv4.go, the check of request signatures: Signature.antt, on Text/Words and
--     Text/Escape (package strings and net/url); Text/Url has the path of a URL, as a peer reads it.
--   * internal/s3/handler.go, the S3 API: S3.antt.
--   * internal/admin/handler.go, the admin API: Admin.antt.
--   * internal/cosi, the COSI driver: Cosi.antt (claimBucketName), Cosi/Objects (the COSI objects and
--     the calls on them), Cosi/AdminClient (the calls of the admin API), Cosi/Listener (the events).
--   * api/v1alpha1/objectservice_types.go and controllers/objectservice_controller.go, the operator:
--     Operator/Spec (the types and their defaults), Operator/Pki (newCA, newLeafCert,
--     parseLeafCert), Operator/Tls (ensureTLS, ensureAdminSecret and what they call),
--     Operator/Workloads (the services, the stateful set, the COSI deployment),
--     Operator/Reconcile (Reconcile); the objects are those of Kube.antt, in a Namespace
--     (Operator/Namespace). The other modules of Operator hold theorems.
--   * cmd/objectd/main.go, the start of a pod: Objectd.antt (the environment, TLS, the two ports).
--   * cmd/cosidriver/main.go, the start of the COSI driver, with NewAdminClient and NewListener:
--     Driver.antt.
--   * cmd/operator/main.go, the reconciler that it runs: Operator/Manager.
-- A server process is a `Node`: its store, and the state of everything it reaches over the network.
-- The S3 handler and the admin handler change the store of their node first and replicate then; the
-- peers receive the change at their replication handler. A handler maps a request and a node to a
-- response and a node, with each early return of the source as a branch. The operator writes the
-- environment that a pod starts from, and the pod makes its Cluster of it; the COSI driver asks the
-- admin API for buckets and keys.
--
-- Shared by all: Prelude (numbers, lists, Boolean tests, Go's int), Text (strings as lists of bytes,
-- with strings.HasPrefix, TrimPrefix, SplitN, strconv.Atoi and the like), Dict (Go maps), Sort, Exec
-- (errors as values, and operations on a state that may fail), Http (requests and responses).
-- Tests holds concrete runs.
--
-- What the code takes from elsewhere is a parameter: `Platform` for SHA-256, encoding/json and time,
-- `Io` for the answers of the operating system to the calls of one operation (each call may fail),
-- `Net` for the network, `Json` for the request bodies, `Calls` for the answers of the Kubernetes
-- API (each call may fail, and an object that is written is stored as it is written), `Pki` for keys
-- and certificates, `Draws` for random bytes, `Files` for the TLS files, and the route of a request
-- for http.ServeMux. Where a theorem relies on one of them, it says so in a hypothesis: that the
-- JSON of a state is read back as that state, that a random file name is not in use.
--
-- The loops of the source run over lists or up to the number of replicas and are structural
-- recursions, so no fuel is needed. Only the client that follows continuation tokens has fuel, the
-- number of requests it makes, and the theorem says how many are enough.
--
-- Simplified: a map is an association list whose order stands for one order of iteration; a method
-- that holds the mutex is one step; XML and JSON are not written out, a response body is data;
-- the TLS transport between pods stands behind `Net` or the HTTP client of Cluster/Transport, whose
-- health requests change nothing; the headers of a proxied answer are not copied one by one, and no
-- Content-Type is sent to peers; times are whole seconds. HMAC is an argument of the signature check.
--
-- Not modelled: in the commands, flags, listening on a port, shutdown on a signal and the
-- registration of the listeners and of the controller, which the controller libraries run; the
-- deep copies of the resource types; resource versions, whose conflicts are calls that fail.
pub mod Prelude
pub mod Text
pub mod Dict
pub mod Sort
pub mod Exec
pub mod Store
pub mod Http
pub mod Cluster
pub mod Replication
pub mod Signature
pub mod S3
pub mod Cosi
pub mod Kube
pub mod Operator
pub mod Objectd
pub mod Driver
pub mod Admin
pub mod Tests
