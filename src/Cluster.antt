-- ===== src/Cluster.antt =====
-- internal/cluster/cluster.go: the leader, and synchronous replication to the peers.
pub mod Quorum
pub mod Leader
pub mod Ordinal
pub mod Transport
pub mod Proxy
pub mod Address
pub mod Delivery
use pobj.Prelude.{
  ℕ, zero, suc, ◌+◌, ◌/◌, Bool, true, false, not, ◌&&◌, ◌||◌, Option, none, some, List, [], ◌∷◌,
  ◌++◌, if◌then◌else◌, ltb, leb,
}
use pobj.Prelude.Int.{ℤ, pos, negsuc, to_ℕ, ltb_ℤ, eqb_ℤ}
use pobj.Text.{Text, lit, ◌==◌}
use pobj.Text.Parts.{decimal, decimal_ℤ, split, atoi}
use pobj.Exec.{Error, Result, ok, err, failed}
use pobj.Http.{Method, Request, Response}

pub record Config : Type 0 where
  pub pod_name : Text
  pub namespace : Text
  pub name : Text
  pub headless_name : Text
  pub replicas : ℤ
  pub s3_port : ℤ
  pub admin_port : ℤ
  pub token : Text
  pub tls_enabled : Bool
  pub ca_file : Text
  pub cert_file : Text
  pub key_file : Text

pub record Cluster : Type 0 where
  pub cfg : Config
  pub ordinal : ℤ

unfoldable pub last_of : List Text → Text
last_of [] = []
last_of (x ∷ []) = x
last_of (x ∷ y ∷ xs) = last_of (y ∷ xs)

unfoldable pub or_zero : Option ℤ → ℤ
or_zero none = pos 0
or_zero (some v) = v

-- strings.Split gives at least one part, so the test for none is never true.
unfoldable pub parse_ordinal : Text → ℤ
unfolding split atoi last_of or_zero
parse_ordinal pod_name = or_zero (atoi (last_of (split b'-' pod_name)))

-- The defaults of `New`; its HTTP client is the parameter `Net`.
unfoldable pub with_defaults : Config → Config
with_defaults cfg = record cfg {
  replicas = if ltb_ℤ (pos 0) cfg.replicas then cfg.replicas else pos 1;
  s3_port = if eqb_ℤ cfg.s3_port (pos 0) then pos 9000 else cfg.s3_port;
  admin_port = if eqb_ℤ cfg.admin_port (pos 0) then pos 19000 else cfg.admin_port;
}

unfoldable pub new : Config → Cluster
unfolding with_defaults parse_ordinal
new cfg = record { cfg = with_defaults cfg; ordinal = parse_ordinal cfg.pod_name }

abbrev pub enabled : Cluster → Bool
enabled c = ltb_ℤ (pos 1) c.cfg.replicas

-- The replicas as a loop bound: there is no ordinal below a negative number.
abbrev pub replicas : Cluster → ℕ
replicas c = to_ℕ c.cfg.replicas

-- adminURL: where the admin server of an ordinal is.
unfoldable pub admin_host : Cluster → ℤ → Text
unfolding decimal_ℤ
admin_host c ordinal =
    ((((((c.cfg.name ++ lit "-") ++ decimal_ℤ ordinal) ++ lit ".") ++ c.cfg.headless_name)
        ++ lit ".")
      ++ c.cfg.namespace)
    ++ lit ".svc.cluster.local"

unfoldable pub admin_url : Cluster → ℤ → Text
unfolding admin_host decimal_ℤ
admin_url c ordinal =
    let scheme = if c.cfg.tls_enabled then lit "https" else lit "http" in
    (((scheme ++ lit "://") ++ admin_host c ordinal) ++ lit ":") ++ decimal_ℤ c.cfg.admin_port

unfoldable pub is_internal_replication : Request → Bool
unfolding ◌==◌
is_internal_replication r = r.header (lit "X-ENTITY-Internal-Replication") == lit "true"

-- What the network does, with `W` the state of everything behind it. `healthy` is whether the
-- health request to an ordinal is answered by 200; `send` is one replication request to the admin
-- server of an ordinal, with the status of its answer, or none if there is no answer; `proxy` is
-- the request of a proxy to the leader's server.
pub record Net (W : Type 0) : Type 0 where
  pub healthy : ℕ → W → Bool
  pub send : ℕ → Method → Text → Text → W → Option ℕ × W
  pub proxy : ℕ → Request → W → Result Response × W

module _ {W : Type 0} (net : Net W) (c : Cluster) where
  -- for i := 0; i < c.cfg.Replicas; i++ { if c.health(ctx, i) { return i } }, by the rounds left.
  unfoldable pub first_healthy : ℕ → ℕ → W → ℕ
  first_healthy zero i w = 0
  first_healthy (suc rounds) i w =
      let later = first_healthy rounds (suc i) w in if net.healthy i w then i else later

  unfoldable pub leader : W → ℕ
  unfolding first_healthy
  leader w = if not (enabled c) then 0 else first_healthy (replicas c) 0 w

  unfoldable pub is_leader : W → Bool
  unfolding leader
  is_leader w = eqb_ℤ (pos (leader w)) c.ordinal

  unfoldable pub proxy_to_leader : Request → W → Result Response × W
  unfolding leader
  proxy_to_leader r w = net.proxy (leader w) r w

  module _ (method : Method) (path body : Text) where
    -- Whether an answer is an acknowledgement.
    abbrev pub is_ack : Option ℕ → Bool
    is_ack none = false
    is_ack (some status) = leb 200 status && ltb status 300

    -- One round of the loop.
    unfoldable pub replicate_to : ℕ → ℕ × W → ℕ × W
    replicate_to i (acks, w) =
        if eqb_ℤ (pos i) c.ordinal
        then (acks, w)
        else let (answer, w') = net.send i method path body w in
          (if is_ack answer then suc acks else acks, w')

    unfoldable pub replicate_from : ℕ → ℕ → ℕ × W → ℕ × W
    unfolding replicate_to
    replicate_from zero i s = s
    replicate_from (suc rounds) i s = replicate_from rounds (suc i) (replicate_to i s)

    abbrev pub required : ℕ
    required = replicas c / 2 + 1

    quorum_message : ℕ → Text
    unfolding decimal
    quorum_message acks =
        (lit "replication quorum not reached: got=" ++ decimal acks)
        ++ lit " required="
        ++ decimal required

    unfoldable pub replicate : W → Result (Unit {0}) × W
    unfolding replicate_from quorum_message
    replicate w =
        if not (enabled c)
        then (ok tt, w)
        else let (acks, w') = replicate_from (replicas c) 0 (1, w) in
          (if ltb acks required then err (failed (quorum_message acks)) else ok tt, w')
