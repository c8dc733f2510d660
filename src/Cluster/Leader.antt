-- ===== src/Cluster/Leader.antt =====
use pobj.Prelude.Int.{pos, eqb_ℤ-≡}
use pobj.Prelude.{
  refl, zero, suc, arith, true, false, ◌≡◌, ◌+◌, ◌<◌, Bool, ◌||◌, not, Option, none, some, ℕ,
}
use pobj.Cluster.{
  replicas, first_healthy, enabled, leader, Cluster, is_leader, is_internal_replication, Net,
}
use pobj.Http.{Request}

-- A server acts on its own store: it is alone, or the request is marked as a replication, or it takes
-- itself for the leader.
unfoldable pub in_charge : {W : Type 0} → Net W → Option Cluster → Request → W → Bool
unfolding is_internal_replication is_leader
in_charge net none r w = true
in_charge net (some c) r w = not (enabled c) || is_internal_replication r || is_leader net c w

-- Which ordinal a server takes for the leader (internal/cluster/cluster.go).

-- The least ordinal below a bound that passes a test.
pub record IsLeast (healthy : ℕ → Bool) (n i : ℕ) : Type 0 where
  pub below : i < n
  pub itself : healthy i ≡ true
  pub least : (j : ℕ) → j < i → healthy j ≡ false

module _ {W : Type 0} (net : Net W) (c : Cluster) (w : W) where
  first_healthy-IsLeast :
      (rounds i n : ℕ)
      → n ≡ i + rounds
      → ((j : ℕ) → j < i → net.healthy j w ≡ false)
      → (k : ℕ) → k < n
      → net.healthy k w ≡ true
      → IsLeast (λ j. net.healthy j w) n (first_healthy net c rounds i w)
  unfolding first_healthy
  first_healthy-IsLeast zero i n e before k l h = absurd (ground (arith, before k))
  first_healthy-IsLeast (suc rounds) i n e before k l h = from (net.healthy i w) refl (λ no.
      first_healthy-IsLeast rounds (suc i) n (omega arith) (λ j m. ground (arith, before j)) k l h)
    where
      from :
          (b : Bool)
          → net.healthy i w ≡ b
          → (net.healthy i w ≡ false
              → IsLeast (λ j. net.healthy j w) n (first_healthy net c rounds (suc i) w))
          → IsLeast (λ j. net.healthy j w) n (first_healthy net c (suc rounds) i w)
      from true t later =
          rw (t, first_healthy)
            (record { below = ground (arith, before k); itself = t; least = before })
      from false t later = rw (t, first_healthy) (later t)

  first_healthy-none :
      (rounds i : ℕ)
      → ((j : ℕ) → j < i + rounds → net.healthy j w ≡ false)
      → first_healthy net c rounds i w ≡ 0
  unfolding first_healthy
  first_healthy-none zero i no_one = refl
  first_healthy-none (suc rounds) i no_one =
      ground (arith, no_one i, first_healthy-none rounds (suc i))

  -- In a cluster of several replicas where some replica is healthy, the leader is the least
  -- healthy ordinal.
  pub leader-IsLeast :
      (k : ℕ)
      → enabled c ≡ true
      → k < replicas c
      → net.healthy k w ≡ true
      → IsLeast (λ j. net.healthy j w) (replicas c) (leader net c w)
  unfolding leader
  leader-IsLeast k e l h = rw (e) (
      first_healthy-IsLeast (replicas c) 0 (replicas c) (omega arith) (λ j m. absurd (omega arith))
        k l h)

  -- With no healthy replica, or a single one, the leader is ordinal 0.
  pub leader-zero : ((j : ℕ) → j < replicas c → net.healthy j w ≡ false) → leader net c w ≡ 0
  unfolding leader
  leader-zero no_one =
      ground (arith, first_healthy-none (replicas c) 0 (λ j l. no_one j (omega arith)))

first_healthy-agree :
    {W : Type 0} (net : Net W) (c c' : Cluster) (w w' : W)
    → ((j : ℕ) → net.healthy j w ≡ net.healthy j w')
    → (rounds i : ℕ) → first_healthy net c rounds i w ≡ first_healthy net c' rounds i w'
unfolding first_healthy
first_healthy-agree net c c' w w' same zero i = refl
first_healthy-agree net c c' w w' same (suc rounds) i =
    ground (arith, same i, first_healthy-agree net c c' w w' same rounds (suc i))

-- Servers that count the same number of replicas and see the same ones healthy agree on the leader:
-- those that take themselves for it have the same ordinal.
pub is_leader_unique :
    {W : Type 0} (net : Net W) (c c' : Cluster) (w w' : W)
    → replicas c ≡ replicas c'
    → enabled c ≡ enabled c'
    → ((j : ℕ) → net.healthy j w ≡ net.healthy j w')
    → is_leader net c w ≡ true
    → is_leader net c' w' ≡ true
    → c.ordinal ≡ c'.ordinal
unfolding is_leader leader
is_leader_unique net c c' w w' n e same h h' = ground (
  arith,
  first_healthy-agree net c c' w w' same (replicas c) 0,
  eqb_ℤ-≡ (pos (leader net c w)) c.ordinal,
  eqb_ℤ-≡ (pos (leader net c' w')) c'.ordinal,
)
