-- ===== src/Cluster/Quorum.antt =====
-- What a successful replication means (internal/cluster/cluster.go).
use pobj.Prelude.{
  subst, ◌/◌, ◌↔◌, refl, ltb, ◌*◌, if◌then◌else◌, inr, inl, ◌&&◌, ◌∙◌, zero, Bool-cases, true,
  arith, ap, ◌≤◌, ◌||◌, ◌<◌, ◌+◌, ◌≡◌, suc, Bool, ℕ,
}
use pobj.Exec.{ok}
use pobj.Text.{Text}
use pobj.Http.{Method}
use pobj.Prelude.Int.{pos, eqb_ℤ}
use pobj.Cluster.{Cluster, Net, replicas, enabled, replicate, replicate_from, replicate_to, is_ack}

-- How many numbers below `n` pass the test.
unfoldable pub count_below : (ℕ → Bool) → ℕ → ℕ
count_below p zero = 0
count_below p (suc n) = if p n then suc (count_below p n) else count_below p n

count_below-le : (p : ℕ → Bool) (n : ℕ) → count_below p n ≤ n
unfolding count_below
count_below-le p zero = omega arith
count_below-le p (suc n) = ground (arith, count_below-le p n)

-- Two sets of numbers below `n` that together have more than `n` members share one.
pub shared :
    (p q : ℕ → Bool) (n : ℕ)
    → n < count_below p n + count_below q n
    → (i : ℕ) × (i < n) × (p i ≡ true) × (q i ≡ true)
unfolding count_below
shared p q zero h = absurd (omega arith)
shared p q (suc n) h = elim (Bool-cases (p n && q n)) [
  | inl both ↦ (n, omega arith, ground arith, ground arith)
  | inr not_both ↦ let (i, l, pi, qi) = shared p q n (ground arith) in (i, omega arith, pi, qi)
]

plus_zero : (i : ℕ) → i ≡ i + 0
plus_zero i = omega arith

zero_plus : (n : ℕ) → 0 + n ≡ n
zero_plus n = omega arith

shift : (i n : ℕ) → suc i + n ≡ i + suc n
shift i n = omega arith

module _ {W : Type 0} (net : Net W) (c : Cluster) (method : Method) (path body : Text) where
  snoc :
      (rounds i : ℕ) (s : ℕ × W)
      → replicate_from net c method path body (suc rounds) i s
        ≡ replicate_to net c method path body
            (i + rounds)
            (replicate_from net c method path body rounds i s)
  unfolding replicate_from
  snoc zero i s = ap (λ j. replicate_to net c method path body j s) (plus_zero i)
  snoc (suc rounds) i s =
      snoc rounds (suc i) (replicate_to net c method path body i s)
      ∙ ap
          (λ j.
            replicate_to net c method path body j
              (replicate_from net c method path body (suc rounds) i s))
          (shift i rounds)

  -- The state of the network at the turn of an ordinal.
  unfoldable pub at_turn : W → ℕ → W
  at_turn w i = (replicate_from net c method path body i 0 (1, w)).1

  -- The ordinals that have the change: the server itself, and the peers that acknowledge it.
  unfoldable pub has_change : W → ℕ → Bool
  unfolding at_turn
  has_change w i =
      eqb_ℤ (pos i) c.ordinal
      || is_ack net c method path body (net.send i method path body (at_turn w i)).0

  module _ (self : ℕ) (here : c.ordinal ≡ pos self) (w : W) where
    -- One round adds to the counter what the ordinal adds to those that have the change.
    round-count :
        (n : ℕ) (s : ℕ × W)
        → at_turn w n ≡ s.1
        → s.0 + (if ltb self n then 1 else 0) ≡ 1 + count_below (has_change w) n
        → (replicate_to net c method path body n s).0 + (if ltb self (suc n) then 1 else 0)
          ≡ 1 + count_below (has_change w) (suc n)
    unfolding count_below replicate_to has_change
    round-count n (acks, v) e h = ground (arith, here)

    -- The counter of the loop counts the peers that acknowledge, and the server before its turn.
    acks-count :
        (n : ℕ)
        → (replicate_from net c method path body n 0 (1, w)).0 + (if ltb self n then 1 else 0)
          ≡ 1 + count_below (has_change w) n
    unfolding count_below replicate_from at_turn
    acks-count zero = ground arith
    acks-count (suc n) =
        rw (snoc n 0 (1, w), zero_plus n)
          (round-count n (replicate_from net c method path body n 0 (1, w)) refl (acks-count n))

    -- In a cluster of several replicas a replication reports success exactly if more than half of
    -- the replicas have the change, as the server itself, or have acknowledged it. Assumed is that
    -- the server's own ordinal is one of the replicas'.
    pub replicate-majority :
        self < replicas c
        → enabled c ≡ true
        → ((replicate net c method path body w).0 ≡ ok tt)
          ↔ (replicas c < 2 * count_below (has_change w) (replicas c))
    unfolding replicate
    replicate-majority l e = (λ h. many (enough h), λ h. success (few h))
      where
        acks : ℕ
        acks = (replicate_from net c method path body (replicas c) 0 (1, w)).0

        many : replicas c / 2 + 1 ≤ acks → replicas c < 2 * count_below (has_change w) (replicas c)
        many h = ground (arith, acks-count (replicas c))

        few : replicas c < 2 * count_below (has_change w) (replicas c) → replicas c / 2 + 1 ≤ acks
        few h = ground (arith, acks-count (replicas c))

        enough : (replicate net c method path body w).0 ≡ ok tt → replicas c / 2 + 1 ≤ acks
        enough h = ground arith

        success : replicas c / 2 + 1 ≤ acks → (replicate net c method path body w).0 ≡ ok tt
        success h = ground arith

-- Any two successful replications, by any two servers of one cluster and from any states of the
-- network, have an ordinal in common that has both changes. Assumed is that the servers count the
-- same number of replicas, more than one, and that their own ordinals are among these.
pub replicate-intersect :
    {W : Type 0} (net : Net W) (c c' : Cluster) (self self' : ℕ) (method method' : Method)
    (path path' body body' : Text) (w w' : W)
    → c.ordinal ≡ pos self
    → c'.ordinal ≡ pos self'
    → replicas c' ≡ replicas c
    → self < replicas c
    → self' < replicas c
    → enabled c ≡ true
    → enabled c' ≡ true
    → (replicate net c method path body w).0 ≡ ok tt
    → (replicate net c' method' path' body' w').0 ≡ ok tt
    → (i : ℕ) × (i < replicas c)
      × (has_change net c method path body w i ≡ true)
      × (has_change net c' method' path' body' w' i ≡ true)
replicate-intersect net c c' self self' method method' path path' body body' w w' here here' same l
      l' e e' h h' =
    shared (has_change net c method path body w) (has_change net c' method' path' body' w')
      (replicas c) (more one two)
  where
    one : replicas c < 2 * count_below (has_change net c method path body w) (replicas c)
    one = (replicate-majority net c method path body self here w l e).0 h

    two : replicas c' < 2 * count_below (has_change net c' method' path' body' w') (replicas c')
    two = (replicate-majority net c' method' path' body' self' here' w' (omega arith) e').0 h'

    more :
        replicas c < 2 * count_below (has_change net c method path body w) (replicas c)
        → replicas c' < 2 * count_below (has_change net c' method' path' body' w') (replicas c')
        → replicas c
          < count_below (has_change net c method path body w) (replicas c)
            + count_below (has_change net c' method' path' body' w') (replicas c)
    more a b =
        let b' =
          subst (λ n. n < 2 * count_below (has_change net c' method' path' body' w') n) same b in
        omega (arith, a, b')
