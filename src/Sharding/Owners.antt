-- ===== src/Sharding/Owners.antt =====
-- Which shard a policy belongs to.
use houba.Common.{
  ℕ, zero, suc, ◌≤◌, ◌<◌, String, ◌≡◌, List, [], ◌∷◌, count_if, ltb, ◌==◌, arith, if◌then◌else◌,
}
use native.Mathlib.Nat.{mod-lt}
use houba.Sharding.{policy_shard, owns}

-- The indices 0, …, n - 1, the greatest first.
abbrev pub shards : ℕ → List ℕ
shards zero = []
shards (suc n) = n ∷ shards n

count_shards : (k n : ℕ) → count_if (λ i. k == i) (shards n) ≡ (if ltb k n then 1 else 0)
count_shards k zero = ground arith
count_shards k (suc n) = ground (arith, count_shards k n)

-- Every policy is owned by exactly one of the shards, so that no two write for it and none is
-- left out.
pub owns-exactly_one :
    (sha256 : String → List ℕ) (name : String) (shard_count : ℕ)
    → 1 ≤ shard_count
    → count_if (λ i. owns sha256 name i shard_count) (shards shard_count) ≡ 1
unfolding owns policy_shard
owns-exactly_one sha256 name shard_count h =
    let k = policy_shard sha256 name shard_count in
    let bound : k < shard_count = mod-lt _ (omega arith) in
    ground (arith, count_shards k shard_count, bound)
