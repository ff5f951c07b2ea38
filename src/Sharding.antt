-- ===== src/Sharding.antt =====
-- knock/domain/sharding.py and knock/domain/deletion_mode.py. SHA-256 of a name's UTF-8 bytes is a
-- parameter: the bytes of the digest. A shard count of 0, a `ZeroDivisionError` in the code, is
-- left out by the hypotheses.
pub mod Owners
use Prim.Native.Nat.{◌%◌}
use houba.Common.{ℕ, zero, suc, ◌+◌, ◌*◌, String, Bool, Option, none, some, List, [], ◌∷◌, ◌==◌}
use houba.Policy.{DeletionMode}

abbrev pub take : ℕ → List ℕ → List ℕ
take zero bytes = []
take (suc n) [] = []
take (suc n) (b ∷ bytes) = b ∷ take n bytes

-- `int.from_bytes(bytes, "big")`, after the bytes already read.
abbrev pub from_bytes : ℕ → List ℕ → ℕ
from_bytes value [] = value
from_bytes value (b ∷ bytes) = from_bytes (value * 256 + b) bytes

module _ (sha256 : String → List ℕ) where
  unfoldable pub policy_shard : String → ℕ → ℕ
  policy_shard name shard_count = from_bytes 0 (take 8 (sha256 name)) % shard_count

  unfoldable pub owns : String → ℕ → ℕ → Bool
  unfolding policy_shard
  owns name shard_index shard_count = policy_shard name shard_count == shard_index

-- `policy or destination or global_`
unfoldable pub resolve_deletion_mode :
    Option DeletionMode → Option DeletionMode → DeletionMode → DeletionMode
resolve_deletion_mode (some mode) destination global = mode
resolve_deletion_mode none (some mode) global = mode
resolve_deletion_mode none none global = global
