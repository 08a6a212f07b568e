-- ===== src/Utils/Hash.antt =====
-- utils/hash.go: the shard of a count.
use Prim.Native.Nat.{bit_and, bit_xor}
use lancelot.Base.{ℕ, ◌*◌, ◌%◌, ◌^◌, ◌<◌, [], ◌∷◌, Bytes, arith}

-- hash/fnv's New64a, written to byte by byte
sum_loop : ℕ → Bytes → ℕ
sum_loop h [] = h
sum_loop h (b ∷ bs) = sum_loop (bit_xor h b * 1099511628211 % 2 ^ 64) bs

-- Sum64
unfoldable pub sum64 : Bytes → ℕ
unfolding sum_loop
sum64 s = sum_loop 14695981039346656037 s

-- GetShard
unfoldable pub get_shard : Bytes → ℕ → ℕ
get_shard s mark = bit_and (sum64 s) mark % 2 ^ 16

pub get_shard-lt : (s : Bytes) (mark : ℕ) → get_shard s mark < 2 ^ 16
unfolding get_shard
get_shard-lt s mark = omega arith
