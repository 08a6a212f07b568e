-- ===== src/Utils/Bytes.antt =====
-- utils/bytes.go: the neighbours of a key, and the end of a prefix scan.
pub mod Order
pub mod PrefixRange
use lancelot.Base.{
  ℕ, zero, suc, ◌+◌, ◌-◌, ◌%◌, ◌≡◌, Bool, true, false, not, Option, none, some, List, [], ◌∷◌, ◌++◌,
  arith, ltb, ◌==◌, if◌then◌else◌, Bytes, length, get_or, set, take,
}

-- NextKey
unfoldable pub next_key : Bytes → Bytes
next_key key = key ++ 0x00 ∷ []

-- The loop of PrevKey; `i + 1` indices are left. `none` is its `return nil`.
unfoldable pub prev_loop : ℕ → Bytes → Option Bytes
prev_loop zero buf = none
prev_loop (suc i) buf =
    let rest = prev_loop i buf in
    let c = get_or buf i 0 in
    if c == 0 then rest else some (take (suc i) (set buf i (c - 1)) ++ 0xff ∷ [])

-- PrevKey
unfoldable pub prev_key : Bytes → Option Bytes
unfolding prev_loop
prev_key [] = none
prev_key key = prev_loop (length key) key

-- The loop of PrefixNext. The flag tells whether it left by `break`; without it `i` ends at -1.
unfoldable pub bump_loop : ℕ → Bytes → Bool × Bytes
bump_loop zero buf = (false, buf)
bump_loop (suc i) buf =
    let c = (get_or buf i 0 + 1) % 256 in
    let buf' = set buf i c in let rest = bump_loop i buf' in if c == 0 then rest else (true, buf')

-- PrefixNext
unfoldable pub prefix_next : Bytes → Bytes
unfolding bump_loop
prefix_next prefix =
    let (stopped, buf) = bump_loop (length prefix) prefix in
    if stopped then buf else prefix ++ 0 ∷ []
