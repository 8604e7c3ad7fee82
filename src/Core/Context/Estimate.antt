-- ===== src/Core/Context/Estimate.antt =====
-- Bounds of the token estimate.
use piqo_server.Prelude.{ℕ, ◌+◌, ◌*◌, ◌/◌, ◌≤◌, ◌≡◌, arith}
use piqo_server.Core.Context.{estimate_tokens, u64_max}

-- Below the saturation points the estimate is a third of the bytes, rounded up, and 8 tokens for each
-- transcript item and tool definition.
pub estimate_tokens-exact :
    (bytes items tools : ℕ)
    → bytes + 2 ≤ u64_max
    → (bytes + 2) / 3 + 8 * (items + tools) ≤ u64_max
    → estimate_tokens bytes items tools ≡ (bytes + 2) / 3 + 8 * (items + tools)
unfolding estimate_tokens
estimate_tokens-exact bytes items tools h k = omega arith

-- The estimate never leaves u64, and more bytes, items or tools never lower it.
pub estimate_tokens-monotone :
    (bytes bytes' items items' tools tools' : ℕ)
    → bytes ≤ bytes'
    → items ≤ items'
    → tools ≤ tools'
    → (estimate_tokens bytes items tools ≤ estimate_tokens bytes' items' tools')
      × (estimate_tokens bytes' items' tools' ≤ u64_max)
unfolding estimate_tokens
estimate_tokens-monotone bytes bytes' items items' tools tools' h k l = omega arith
