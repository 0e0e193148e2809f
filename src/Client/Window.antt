-- ===== src/Client/Window.antt =====
-- The window of `readRevealedTerms` in frontend/lib/chain.ts against the limits of the RPC node.
use flare_stealthwage.Prelude.{ℕ, ◌+◌, ◌≤◌, ◌<◌, ℤ, pos, negsuc, arith}
use flare_stealthwage.Client.Chain.{anchor, range_of}

-- The window never reaches past the head of the chain, is never empty, and spans at most 21 blocks,
-- whatever the configured block.
pub range_of-fits :
    (reveal_block : ℤ) (head : ℕ)
    → ((range_of reveal_block head).to_block ≤ head)
      × ((range_of reveal_block head).from_block ≤ (range_of reveal_block head).to_block)
      × ((range_of reveal_block head).to_block < (range_of reveal_block head).from_block + 21)
unfolding range_of anchor
range_of-fits (pos n) head = ground arith
range_of-fits (negsuc n) head = ground arith

-- A configured block that is on the chain lies in the window.
pub range_of-holds :
    (n head : ℕ)
    → 0 < n
    → n ≤ head
    → ((range_of (pos n) head).from_block ≤ n) × (n ≤ (range_of (pos n) head).to_block)
unfolding range_of anchor
range_of-holds n head h k = ground arith
