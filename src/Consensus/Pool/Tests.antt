-- ===== src/Consensus/Pool/Tests.antt =====
-- Two blocks at height 1, one of them committed, and the commit of a block at height 2.
use svp_blockchain.Base.{ℕ, none, some, [], ◌∷◌, ◌≡◌, refl}
use svp_blockchain.Base.Bytes.{Bytes, same}
use svp_blockchain.Base.Assoc.{lookup, has}
use svp_blockchain.Core.Block.{Block, new_block}
use svp_blockchain.Consensus.Pool.{Pool, clean_state_on_committed}
use svp_blockchain.Consensus.Pool.Cleaning.{IsPool, removed, unless, lookup-clean_state}

abbrev block_at : ℕ → Bytes → Block
block_at height hash = record {
  block_data = record (new_block.block_data) { hash = some hash; height = height };
  quorum_cert = none;
  signature = none;
}

abbrev forked_pool : Pool
forked_pool = record {
  blocks = (1 ∷ [], block_at 1 (1 ∷ [])) ∷ (2 ∷ [], block_at 1 (2 ∷ [])) ∷ [];
  committed = (1 ∷ [], tt) ∷ [];
  qcs = [];
  committed_height = 1;
  committed_tx_count = 0;
}

forked_pool-IsPool : IsPool forked_pool
unfolding has same
forked_pool-IsPool = record { keyed = (refl, (refl, tt)); distinct = (refl, (refl, tt)) }

lookup-clean_state_example :
    IsPool (clean_state_on_committed (block_at 2 (3 ∷ [])) forked_pool).0
    × (lookup (2 ∷ []) (clean_state_on_committed (block_at 2 (3 ∷ [])) forked_pool).0.blocks
        ≡ unless (removed (block_at 2 (3 ∷ [])) forked_pool) (lookup (2 ∷ []) forked_pool.blocks))
lookup-clean_state_example =
    lookup-clean_state (block_at 2 (3 ∷ [])) forked_pool (2 ∷ []) forked_pool-IsPool
