-- ===== src/Consensus/Pool.antt =====
-- consensus/state.go: the blocks and certificates that are kept in memory; and their cleaning after a
-- commit, of consensus/driver.go. Of the transaction pool, the calls that put transactions back are listed.
pub mod Cleaning
pub mod Tests
use svp_blockchain.Base.{
  ℕ, ◌+◌, Bool, true, false, not, ◌&&◌, Option, some, none, List, [], ◌∷◌, length, ltb,
  if◌then◌else◌,
}
use svp_blockchain.Base.Bytes.{Bytes, contents}
use svp_blockchain.Base.Assoc.{Assoc, lookup, insert, has, delete}
use svp_blockchain.Base.Words.{add64}
use svp_blockchain.Core.QuorumCert.{QuorumCert}
use svp_blockchain.Core.Block.{Block}

pub record Pool : Type 0 where
  pub blocks : Assoc Block
  pub committed : Assoc (Unit {0})
  pub qcs : Assoc QuorumCert
  pub committed_height : ℕ
  pub committed_tx_count : ℕ

-- The key of a block: a nil hash and an empty one are the same string.
abbrev pub hash_of : Block → Bytes
hash_of blk = contents blk.block_data.hash

abbrev pub height_of : Block → ℕ
height_of blk = blk.block_data.height

unfoldable pub new_pool : Pool
new_pool = record {
  blocks = [];
  committed = [];
  qcs = [];
  committed_height = 0;
  committed_tx_count = 0;
}

unfoldable pub get_block_pool_size : Pool → ℕ
get_block_pool_size p = length p.blocks

unfoldable pub set_block : Block → Pool → Pool
set_block blk p = record p { blocks = insert (hash_of blk) blk p.blocks }

unfoldable pub get_block : Bytes → Pool → Option Block
get_block hash p = lookup hash p.blocks

unfoldable pub delete_block : Bytes → Pool → Pool
delete_block hash p = record p { blocks = delete hash p.blocks }

unfoldable pub get_qc_pool_size : Pool → ℕ
get_qc_pool_size p = length p.qcs

unfoldable pub set_qc : QuorumCert → Pool → Pool
set_qc qc p = record p { qcs = insert (contents qc.qc_data.block_hash) qc p.qcs }

unfoldable pub get_qc : Bytes → Pool → Option QuorumCert
get_qc blk_hash p = lookup blk_hash p.qcs

unfoldable pub delete_qc : Bytes → Pool → Pool
delete_qc blk_hash p = record p { qcs = delete blk_hash p.qcs }

unfoldable pub set_committed_block : Block → Pool → Pool
set_committed_block blk p = record p {
  committed = insert (hash_of blk) tt p.committed;
  committed_height = height_of blk;
}

unfoldable pub delete_committed : Bytes → Pool → Pool
delete_committed blk_hash p = record p { committed = delete blk_hash p.committed }

-- The blocks that pass a test, in the order of the map, which Go leaves open
unfoldable pub select : (Block → Bool) → Assoc Block → List Block
select test [] = []
select test ((key, b) ∷ rest) = let later = select test rest in if test b then b ∷ later else later

unfoldable pub get_older_blocks : ℕ → Pool → List Block
unfolding select
get_older_blocks height p = select (λ b. ltb (height_of b) height) p.blocks

unfoldable pub get_uncommitted_older_blocks : Block → Pool → List Block
unfolding select
get_uncommitted_older_blocks blk p =
    select (λ b. ltb (height_of b) (height_of blk) && not (has (hash_of b) p.committed)) p.blocks

unfoldable pub add_committed_tx_count : ℕ → Pool → Pool
add_committed_tx_count count p = record p { committed_tx_count = add64 p.committed_tx_count count }

-- the loop over the blocks of a fork
unfoldable pub drop_forked : List Block → Pool → Pool
unfolding delete_block delete_qc
drop_forked [] p = p
drop_forked (b ∷ rest) p = drop_forked rest (delete_qc (hash_of b) (delete_block (hash_of b) p))

-- the loop over the older blocks
unfoldable pub drop_older : List Block → Pool → Pool
unfolding delete_block delete_committed
drop_older [] p = p
drop_older (b ∷ rest) p =
    drop_older rest (delete_committed (hash_of b) (delete_block (hash_of b) p))

unfoldable pub transactions_of : List Block → List (List Bytes)
transactions_of [] = []
transactions_of (b ∷ rest) = b.block_data.transactions ∷ transactions_of rest

-- `cleanStateOnCommitted`: the pool afterwards, and what is put back to the queue of transactions
unfoldable pub clean_state_on_committed : Block → Pool → Pool × List (List Bytes)
unfolding set_committed_block delete_qc get_uncommitted_older_blocks get_older_blocks drop_forked
    drop_older transactions_of
clean_state_on_committed blk p =
    let marked = set_committed_block blk (delete_qc (hash_of blk) p) in
    let forked = get_uncommitted_older_blocks blk marked in
    let kept = drop_forked forked marked in
    let pool =
      if ltb (height_of blk) 20
      then kept
      else drop_older (get_older_blocks (height_of blk) kept) kept in
    (pool, transactions_of forked)
