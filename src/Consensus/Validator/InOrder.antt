-- ===== src/Consensus/Validator/InOrder.antt =====
-- What `verifyBlockToVote` of consensus/validator.go asks of a block, written out.
use svp_blockchain.Base.{
  ◌≤◌, false, Bool-cases, inl, inr, none, some, Option-cases, List, [], ◌∷◌, All, ◌≡◌, ◌≢◌, arith,
}
use svp_blockchain.Base.Bytes.{Bytes, contents, same_iff}
use svp_blockchain.Core.Block.{Block}
use svp_blockchain.Core.Transaction.{Transaction}
use svp_blockchain.Consensus.Pool.{height_of}
use svp_blockchain.Consensus.Node.{Services, Node, tx_committed, tx_not_found, tx_expired}
use svp_blockchain.Consensus.Validator.{is_expired, verify_block_txs, verify_block_to_vote}

module _ {W : Type 0} (services : Services W) (blk : Block) where
  -- The transaction is not in the storage, is in the pool, and does not expire below the block.
  abbrev pub Fits : W → Bytes → Type 0
  Fits w hash =
      (services.has_tx w hash ≡ false)
      × (tx : Transaction) × (services.get_tx w hash ≡ some tx)
      × (tx.expiry ≢ 0 → height_of blk ≤ tx.expiry)

  -- Once the node has committed a block, the block has its height and its root; and its transactions fit.
  abbrev pub InOrder : Node W → Type 0
  InOrder s =
      (s.pool.committed_height ≢ 0
        → (services.block_height s.world ≡ blk.block_data.exec_height)
          × (contents (services.merkle_root s.world) ≡ blk.block_data.merkle_root))
      × All (Fits s.world) blk.block_data.transactions

  verify_block_txs-Fits :
      (w : W) (hashes : List Bytes)
      → verify_block_txs services w blk hashes ≡ none
      → All (Fits w) hashes
  unfolding verify_block_txs is_expired
  verify_block_txs-Fits w [] e = tt
  verify_block_txs-Fits w (hash ∷ rest) e = elim (Bool-cases (services.has_tx w hash)) [
    | inl h ↦ absurd (let x : some tx_committed ≡ none = rw h at e in cc)
    | inr h ↦ elim (Option-cases (services.get_tx w hash)) [
      | inl g ↦ absurd (let x : some tx_not_found ≡ none = rw (h, g) at e in cc)
      | inr (tx, g) ↦ elim (Bool-cases (is_expired services tx blk)) [
        | inl x ↦ absurd (let y : some tx_expired ≡ none = rw (h, g, x) at e in cc)
        | inr x ↦
            let later : verify_block_txs services w blk rest ≡ none = rw (h, g, x) at e in
            ((h, tx, g, (λ n. ground arith)), verify_block_txs-Fits w rest later)
      ]
    ]
  ]

  pub verify_block_to_vote-InOrder :
      (s : Node W) → verify_block_to_vote services blk s ≡ none → InOrder s
  unfolding verify_block_to_vote
  verify_block_to_vote-InOrder s e = (
    (λ n.
        ground
          (arith, same_iff (contents (services.merkle_root s.world)) blk.block_data.merkle_root)),
    verify_block_txs-Fits s.world blk.block_data.transactions (ground arith),
  )
