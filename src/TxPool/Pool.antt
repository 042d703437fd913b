-- ===== src/TxPool/Pool.antt =====
-- `TxPool` of txpool/txpool.go beside its store. What it asks of the storage (`HasTx`) and of the execution
-- (`VerifyTx`) are arguments, and so is the check of a transaction for itself.
use svp_blockchain.Base.{
  ℕ, Bool, Bool-cases, inl, inr, not, ◌&&◌, Option, none, some, Option-cases, List, [], ◌∷◌, map,
  if◌then◌else◌, ◌≡◌, refl, ap,
}
use svp_blockchain.Base.Bytes.{Bytes}
use svp_blockchain.Base.Keys.{contains}
use svp_blockchain.Base.Partial.{◌>>=◌}
use svp_blockchain.Core.Transaction.{Transaction}
use svp_blockchain.TxPool.{TxStore}
use svp_blockchain.TxPool.Store.{
  add_new_tx, put_txs_to_queue, set_txs_pending, get_tx, get_tx_status, TxStatus, not_found, queue,
  pending, committed,
}
use svp_blockchain.TxPool.Indexed.{Indexed}
use svp_blockchain.TxPool.Moves.{in_queue}
use svp_blockchain.TxPool.Known.{is_tx, Holds}
use svp_blockchain.TxPool.Refines.{set_txs_pending-Holds}

pub data Refusal : Type 0 where
  invalid_tx refused_by_execution : Refusal

module _ (validate verify_tx : Transaction → Bool) (has_tx : Bytes → Bool) where
  -- `addNewTx` of the pool, with the error
  unfoldable pub add_checked : Transaction → ℕ → TxStore → Option Refusal × TxStore
  unfolding add_new_tx
  add_checked tx now st =
      if not (validate tx)
      then (some invalid_tx, st)
      else if has_tx tx.hash
      then (none, st)
      else if not (verify_tx tx)
      then (some refused_by_execution, st)
      else (none, add_new_tx tx now st)

  -- `submitTx`, less the broadcast
  unfoldable pub submit_tx : Transaction → ℕ → TxStore → Option Refusal × TxStore
  unfolding add_checked put_txs_to_queue
  submit_tx tx now st = add_checked tx now (put_txs_to_queue (tx.hash ∷ []) st)

module _ (has_tx : Bytes → Bool) where
  -- the loop of `syncTxs`
  unfoldable pub missing_txs : TxStore → List Bytes → List Bytes
  unfolding get_tx
  missing_txs st [] = []
  missing_txs st (hash ∷ rest) =
      let later = missing_txs st rest in
      if not (has_tx hash) && not (is_tx (get_tx st hash)) then hash ∷ later else later

  -- the loop of `getTxsToExecute`; `none` is the end of the process.
  unfoldable pub split_txs : TxStore → List Bytes → Option (List Transaction × List Bytes)
  unfolding get_tx
  split_txs st [] = some ([], [])
  split_txs st (hash ∷ rest) = do
    later ← split_txs st rest
    if has_tx hash
        then some (later.0, hash ∷ later.1)
        else do tx ← get_tx st hash; some (tx ∷ later.0, later.1)

  unfoldable pub get_txs_to_execute :
      List Bytes → TxStore → Option ((List Transaction × List Bytes) × TxStore)
  unfolding split_txs set_txs_pending
  get_txs_to_execute hashes st = do
    lists ← split_txs st hashes
    some (lists, set_txs_pending hashes st)

  -- `getTxStatus` of the pool
  unfoldable pub pool_tx_status : TxStore → Bytes → TxStatus
  unfolding get_tx_status
  pool_tx_status st hash = elim (get_tx_status st hash) [
    | not_found ↦ if has_tx hash then committed else not_found
    | queue ↦ queue
    | pending ↦ pending
    | committed ↦ committed
  ]

  -- the hashes that the storage has, and the others
  unfoldable pub stored_of : List Bytes → List Bytes
  stored_of [] = []
  stored_of (hash ∷ rest) =
      let later = stored_of rest in if has_tx hash then hash ∷ later else later

  unfoldable pub others_of : List Bytes → List Bytes
  others_of [] = []
  others_of (hash ∷ rest) =
      let later = others_of rest in if has_tx hash then later else hash ∷ later

  -- The lists are the transactions of the other hashes and the stored hashes, in their order.
  abbrev pub Splits : TxStore → List Bytes → List Transaction → List Bytes → Type 0
  Splits st hashes txs old =
      (map some txs ≡ map (get_tx st) (others_of hashes)) × (old ≡ stored_of hashes)

  split_txs-Splits :
      (st : TxStore) (hashes : List Bytes)
      → missing_txs st hashes ≡ []
      → (txs : List Transaction) × (old : List Bytes) × (split_txs st hashes ≡ some (txs, old))
        × Splits st hashes txs old
  unfolding missing_txs split_txs others_of stored_of
  split_txs-Splits st [] e = ([], [], refl, (refl, refl))
  split_txs-Splits st (hash ∷ rest) e = elim (Bool-cases (has_tx hash)) [
    | inl h ↦
        let later = split_txs-Splits st rest (rw h at e) in
        (
          later.0,
          hash ∷ later.1,
          rw (later.2, h) refl,
          (rw h later.3.0, rw h (ap (λ l. hash ∷ l) later.3.1)),
        )
    | inr h ↦ elim (Option-cases (get_tx st hash)) [
      | inl n ↦ absurd (let x : hash ∷ missing_txs st rest ≡ [] = rw (h, n) at e in cc)
      | inr (tx, s) ↦
          let later = split_txs-Splits st rest (rw (h, s) at e) in
          (
            tx ∷ later.0,
            later.1,
            rw (later.2, h, s) refl,
            (rw (h, s) (ap (λ l. some tx ∷ l) later.3.0), rw h later.3.1),
          )
    ]
  ]

  -- In a store in which every index is a place and which misses none of the hashes, `getTxsToExecute` does
  -- not end the process: it gives the transactions of the hashes that are not in the storage, in their order,
  -- and the hashes that are, and takes exactly the listed ones from the queue.
  pub get_txs_to_execute-Splits :
      (hashes : List Bytes) (st : TxStore)
      → Indexed st
      → missing_txs st hashes ≡ []
      → (txs : List Transaction) × (old : List Bytes) × (t : TxStore) × (get_txs_to_execute hashes
            st
          ≡ some ((txs, old), t))
        × Splits st hashes txs old
        × Holds (get_tx st) (λ k. not (contains k hashes) && in_queue st k) t
  unfolding get_txs_to_execute
  get_txs_to_execute-Splits hashes st h e =
      let r = split_txs-Splits st hashes e in
      (r.0, r.1, set_txs_pending hashes st, rw r.2 refl, r.3, set_txs_pending-Holds hashes st h)
