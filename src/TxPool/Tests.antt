-- ===== src/TxPool/Tests.antt =====
-- A pool that receives two transactions, the later one first.
use svp_blockchain.Base.{ℕ, ◌&&◌, not, some, List, [], ◌∷◌, ◌≡◌, refl}
use svp_blockchain.Base.Bytes.{Bytes, same}
use svp_blockchain.Base.Assoc.{lookup, has, insert}
use svp_blockchain.Core.Transaction.{Transaction}
use svp_blockchain.TxPool.{
  TxStore, new_tx_store, index_of, push, append_key, set_index, up, less, time_at, swap, swap_keys,
}
use svp_blockchain.TxPool.Store.{
  Op, add_op, pop_op, put_op, pending_op, remove_op, run_op, run_ops, add_new_tx, get_tx,
}
use svp_blockchain.TxPool.Known.{Holds}
use svp_blockchain.TxPool.Moves.{in_queue}
use svp_blockchain.TxPool.Pool.{missing_txs, get_txs_to_execute, Splits, get_txs_to_execute-Splits}
use svp_blockchain.Base.Keys.{contains}
use svp_blockchain.TxPool.Indexed.{Indexed}
use svp_blockchain.TxPool.Pops.{Promise, run_op-Promise, run_ops-Indexed}

abbrev payment : ℕ → Transaction
payment n = record {
  nonce = n;
  hash = n ∷ [];
  sender = [];
  code_addr = [];
  input = [];
  expiry = 0;
  signature = [];
}

abbrev received : List Op
received = add_op (payment 1) 20 ∷ add_op (payment 2) 10 ∷ []

new_tx_store-Indexed : Indexed new_tx_store
unfolding index_of lookup
new_tx_store-Indexed k x = (λ e. absurd (cc), λ e. absurd (cc))

received-Indexed : Indexed (run_ops received new_tx_store)
received-Indexed = run_ops-Indexed received new_tx_store new_tx_store-Indexed

run_ops-Indexed_example : Indexed (
    run_ops
      (add_op (payment 1) 20
        ∷ add_op (payment 2) 10
        ∷ pop_op 1
        ∷ put_op ((2 ∷ []) ∷ [])
        ∷ remove_op ((1 ∷ []) ∷ [])
        ∷ [])
      new_tx_store)
run_ops-Indexed_example =
    run_ops-Indexed
      (add_op (payment 1) 20
        ∷ add_op (payment 2) 10
        ∷ pop_op 1
        ∷ put_op ((2 ∷ []) ∷ [])
        ∷ remove_op ((1 ∷ []) ∷ [])
        ∷ [])
      new_tx_store new_tx_store-Indexed

run_op-Promise_example :
    Promise
      (pending_op ((1 ∷ []) ∷ []))
      (run_ops received new_tx_store)
      (run_op (pending_op ((1 ∷ []) ∷ [])) (run_ops received new_tx_store))
run_op-Promise_example =
    run_op-Promise (pending_op ((1 ∷ []) ∷ [])) (run_ops received new_tx_store) received-Indexed

none_missing :
    missing_txs
      (λ hash. same hash (3 ∷ []))
      (run_ops received new_tx_store)
      ((3 ∷ []) ∷ (1 ∷ []) ∷ [])
    ≡ []
unfolding missing_txs get_tx run_ops run_op add_new_tx push append_key set_index up less time_at
    swap swap_keys same has insert lookup
none_missing = refl

get_txs_to_execute-Splits_example :
    (txs : List Transaction) × (old : List Bytes) × (t : TxStore) × (get_txs_to_execute
        (λ hash. same hash (3 ∷ []))
        ((3 ∷ []) ∷ (1 ∷ []) ∷ [])
        (run_ops received new_tx_store)
      ≡ some ((txs, old), t))
    × Splits
        (λ hash. same hash (3 ∷ []))
        (run_ops received new_tx_store)
        ((3 ∷ []) ∷ (1 ∷ []) ∷ [])
        txs
        old
    × Holds
        (get_tx (run_ops received new_tx_store))
        (λ k.
          not (contains k ((3 ∷ []) ∷ (1 ∷ []) ∷ [])) && in_queue (run_ops received new_tx_store) k)
        t
get_txs_to_execute-Splits_example =
    get_txs_to_execute-Splits (λ hash. same hash (3 ∷ [])) ((3 ∷ []) ∷ (1 ∷ []) ∷ [])
      (run_ops received new_tx_store) received-Indexed none_missing
