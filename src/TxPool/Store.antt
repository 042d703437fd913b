-- ===== src/TxPool/Store.antt =====
-- The operations of `txStore` (txpool/txstore.go), each under its lock, and those of `TxPool`
-- (txpool/txpool.go) that read the storage beside it.
use svp_blockchain.Base.{
  ℕ, zero, suc, ◌-◌, Bool, true, false, Option, none, some, List, [], ◌∷◌, length, take, ltb,
  if◌then◌else◌,
}
use svp_blockchain.Base.Bytes.{Bytes, same}
use svp_blockchain.Base.Assoc.{lookup, insert, has, delete}
use svp_blockchain.Core.Transaction.{Transaction}
use svp_blockchain.TxPool.{TxItem, TxStore, index_of, push, pop, remove_at}

unfoldable pub add_new_tx : Transaction → ℕ → TxStore → TxStore
unfolding has insert push
add_new_tx tx now st =
    let entered : TxStore = record st {
      tx_items = insert tx.hash (record { tx = tx; received_time = now; index = none }) st.tx_items;
    } in
    if has tx.hash st.tx_items then st else push tx.hash entered

-- `count` rounds of the loop of `popTxsFromQueue`
unfoldable pub pop_count : ℕ → TxStore → List (Option Bytes) × TxStore
unfolding pop
pop_count zero st = ([], st)
pop_count (suc count) st =
    let first = pop st in let later = pop_count count first.1 in (first.0 ∷ later.0, later.1)

abbrev pub min_of : ℕ → ℕ → ℕ
min_of a b = if ltb a b then a else b

-- the keys, which are the hashes of the items
unfoldable pub pop_txs_from_queue : ℕ → TxStore → List (Option Bytes) × TxStore
unfolding pop_count
pop_txs_from_queue max st = pop_count (min_of (length st.txq) max) st

unfoldable pub get_txs_from_queue : ℕ → TxStore → List Bytes
get_txs_from_queue max st = take (min_of (length st.txq) max) st.txq

-- one round of the loop of `putTxsToQueue`
unfoldable pub put_tx : Bytes → Option ℕ → TxStore → TxStore
unfolding has push
put_tx key (some i) st = st
put_tx key none st = let pushed = push key st in if has key st.tx_items then pushed else st

unfoldable pub put_txs_to_queue : List Bytes → TxStore → TxStore
unfolding put_tx index_of
put_txs_to_queue [] st = st
put_txs_to_queue (key ∷ rest) st = put_txs_to_queue rest (put_tx key (index_of st key) st)

-- one round of the loop of `setTxsPending`
unfoldable pub take_out : Option ℕ → TxStore → TxStore
unfolding remove_at
take_out none st = st
take_out (some i) st = remove_at i st

unfoldable pub set_txs_pending : List Bytes → TxStore → TxStore
unfolding take_out index_of
set_txs_pending [] st = st
set_txs_pending (key ∷ rest) st = set_txs_pending rest (take_out (index_of st key) st)

-- one round of the loop of `removeTxs`
unfoldable pub remove_tx : Bytes → TxStore → TxStore
unfolding take_out index_of delete
remove_tx key st =
    let out = take_out (index_of st key) st in record out { tx_items = delete key out.tx_items }

unfoldable pub remove_txs : List Bytes → TxStore → TxStore
unfolding remove_tx
remove_txs [] st = st
remove_txs (key ∷ rest) st = remove_txs rest (remove_tx key st)

abbrev pub tx_in : Option TxItem → Option Transaction
tx_in none = none
tx_in (some item) = some item.tx

unfoldable pub get_tx : TxStore → Bytes → Option Transaction
unfolding lookup
get_tx st key = tx_in (lookup key st.tx_items)

pub data TxStatus : Type 0 where
  not_found queue pending committed : TxStatus

abbrev pub status_in : Option TxItem → TxStatus
status_in none = not_found
status_in (some item) = elim item.index [ none ↦ pending | some i ↦ queue ]

unfoldable pub get_tx_status : TxStore → Bytes → TxStatus
unfolding lookup
get_tx_status st key = status_in (lookup key st.tx_items)

pub record PoolStatus : Type 0 where
  pub total : ℕ
  pub pending_count : ℕ
  pub queue_count : ℕ

unfoldable pub get_status : TxStore → PoolStatus
get_status st = record {
  total = length st.tx_items;
  pending_count = length st.tx_items - length st.txq;
  queue_count = length st.txq;
}

-- What the pool does between its locks, in any order
pub data Op : Type 0 where
  add_op : Transaction → ℕ → Op
  pop_op : ℕ → Op
  put_op pending_op remove_op : List Bytes → Op

unfoldable pub run_op : Op → TxStore → TxStore
unfolding add_new_tx pop_txs_from_queue put_txs_to_queue set_txs_pending remove_txs
run_op (add_op tx now) st = add_new_tx tx now st
run_op (pop_op max) st = (pop_txs_from_queue max st).1
run_op (put_op keys) st = put_txs_to_queue keys st
run_op (pending_op keys) st = set_txs_pending keys st
run_op (remove_op keys) st = remove_txs keys st

unfoldable pub run_ops : List Op → TxStore → TxStore
unfolding run_op
run_ops [] st = st
run_ops (op ∷ rest) st = run_ops rest (run_op op st)

-- the loop of `requestTxList`: `none` is an index out of range, `false` the error
unfoldable pub check_tx_list : List Bytes → List Transaction → Option Bool
unfolding same
check_tx_list hashes [] = some true
check_tx_list [] (tx ∷ rest) = none
check_tx_list (hash ∷ hashes) (tx ∷ rest) =
    let later = check_tx_list hashes rest in if same hash tx.hash then later else some false
