-- ===== src/TxPool.antt =====
-- txpool/txstore.go with the heap of Go's container/heap. An item is known by the hash of its transaction,
-- which is its key in the map; the queue holds the keys. `addNewTx` enters the item before it is pushed, which
-- under the lock is no different.
pub mod Store
pub mod Indexed
pub mod Moves
pub mod Places
pub mod Queue
pub mod Known
pub mod Refines
pub mod Pops
pub mod Fuel
pub mod Pool
pub mod Tests
use svp_blockchain.Base.{
  ℕ, zero, suc, ◌+◌, ◌*◌, ◌-◌, ◌/◌, Bool, true, false, ◌&&◌, Option, none, some, List, [], ◌∷◌,
  ◌++◌, length, get_elem?, take, set, ltb, leb, ◌==◌, if◌then◌else◌,
}
use svp_blockchain.Base.Bytes.{Bytes, same}
use svp_blockchain.Base.Assoc.{Assoc, lookup, insert, has, delete}
use svp_blockchain.Core.Transaction.{Transaction}

-- An index of -1 is `none`.
pub record TxItem : Type 0 where
  pub tx : Transaction
  pub received_time : ℕ
  pub index : Option ℕ

pub record TxStore : Type 0 where
  pub txq : List Bytes
  pub tx_items : Assoc TxItem

abbrev pub new_tx_store : TxStore
new_tx_store = record { txq = []; tx_items = [] }

unfoldable pub set_index : Bytes → Option ℕ → Assoc TxItem → Assoc TxItem
set_index key index [] = []
set_index key index ((k, item) ∷ rest) =
    if same k key
    then (k, record item { index = index }) ∷ rest
    else (k, item) ∷ set_index key index rest

abbrev pub index_in : Option TxItem → Option ℕ
index_in none = none
index_in (some item) = item.index

-- the index of the item with the key, if it is there and in the queue
unfoldable pub index_of : TxStore → Bytes → Option ℕ
unfolding lookup
index_of st key = index_in (lookup key st.tx_items)

abbrev pub time_in : Option TxItem → ℕ
time_in none = 0
time_in (some item) = item.received_time

unfoldable pub time_at : TxStore → Option Bytes → ℕ
unfolding lookup
time_at st none = 0
time_at st (some key) = time_in (lookup key st.tx_items)

unfoldable pub less : TxStore → ℕ → ℕ → Bool
unfolding time_at
less st i j = ltb (time_at st (get_elem? st.txq i)) (time_at st (get_elem? st.txq j))

-- the keys at the two places; the heap asks for places in the queue only
unfoldable pub swap_keys : ℕ → ℕ → Option Bytes → Option Bytes → TxStore → TxStore
unfolding set_index
swap_keys i j (some a) (some b) st = record {
  txq = set (set st.txq i b) j a;
  tx_items = set_index a (some j) (set_index b (some i) st.tx_items);
}
swap_keys i j (some a) none st = st
swap_keys i j none b st = st

unfoldable pub swap : ℕ → ℕ → TxStore → TxStore
unfolding swap_keys
swap i j st = swap_keys i j (get_elem? st.txq i) (get_elem? st.txq j) st

-- `txQueue.Push`
unfoldable pub append_key : Bytes → TxStore → TxStore
unfolding set_index
append_key key st = record {
  txq = st.txq ++ key ∷ [];
  tx_items = set_index key (some (length st.txq)) st.tx_items;
}

-- `txQueue.Pop`, with the key that the last place has
unfoldable pub drop_last : Option Bytes → TxStore → TxStore
unfolding set_index
drop_last none st = st
drop_last (some key) st = record {
  txq = take (length st.txq - 1) st.txq;
  tx_items = set_index key none st.tx_items;
}

unfoldable pub last_key : TxStore → Option Bytes
last_key st = get_elem? st.txq (length st.txq - 1)

-- `up` of container/heap, on fuel
unfoldable pub up : ℕ → ℕ → TxStore → TxStore
unfolding less swap
up zero j st = st
up (suc fuel) j st =
    let i = (j - 1) / 2 in
    let later = up fuel i (swap i j st) in if j == 0 then st else if less st j i then later else st

-- the smaller child of `i` below `n`
unfoldable pub child : ℕ → ℕ → TxStore → ℕ
unfolding less
child i n st = if ltb (2 * i + 2) n && less st (2 * i + 2) (2 * i + 1) then 2 * i + 2 else 2 * i + 1

-- `down` of container/heap, on fuel; whether it moved
unfoldable pub down : ℕ → ℕ → ℕ → TxStore → TxStore × Bool
unfolding child less swap
down zero i n st = (st, false)
down (suc fuel) i n st =
    let j = child i n st in
    let later = down fuel j n (swap i j st) in
    if ltb (2 * i + 1) n && less st j i then (later.0, true) else (st, false)

-- `heap.Push`
unfoldable pub push : Bytes → TxStore → TxStore
unfolding append_key up
push key st = up (length st.txq + 1) (length st.txq) (append_key key st)

-- `heap.Pop` of a queue that is not empty
unfoldable pub pop : TxStore → Option Bytes × TxStore
unfolding swap down last_key drop_last
pop st =
    let n = length st.txq - 1 in
    let moved = (down n 0 n (swap 0 n st)).0 in (last_key moved, drop_last (last_key moved) moved)

-- what `heap.Remove` does before the last place is dropped
unfoldable pub settle : ℕ → TxStore → TxStore
unfolding swap down up
settle i st =
    let n = length st.txq - 1 in
    let sunk = down n i n (swap i n st) in
    let raised = up (i + 1) i sunk.0 in if n == i then st else if sunk.1 then sunk.0 else raised

-- `heap.Remove`
unfoldable pub remove_at : ℕ → TxStore → TxStore
unfolding settle last_key drop_last
remove_at i st = let settled = settle i st in drop_last (last_key settled) settled
