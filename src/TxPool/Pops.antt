-- ===== src/TxPool/Pops.antt =====
-- `popTxsFromQueue` of txpool/txstore.go, and the operations of the store in any order.
use svp_blockchain.Base.{
  ℕ, zero, suc, ◌≤◌, ◌&&◌, ◌||◌, not, Bool, true, false, Bool-cases, inl, inr, Option, none, some,
  Option-cases, List, [], ◌∷◌, map, length, get_elem?, if◌then◌else◌, ◌≡◌, refl, ap, ◌∙◌, arith,
  All,
}
use svp_blockchain.Base.Bytes.{Bytes, same, same_iff, same_refl}
use svp_blockchain.Base.Keys.{contains, AllDistinct}
use svp_blockchain.TxPool.{TxStore, index_of, pop}
use svp_blockchain.TxPool.Store.{
  get_tx, pop_count, min_of, pop_txs_from_queue, Op, add_op, pop_op, put_op, pending_op, remove_op,
  run_op, run_ops,
}
use svp_blockchain.TxPool.Indexed.{Indexed, get_elem?-beyond}
use svp_blockchain.TxPool.Moves.{is_some, in_queue}
use svp_blockchain.TxPool.Queue.{without, pop-Becomes}
use svp_blockchain.TxPool.Known.{known, Holds, add_new_tx-Holds}
use svp_blockchain.TxPool.Refines.{set_txs_pending-Holds, remove_txs-Holds, put_txs_to_queue-Holds}

-- As many different hashes as are asked for, all of them from the queue, are returned and are pending then.
abbrev pub Pops : ℕ → TxStore → List (Option Bytes) × TxStore → Type 0
Pops count st r =
    (keys : List Bytes) × (r.0 ≡ map some keys)
    × (length keys ≡ count)
    × AllDistinct keys
    × All (λ k. in_queue st k ≡ true) keys
    × Holds (get_tx st) (λ k. not (contains k keys) && in_queue st k) r.1

not_among :
    (queued : Bytes → Bool) (key : Bytes) (keys : List Bytes)
    → All (λ k. queued k ≡ true) keys
    → queued key ≡ false
    → contains key keys ≡ false
unfolding contains
not_among queued key [] a e = refl
not_among queued key (k ∷ keys) a e =
    let ih = not_among queued key keys a.1 e in
    elim (Bool-cases (same k key)) [
      | inr s ↦ rw s ih
      | inl s ↦ absurd (let x = ap queued ((same_iff k key).0 s) in let y = a.0 in cc)
    ]

queued_before :
    (key : Bytes) (st t : TxStore) (keys : List Bytes)
    → ((k : Bytes) → in_queue t k ≡ without key st k)
    → All (λ k. in_queue t k ≡ true) keys
    → All (λ k. in_queue st k ≡ true) keys
queued_before key st t [] e a = tt
queued_before key st t (k ∷ keys) e a =
    (let x = e k in let y = a.0 in ground arith, queued_before key st t keys e a.1)

in_queue_at :
    (key : Bytes) (i : ℕ) (st : TxStore) → index_of st key ≡ some i → in_queue st key ≡ true
unfolding in_queue
in_queue_at key i st e = ap is_some e

pop_count-Pops :
    (count : ℕ) (st : TxStore)
    → Indexed st
    → count ≤ length st.txq
    → Pops count st (pop_count count st)
unfolding pop_count contains
pop_count-Pops zero st h le = ([], refl, refl, tt, tt, (h, (λ k. refl), (λ k. refl)))
pop_count-Pops (suc count) st h le = elim (Option-cases (get_elem? st.txq 0)) [
  | inl e ↦ absurd (let x = get_elem?-beyond st.txq 0 e in omega (arith, x, le))
  | inr (key, e) ↦
      let p = pop-Becomes key st h e in
      let t = (pop st).1 in
      let later = pop_count-Pops count t p.1.0 (let x = p.2 in omega arith) in
      let first_out : in_queue t key ≡ false = p.1.1 key ∙ rw (same_refl key) refl in
      let first_in : in_queue st key ≡ true = in_queue_at key 0 st ((h key 0).1 e) in
      (
        key ∷ later.0,
        ap (λ o. o ∷ (pop_count count t).0) p.0 ∙ ap (λ os. some key ∷ os) later.1,
        ap suc later.2,
        (not_among (in_queue t) key later.0 later.4 first_out, later.3),
        (first_in, queued_before key st t later.0 p.1.1 later.4),
        (
          later.5.0,
          (λ k. later.5.1 k ∙ p.1.2 k),
          (λ k. later.5.2 k ∙ ap (λ q. not (contains k later.0) && q) (p.1.1 k) ∙ ground arith),
        ),
      )
]

min_of-le : (a b : ℕ) → min_of a b ≤ a
min_of-le a b = ground arith

-- In a store in which every index is a place, popping gives as many different hashes as the queue has, at
-- most `max`; all of them were in the queue, they are pending afterwards, and nothing else changes.
pub pop_txs_from_queue-Pops :
    (max : ℕ) (st : TxStore)
    → Indexed st
    → Pops (min_of (length st.txq) max) st (pop_txs_from_queue max st)
unfolding pop_txs_from_queue
pop_txs_from_queue-Pops max st h =
    pop_count-Pops (min_of (length st.txq) max) st h (min_of-le (length st.txq) max)

-- What an operation promises of the store after it
abbrev pub Promise : Op → TxStore → TxStore → Type 0
Promise (add_op tx now) st =
    Holds (λ k. if not (known st tx.hash) && same tx.hash k then some tx else get_tx st k)
      (λ k. (not (known st tx.hash) && same tx.hash k) || in_queue st k)
Promise (pop_op max) st =
    λ t. Pops (min_of (length st.txq) max) st ((pop_txs_from_queue max st).0, t)
Promise (put_op keys) st = Holds (get_tx st) (λ k. (contains k keys && known st k) || in_queue st k)
Promise (pending_op keys) st = Holds (get_tx st) (λ k. not (contains k keys) && in_queue st k)
Promise (remove_op keys) st =
    Holds (λ k. if contains k keys then none else get_tx st k)
      (λ k. not (contains k keys) && in_queue st k)

-- In a store in which every index is a place, every operation does what it promises: which transactions
-- are known and which of them are in the queue change as described for the listed hashes alone, and every
-- index is a place again.
pub run_op-Promise : (op : Op) (st : TxStore) → Indexed st → Promise op st (run_op op st)
unfolding run_op
run_op-Promise (add_op tx now) st h = add_new_tx-Holds tx now st h
run_op-Promise (pop_op max) st h = pop_txs_from_queue-Pops max st h
run_op-Promise (put_op keys) st h = put_txs_to_queue-Holds keys st h
run_op-Promise (pending_op keys) st h = set_txs_pending-Holds keys st h
run_op-Promise (remove_op keys) st h = remove_txs-Holds keys st h

run_op-Indexed : (op : Op) (st : TxStore) → Indexed st → Indexed (run_op op st)
run_op-Indexed (add_op tx now) st h = (run_op-Promise (add_op tx now) st h).0
run_op-Indexed (pop_op max) st h = (run_op-Promise (pop_op max) st h).5.0
run_op-Indexed (put_op keys) st h = (run_op-Promise (put_op keys) st h).0
run_op-Indexed (pending_op keys) st h = (run_op-Promise (pending_op keys) st h).0
run_op-Indexed (remove_op keys) st h = (run_op-Promise (remove_op keys) st h).0

-- Every operation, in any order, keeps the index of every item its place in the queue: an item has an index
-- exactly where the queue has its hash at that place.
pub run_ops-Indexed : (ops : List Op) (st : TxStore) → Indexed st → Indexed (run_ops ops st)
unfolding run_ops
run_ops-Indexed [] st h = h
run_ops-Indexed (op ∷ rest) st h = run_ops-Indexed rest (run_op op st) (run_op-Indexed op st h)
