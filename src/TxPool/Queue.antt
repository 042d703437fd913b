-- ===== src/TxPool/Queue.antt =====
-- What pushing and removing one item does to the queue of txpool/txstore.go.
use svp_blockchain.Base.{
  ℕ, zero, suc, ◌+◌, ◌-◌, ◌||◌, Bool, false, Bool-cases, inl, inr, none, some, Option-cases, length,
  length-take, get_elem?, ltb, if◌then◌else◌, ◌≡◌, refl, sym, ap, ◌∙◌, arith,
}
use svp_blockchain.Base.Bytes.{Bytes, same, same_iff}
use svp_blockchain.Base.Assoc.{lookup}
use svp_blockchain.TxPool.{
  TxItem, TxStore, set_index, index_in, index_of, swap, append_key, drop_last, last_key, down, push,
  pop, settle, remove_at,
}
use svp_blockchain.TxPool.Store.{get_tx, take_out}
use svp_blockchain.TxPool.Indexed.{
  Indexed, index_in-set_index, present, get_elem?-append, get_elem?-take, get_elem?-bound,
}
use svp_blockchain.TxPool.Moves.{
  is_some, in_queue, get_tx-set_index, up-Moved, down-Moved, swap-Moved,
}
use svp_blockchain.TxPool.Places.{settle-Moved, settle_last, down_apart, swap_last}

-- The second store has the items of the first, with those in the queue that `queued` says.
abbrev pub Becomes : TxStore → (Bytes → Bool) → TxStore → Type 0
Becomes st queued t =
    Indexed t × ((k : Bytes) → in_queue t k ≡ queued k) × ((k : Bytes) → get_tx t k ≡ get_tx st k)

abbrev pub without : Bytes → TxStore → Bytes → Bool
without key st k = if same key k then false else in_queue st k

append_key-Indexed :
    (key : Bytes) (item : TxItem) (st : TxStore)
    → Indexed st
    → lookup key st.tx_items ≡ some item
    → index_of st key ≡ none
    → Becomes st (λ k. same key k || in_queue st k) (append_key key st)
unfolding append_key index_of in_queue get_tx
append_key-Indexed key item st h e out =
    let n = length st.txq in
    let index_at : (k : Bytes)
        → index_in (lookup k (set_index key (some n) st.tx_items))
          ≡ (if same key k then some n else index_of st k) =
      λ k. index_in-set_index key k (some n) item st.tx_items e in
    (
      λ k x.
          rw (index_at k, get_elem?-append st.txq key x)
            (ground (arith, same_iff key k, h k x, h key x, get_elem?-bound st.txq x k)),
      λ k. ap is_some (index_at k) ∙ ground arith,
      λ k. get_tx-set_index key k (some n) st.tx_items,
    )

pub push-Becomes :
    (key : Bytes) (item : TxItem) (st : TxStore)
    → Indexed st
    → lookup key st.tx_items ≡ some item
    → index_of st key ≡ none
    → Becomes st (λ k. same key k || in_queue st k) (push key st)
unfolding push
push-Becomes key item st h e out =
    let a = append_key-Indexed key item st h e out in
    let m = up-Moved (length st.txq + 1) (length st.txq) (append_key key st) a.0 in
    (m.0, λ k. m.1 k ∙ a.1 k, λ k. m.3 k ∙ a.2 k)

drop_last-Becomes :
    (key : Bytes) (st : TxStore)
    → Indexed st
    → get_elem? st.txq (length st.txq - 1) ≡ some key
    → Becomes st (without key st) (drop_last (some key) st)
unfolding drop_last index_of in_queue get_tx
drop_last-Becomes key st h e =
    let n = length st.txq - 1 in
    let place = (h key n).1 e in
    let p = present st key n place in
    let index_at : (k : Bytes)
        → index_in (lookup k (set_index key none st.tx_items))
          ≡ (if same key k then none else index_of st k) =
      λ k. index_in-set_index key k none p.0 st.tx_items p.1 in
    (
      λ k x.
          rw (index_at k, get_elem?-take st.txq n x)
            (ground
              (arith, same_iff key k, h k x, h key x, h k n, e, place, get_elem?-bound st.txq x k)),
      λ k. ap is_some (index_at k) ∙ ground arith,
      λ k. get_tx-set_index key k none st.tx_items,
    )

remove_at-Becomes :
    (i : ℕ) (key : Bytes) (st : TxStore)
    → Indexed st
    → get_elem? st.txq i ≡ some key
    → Becomes st (without key st) (remove_at i st)
unfolding remove_at last_key
remove_at-Becomes i key st h e =
    let s = settle i st in
    let m = settle-Moved i st h in
    let last_place : get_elem? s.txq (length s.txq - 1) ≡ some key =
      ap (λ n. get_elem? s.txq (n - 1)) m.2 ∙ settle_last i st key e in
    let d = drop_last-Becomes key s m.0 last_place in
    rw last_place
      (d.0, λ k. d.1 k ∙ ap (λ q. if same key k then false else q) (m.1 k), λ k. d.2 k ∙ m.3 k)

pub take_out-Becomes :
    (key : Bytes) (st : TxStore)
    → Indexed st
    → Becomes st (without key st) (take_out (index_of st key) st)
unfolding take_out in_queue
take_out-Becomes key st h = elim (Option-cases (index_of st key)) [
  | inr (i, e) ↦ rw e (remove_at-Becomes i key st h ((h key i).0 e))
  | inl e ↦ rw e (
    h,
    λ k. elim (Bool-cases (same key k)) [
      | inl s ↦ rw s (ap (λ j. is_some (index_of st j)) (sym ((same_iff key k).0 s)) ∙ ap is_some e)
      | inr s ↦ rw s refl
    ],
    λ k. refl,
  )
]

-- `heap.Pop` of a queue that is not empty gives the first key and takes it out.
pub pop-Becomes :
    (key : Bytes) (st : TxStore)
    → Indexed st
    → get_elem? st.txq 0 ≡ some key
    → ((pop st).0 ≡ some key)
      × Becomes st (without key st) (pop st).1
      × (length (pop st).1.txq ≡ length st.txq - 1)
unfolding pop last_key down drop_last
pop-Becomes key st h e =
    let n = length st.txq - 1 in
    let bound = get_elem?-bound st.txq 0 key e in
    let first = swap-Moved st 0 n h in
    let s = (down n 0 n (swap 0 n st)).0 in
    let second = down-Moved n 0 n (swap 0 n st) first.0 in
    let at_last : get_elem? (swap 0 n st).txq n ≡ some key = swap_last st 0 n key e (omega arith) in
    let still : get_elem? s.txq n ≡ some key = elim (Bool-cases (ltb 0 n)) [
      | inl more ↦ down_apart n 0 n (swap 0 n st) (ground arith) ∙ at_last
      | inr one ↦ let z : n ≡ 0 = ground arith in alone n z at_last
    ] in
    let last_place : get_elem? s.txq (length s.txq - 1) ≡ some key =
      ap (λ m. get_elem? s.txq (m - 1)) (second.2 ∙ first.2) ∙ still in
    let d = drop_last-Becomes key s second.0 last_place in
    rw last_place (
      refl,
      (
        d.0,
        λ k. d.1 k ∙ ap (λ q. if same key k then false else q) (second.1 k ∙ first.1 k),
        λ k. d.2 k ∙ (second.3 k ∙ first.3 k),
      ),
      dropped s key (second.2 ∙ first.2),
    )
  where
    dropped :
        (s : TxStore) (key : Bytes)
        → length s.txq ≡ length st.txq
        → length (drop_last (some key) s).txq ≡ length st.txq - 1
    dropped s key same_length =
        length-take (length s.txq - 1) s.txq (omega arith) ∙ ap (λ n. n - 1) same_length

    alone :
        (n : ℕ)
        → n ≡ 0
        → get_elem? (swap 0 (length st.txq - 1) st).txq n ≡ some key
        → get_elem? (down n 0 n (swap 0 (length st.txq - 1) st)).0.txq n ≡ some key
    alone zero z a = a
    alone (suc n) z a = absurd (omega arith)
