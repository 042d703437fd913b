-- ===== src/TxPool/Refines.antt =====
-- The operations of `txStore` of txpool/txstore.go against what they promise: which transactions are known,
-- and which of them are in the queue.
use svp_blockchain.Base.{
  ℕ, ◌&&◌, ◌||◌, not, true, false, Bool-cases, inl, inr, Option, none, some, Option-cases, List, [],
  ◌∷◌, if◌then◌else◌, ◌≡◌, refl, sym, ap, ◌∙◌, arith,
}
use svp_blockchain.Base.Bytes.{Bytes, same, same_iff, same_refl}
use svp_blockchain.Base.Keys.{contains}
use svp_blockchain.Base.Assoc.{lookup, has, delete, lookup-delete}
use svp_blockchain.TxPool.{TxItem, TxStore, index_in, index_of}
use svp_blockchain.TxPool.Store.{
  tx_in, get_tx, take_out, put_tx, put_txs_to_queue, set_txs_pending, remove_tx, remove_txs,
}
use svp_blockchain.TxPool.Indexed.{Indexed}
use svp_blockchain.TxPool.Moves.{is_some, in_queue}
use svp_blockchain.TxPool.Queue.{without, push-Becomes, take_out-Becomes}
use svp_blockchain.TxPool.Known.{is_tx, known, has-known, Holds}

pub set_txs_pending-Holds :
    (keys : List Bytes) (st : TxStore)
    → Indexed st
    → Holds (get_tx st) (λ k. not (contains k keys) && in_queue st k) (set_txs_pending keys st)
unfolding set_txs_pending contains
set_txs_pending-Holds [] st h = (h, (λ k. refl), (λ k. refl))
set_txs_pending-Holds (key ∷ rest) st h =
    let out = take_out-Becomes key st h in
    let later = set_txs_pending-Holds rest (take_out (index_of st key) st) out.0 in
    (
      later.0,
      (λ k. later.1 k ∙ out.2 k),
      (λ k. later.2 k ∙ ap (λ q. not (contains k rest) && q) (out.1 k) ∙ ground arith),
    )

none_of : (o : Option ℕ) → is_some o ≡ false → o ≡ none
none_of none e = refl
none_of (some i) e = absurd (cc)

remove_tx-Holds :
    (key : Bytes) (st : TxStore)
    → Indexed st
    → Holds (λ k. if same key k then none else get_tx st k) (without key st) (remove_tx key st)
unfolding remove_tx get_tx in_queue index_of
remove_tx-Holds key st h =
    let o = take_out (index_of st key) st in
    let out = take_out-Becomes key st h in
    let found : (k : Bytes)
        → lookup k (delete key o.tx_items) ≡ (if same key k then none else lookup k o.tx_items) =
      λ k. lookup-delete key k o.tx_items in
    let unqueued : index_in (lookup key o.tx_items) ≡ none =
      none_of (index_in (lookup key o.tx_items)) (out.1 key ∙ rw (same_refl key) refl) in
    let same_index : (k : Bytes)
        → index_in (lookup k (delete key o.tx_items)) ≡ index_in (lookup k o.tx_items) =
      λ k. ap index_in (found k) ∙ elim (Bool-cases (same key k)) [
        | inr s ↦ rw s refl
        | inl s ↦
            rw s (
              sym
                (ap (λ j. index_in (lookup j o.tx_items)) (sym ((same_iff key k).0 s)) ∙ unqueued))
      ] in
    (
      (λ k x. rw (same_index k) (out.0 k x)),
      (λ k.
          ap tx_in (found k)
          ∙ elim (Bool-cases (same key k)) [ inl s ↦ rw s refl | inr s ↦ rw s (out.2 k) ]),
      (λ k. ap is_some (same_index k) ∙ out.1 k),
    )

pub remove_txs-Holds :
    (keys : List Bytes) (st : TxStore)
    → Indexed st
    → Holds
        (λ k. if contains k keys then none else get_tx st k)
        (λ k. not (contains k keys) && in_queue st k)
        (remove_txs keys st)
unfolding remove_txs contains
remove_txs-Holds [] st h = (h, (λ k. refl), (λ k. refl))
remove_txs-Holds (key ∷ rest) st h =
    let out = remove_tx-Holds key st h in
    let later = remove_txs-Holds rest (remove_tx key st) out.0 in
    (
      later.0,
      (λ k. later.1 k ∙ ap (λ o. if contains k rest then none else o) (out.1 k) ∙ ground arith),
      (λ k. later.2 k ∙ ap (λ q. not (contains k rest) && q) (out.2 k) ∙ ground arith),
    )

found_item :
    (st : TxStore) (k : Bytes)
    → has k st.tx_items ≡ true
    → (item : TxItem) × (lookup k st.tx_items ≡ some item)
unfolding get_tx
found_item st k e = elim (Option-cases (lookup k st.tx_items)) [
  | inr found ↦ found
  | inl h ↦ absurd (
      let unknown : known st k ≡ false = ap (λ o. is_tx (tx_in o)) h in
      let same_answer = has-known st k in cc)
]

put_tx-Holds :
    (key : Bytes) (st : TxStore)
    → Indexed st
    → Holds
        (get_tx st)
        (λ k. (same key k && known st k) || in_queue st k)
        (put_tx key (index_of st key) st)
unfolding put_tx in_queue
put_tx-Holds key st h = elim (Option-cases (index_of st key)) [
  | inr (i, e) ↦ rw e (
    h,
    (λ k. refl),
    (λ k. elim (Bool-cases (same key k)) [
      | inr s ↦ rw s refl
      | inl s ↦
          let here : index_of st k ≡ some i =
            ap (λ j. index_of st j) (sym ((same_iff key k).0 s)) ∙ e in
          rw (s, here) (ground arith)
    ]),
  )
  | inl e ↦ elim (Bool-cases (has key st.tx_items)) [
    | inr n ↦
        rw (e, n)
          (
            h,
            (λ k. refl),
            (λ k. elim (Bool-cases (same key k)) [
              | inr s ↦ rw s refl
              | inl s ↦
                  let unknown : known st k ≡ false =
                    ap (λ j. known st j) (sym ((same_iff key k).0 s))
                    ∙ sym (has-known st key)
                    ∙ n in
                  rw (s, unknown) refl
            ]),
          )
    | inl y ↦
        let item = found_item st key y in
        let p = push-Becomes key item.0 st h item.1 e in
        rw (e, y)
          (
            p.0,
            p.2,
            (λ k. p.1 k ∙ elim (Bool-cases (same key k)) [
              | inr s ↦ rw s refl
              | inl s ↦
                  let there : known st k ≡ true =
                    ap (λ j. known st j) (sym ((same_iff key k).0 s))
                    ∙ sym (has-known st key)
                    ∙ y in
                  rw (s, there) refl
            ]),
          )
  ]
]

pub put_txs_to_queue-Holds :
    (keys : List Bytes) (st : TxStore)
    → Indexed st
    → Holds
        (get_tx st)
        (λ k. (contains k keys && known st k) || in_queue st k)
        (put_txs_to_queue keys st)
unfolding put_txs_to_queue contains
put_txs_to_queue-Holds [] st h = (h, (λ k. refl), (λ k. refl))
put_txs_to_queue-Holds (key ∷ rest) st h =
    let out = put_tx-Holds key st h in
    let later = put_txs_to_queue-Holds rest (put_tx key (index_of st key) st) out.0 in
    (
      later.0,
      (λ k. later.1 k ∙ out.1 k),
      (λ k.
          later.2 k
          ∙ ap (λ t. (contains k rest && is_tx t) || in_queue (put_tx key (index_of st key) st) k)
              (out.1 k)
          ∙ ap (λ q. (contains k rest && known st k) || q) (out.2 k)
          ∙ ground arith),
    )
