-- ===== src/TxPool/Known.antt =====
-- What the pool of txpool/txstore.go knows, and how a new transaction changes it.
use svp_blockchain.Base.{
  ℕ, ◌&&◌, ◌||◌, not, Bool, true, false, Bool-cases, inl, inr, Option, none, some, [], ◌∷◌,
  if◌then◌else◌, ◌≡◌, refl, sym, ap, ◌∙◌,
}
use svp_blockchain.Base.Bytes.{Bytes, same, same_iff, same_refl}
use svp_blockchain.Base.Assoc.{Assoc, lookup, insert, has, lookup-insert, lookup_absent}
use svp_blockchain.Core.Transaction.{Transaction}
use svp_blockchain.TxPool.{TxItem, TxStore, index_in, index_of, push}
use svp_blockchain.TxPool.Store.{tx_in, get_tx, add_new_tx}
use svp_blockchain.TxPool.Indexed.{Indexed}
use svp_blockchain.TxPool.Moves.{is_some, in_queue}
use svp_blockchain.TxPool.Queue.{push-Becomes}

abbrev pub is_tx : Option Transaction → Bool
is_tx none = false
is_tx (some tx) = true

-- whether the pool knows a transaction with the hash
abbrev pub known : TxStore → Bytes → Bool
known st k = is_tx (get_tx st k)

pub has-known : (st : TxStore) (k : Bytes) → has k st.tx_items ≡ known st k
unfolding get_tx has
has-known st k = go st.tx_items
  where
    go : (m : Assoc TxItem) → has k m ≡ is_tx (tx_in (lookup k m))
    go [] = refl
    go ((j, item) ∷ m) = elim (Bool-cases (same j k)) [ inl e ↦ rw e refl | inr e ↦ rw e (go m) ]

-- Every index is a place, and the store has the transactions and the queue that are given.
abbrev pub Holds : (Bytes → Option Transaction) → (Bytes → Bool) → TxStore → Type 0
Holds txs queued t =
    Indexed t × ((k : Bytes) → get_tx t k ≡ txs k) × ((k : Bytes) → in_queue t k ≡ queued k)

add_absent :
    (tx : Transaction) (item : TxItem) (st : TxStore)
    → item.tx ≡ tx
    → item.index ≡ none
    → Indexed st
    → has tx.hash st.tx_items ≡ false
    → Holds
        (λ k. if same tx.hash k then some tx else get_tx st k)
        (λ k. same tx.hash k || in_queue st k)
        (push tx.hash (record st { tx_items = insert tx.hash item st.tx_items }))
unfolding index_of in_queue get_tx
add_absent tx item st is_tx_of fresh h e =
    let entered : TxStore = record st { tx_items = insert tx.hash item st.tx_items } in
    let gone = lookup_absent tx.hash st.tx_items e in
    let found : (k : Bytes)
        → lookup k entered.tx_items ≡ (if same tx.hash k then some item else lookup k st.tx_items) =
      λ k. lookup-insert tx.hash k item st.tx_items in
    let self : lookup tx.hash entered.tx_items ≡ some item =
      found tx.hash ∙ rw (same_refl tx.hash) refl in
    let same_index : (k : Bytes)
        → index_in (lookup k entered.tx_items) ≡ index_in (lookup k st.tx_items) =
      λ k. elim (Bool-cases (same tx.hash k)) [
        | inr s ↦ ap index_in (found k) ∙ rw s refl
        | inl s ↦
            ap index_in (found k)
            ∙ rw s (
                fresh
                ∙ sym (
                    ap index_in
                      (ap (λ j. lookup j st.tx_items) (sym ((same_iff tx.hash k).0 s)) ∙ gone)))
      ] in
    let indexed : Indexed entered = λ k x. rw (same_index k) (h k x) in
    let p = push-Becomes tx.hash item entered indexed self (ap index_in self ∙ fresh) in
    (
      p.0,
      λ k. p.2 k ∙ ap tx_in (found k) ∙ elim (Bool-cases (same tx.hash k)) [
        | inl s ↦ rw s (ap some is_tx_of)
        | inr s ↦ rw s refl
      ],
      λ k. p.1 k ∙ ap (λ o. same tx.hash k || is_some o) (same_index k),
    )

pub add_new_tx-Holds :
    (tx : Transaction) (now : ℕ) (st : TxStore)
    → Indexed st
    → Holds
        (λ k. if not (known st tx.hash) && same tx.hash k then some tx else get_tx st k)
        (λ k. (not (known st tx.hash) && same tx.hash k) || in_queue st k)
        (add_new_tx tx now st)
unfolding add_new_tx
add_new_tx-Holds tx now st h = elim (Bool-cases (has tx.hash st.tx_items)) [
  | inl e ↦
      let there : known st tx.hash ≡ true = sym (has-known st tx.hash) ∙ e in
      rw (e, there) (h, (λ k. refl), (λ k. refl))
  | inr e ↦
      let absent : known st tx.hash ≡ false = sym (has-known st tx.hash) ∙ e in
      rw (e, absent)
        (add_absent tx (record { tx = tx; received_time = now; index = none }) st refl refl h e)
]
