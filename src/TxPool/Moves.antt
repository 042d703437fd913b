-- ===== src/TxPool/Moves.antt =====
-- The heap of txpool/txstore.go moves items within the queue; pushing and removing change one item.
use svp_blockchain.Base.{
  ℕ, zero, suc, ◌+◌, ◌*◌, ◌-◌, ◌/◌, ◌&&◌, Bool, true, false, Bool-cases, inl, inr, Option, none,
  some, Option-cases, length, get_elem?, set, ltb, ◌==◌, if◌then◌else◌, ◌≡◌, refl, ap, ◌∙◌, arith,
}
use svp_blockchain.Base.Bytes.{Bytes, same, same_iff}
use svp_blockchain.Base.Assoc.{Assoc, lookup}
use svp_blockchain.TxPool.{
  TxItem, TxStore, set_index, index_of, swap_keys, swap, up, down, child, less,
}
use svp_blockchain.TxPool.Store.{tx_in, get_tx}
use svp_blockchain.TxPool.Indexed.{
  Indexed, with_index, lookup-set_index, index_of-swap_keys, swap_keys-Indexed, length-set,
}

abbrev pub is_some : Option ℕ → Bool
is_some none = false
is_some (some i) = true

unfoldable pub in_queue : TxStore → Bytes → Bool
unfolding index_of
in_queue st k = is_some (index_of st k)

-- The second store has the items of the first with the same ones in the queue.
abbrev pub Moved : TxStore → TxStore → Type 0
Moved st t =
    Indexed t
    × ((k : Bytes) → in_queue t k ≡ in_queue st k)
    × (length t.txq ≡ length st.txq)
    × ((k : Bytes) → get_tx t k ≡ get_tx st k)

pub Moved-refl : (st : TxStore) → Indexed st → Moved st st
Moved-refl st h = (h, λ k. refl, refl, λ k. refl)

pub Moved-trans : (s t u : TxStore) → Moved s t → Moved t u → Moved s u
Moved-trans s t u a b = (b.0, λ k. b.1 k ∙ a.1 k, b.2 ∙ a.2, λ k. b.3 k ∙ a.3 k)

pub get_tx-set_index :
    (key k : Bytes) (index : Option ℕ) (m : Assoc TxItem)
    → tx_in (lookup k (set_index key index m)) ≡ tx_in (lookup k m)
get_tx-set_index key k index m =
    ap tx_in (lookup-set_index key k index m) ∙ same_tx (same key k) (lookup k m)
  where
    same_tx : (t : Bool) (o : Option TxItem) → tx_in (if t then with_index index o else o) ≡ tx_in o
    same_tx true none = refl
    same_tx true (some item) = refl
    same_tx false o = refl

swap_keys-Moved :
    (st : TxStore) (i j : ℕ) (a b : Bytes)
    → Indexed st
    → get_elem? st.txq i ≡ some a
    → get_elem? st.txq j ≡ some b
    → Moved st (swap_keys i j (some a) (some b) st)
unfolding in_queue get_tx swap_keys
swap_keys-Moved st i j a b h ea eb =
    let ia = (h a i).1 ea in
    let ib = (h b j).1 eb in
    (
      swap_keys-Indexed st i j a b h ea eb,
      λ k.
          ap is_some (index_of-swap_keys st i j a b k ia ib)
          ∙ ground (arith, same_iff a k, same_iff b k),
      length-set (set st.txq i b) j a ∙ length-set st.txq i b,
      λ k.
          get_tx-set_index a k (some j) (set_index b (some i) st.tx_items)
          ∙ get_tx-set_index b k (some i) st.tx_items,
    )

pub swap-Moved : (st : TxStore) (i j : ℕ) → Indexed st → Moved st (swap i j st)
unfolding swap swap_keys
swap-Moved st i j h = elim (Option-cases (get_elem? st.txq i)) [
  | inl e ↦ rw e (Moved-refl st h)
  | inr (a, ea) ↦ elim (Option-cases (get_elem? st.txq j)) [
    | inl e ↦ rw (ea, e) (Moved-refl st h)
    | inr (b, eb) ↦ rw (ea, eb) (swap_keys-Moved st i j a b h ea eb)
  ]
]

pub up-Moved : (fuel j : ℕ) (st : TxStore) → Indexed st → Moved st (up fuel j st)
unfolding up
up-Moved zero j st h = Moved-refl st h
up-Moved (suc fuel) j st h =
    let i = (j - 1) / 2 in
    let once = swap-Moved st i j h in
    elim (Bool-cases (j == 0)) [
      | inl e ↦ rw e (Moved-refl st h)
      | inr e ↦ elim (Bool-cases (less st j i)) [
        | inr l ↦ rw (e, l) (Moved-refl st h)
        | inl l ↦
            rw (e, l)
              (Moved-trans st (swap i j st) (up fuel i (swap i j st)) once
                (up-Moved fuel i (swap i j st) once.0))
      ]
    ]

pub down-Moved : (fuel i n : ℕ) (st : TxStore) → Indexed st → Moved st (down fuel i n st).0
unfolding down
down-Moved zero i n st h = Moved-refl st h
down-Moved (suc fuel) i n st h =
    let j = child i n st in
    let once = swap-Moved st i j h in
    elim (Bool-cases (ltb (2 * i + 1) n && less st j i)) [
      | inr l ↦ rw l (Moved-refl st h)
      | inl l ↦ rw l (
          Moved-trans st (swap i j st) (down fuel j n (swap i j st)).0 once
            (down-Moved fuel j n (swap i j st) once.0))
    ]
