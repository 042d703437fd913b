-- ===== src/TxPool/Places.antt =====
-- Before `heap.Remove` and `heap.Pop` drop the last place of the queue of txpool/txstore.go, the item to
-- remove stands there.
use svp_blockchain.Base.{
  ℕ, zero, suc, ◌+◌, ◌*◌, ◌-◌, ◌/◌, ◌<◌, ◌≢◌, ◌&&◌, true, false, Bool-cases, inl, inr, some,
  Option-cases, length, get_elem?, ltb, ◌==◌, ◌≡◌, refl, ap, ◌∙◌, arith,
}
use svp_blockchain.Base.Bytes.{Bytes}
use svp_blockchain.TxPool.{TxStore, swap_keys, swap, up, down, child, less, settle}
use svp_blockchain.TxPool.Indexed.{Indexed, place-swap_keys, get_elem?-bound, get_elem?-beyond}
use svp_blockchain.TxPool.Moves.{Moved, Moved-refl, Moved-trans, swap-Moved, up-Moved, down-Moved}

swap_apart :
    (st : TxStore) (i j x : ℕ) → x ≢ i → x ≢ j → get_elem? (swap i j st).txq x ≡ get_elem? st.txq x
unfolding swap swap_keys
swap_apart st i j x ni nj = elim (Option-cases (get_elem? st.txq i)) [
  | inl e ↦ rw e refl
  | inr (a, ea) ↦ elim (Option-cases (get_elem? st.txq j)) [
    | inl e ↦ rw (ea, e) refl
    | inr (b, eb) ↦
        rw (ea, eb)
          (let not_i : (x == i) ≡ false = ground arith in
            let not_j : (x == j) ≡ false = ground arith in
            place-swap_keys st i j a b x ea eb ∙ rw (not_i, not_j) refl)
  ]
]

pub swap_last :
    (st : TxStore) (i j : ℕ) (a : Bytes)
    → get_elem? st.txq i ≡ some a
    → j < length st.txq
    → get_elem? (swap i j st).txq j ≡ some a
unfolding swap swap_keys
swap_last st i j a e lt = elim (Option-cases (get_elem? st.txq j)) [
  | inl none_there ↦ absurd (let le = get_elem?-beyond st.txq j none_there in omega (arith, le, lt))
  | inr (b, eb) ↦
      rw (e, eb)
        (let at : (j == j) ≡ true = ground arith in place-swap_keys st i j a b j e eb ∙ rw at refl)
]

up_apart :
    (fuel j x : ℕ) (st : TxStore) → j < x → get_elem? (up fuel j st).txq x ≡ get_elem? st.txq x
unfolding up
up_apart zero j x st lt = refl
up_apart (suc fuel) j x st lt =
    let i = (j - 1) / 2 in
    elim (Bool-cases (j == 0)) [
      | inl e ↦ rw e refl
      | inr e ↦ elim (Bool-cases (less st j i)) [
        | inr l ↦ rw (e, l) refl
        | inl l ↦
            rw (e, l)
              (up_apart fuel i x (swap i j st) (omega arith)
                ∙ swap_apart st i j x (λ w. omega arith) (λ w. omega arith))
      ]
    ]

pub child-lt : (i n : ℕ) (st : TxStore) → 2 * i + 1 < n → child i n st < n
unfolding child
child-lt i n st lt = ground arith

pub down_apart :
    (fuel i n : ℕ) (st : TxStore)
    → i < n
    → get_elem? (down fuel i n st).0.txq n ≡ get_elem? st.txq n
unfolding down
down_apart zero i n st lt = refl
down_apart (suc fuel) i n st lt =
    let j = child i n st in
    elim (Bool-cases (ltb (2 * i + 1) n && less st j i)) [
      | inr l ↦ rw l refl
      | inl l ↦
          let below : 2 * i + 1 < n = ground arith in
          let lt_j = child-lt i n st below in
          rw l (
            down_apart fuel j n (swap i j st) lt_j
            ∙ swap_apart st i j n (λ w. omega arith) (λ w. omega arith))
    ]

pub settle-Moved : (i : ℕ) (st : TxStore) → Indexed st → Moved st (settle i st)
unfolding settle
settle-Moved i st h =
    let n = length st.txq - 1 in
    let first = swap-Moved st i n h in
    let sunk = down n i n (swap i n st) in
    let second : Moved st sunk.0 =
      Moved-trans st (swap i n st) sunk.0 first (down-Moved n i n (swap i n st) first.0) in
    elim (Bool-cases (n == i)) [
      | inl e ↦ rw e (Moved-refl st h)
      | inr e ↦ elim (Bool-cases sunk.1) [
        | inl d ↦ rw (e, d) second
        | inr d ↦
            rw (e, d)
              (Moved-trans st sunk.0 (up (i + 1) i sunk.0) second
                (up-Moved (i + 1) i sunk.0 second.0))
      ]
    ]

pub settle_last :
    (i : ℕ) (st : TxStore) (a : Bytes)
    → get_elem? st.txq i ≡ some a
    → get_elem? (settle i st).txq (length st.txq - 1) ≡ some a
unfolding settle
settle_last i st a e =
    let n = length st.txq - 1 in
    let bound = get_elem?-bound st.txq i a e in
    let sunk = down n i n (swap i n st) in
    elim (Bool-cases (n == i)) [
      | inl h ↦
          let same_place : n ≡ i = ground arith in
          rw h (ap (λ x. get_elem? st.txq x) same_place ∙ e)
      | inr h ↦
          let lt : i < n = ground arith in
          let second : get_elem? sunk.0.txq n ≡ some a =
            down_apart n i n (swap i n st) lt ∙ swap_last st i n a e (omega arith) in
          elim (Bool-cases sunk.1) [
            | inl d ↦ rw (h, d) second
            | inr d ↦ rw (h, d) (up_apart (i + 1) i n sunk.0 lt ∙ second)
          ]
    ]
