-- ===== src/TxPool/Indexed.antt =====
-- The index of every item of txpool/txstore.go is its place in the queue.
use svp_blockchain.Base.{
  ℕ, zero, suc, ◌≤◌, ◌<◌, ◌↔◌, ◌&&◌, Bool-cases, inl, inr, Option, none, some, Option-cases, List,
  [], ◌∷◌, ◌++◌, length, get_elem?, take, set, ltb, ◌==◌, if◌then◌else◌, ◌≡◌, refl, sym, ap, ◌∙◌,
  arith,
}
use svp_blockchain.Base.Bytes.{Bytes, same, same_iff}
use svp_blockchain.Base.Assoc.{Assoc, lookup}
use svp_blockchain.TxPool.{TxItem, TxStore, set_index, index_in, index_of, swap_keys}

abbrev pub with_index : Option ℕ → Option TxItem → Option TxItem
with_index index none = none
with_index index (some item) = some (record item { index = index })

pub lookup-set_index :
    (key k : Bytes) (index : Option ℕ) (m : Assoc TxItem)
    → lookup k (set_index key index m)
      ≡ (if same key k then with_index index (lookup k m) else lookup k m)
unfolding lookup set_index
lookup-set_index key k index [] = ground arith
lookup-set_index key k index ((j, item) ∷ m) =
    ground (arith, same_iff key k, same_iff j key, same_iff j k, lookup-set_index key k index m)

module _ {ℓ} {A : Type ℓ} where
  pub get_elem?-set :
      (xs : List A) (i x : ℕ) (v : A)
      → get_elem? (set xs i v) x
        ≡ (if (x == i) && ltb i (length xs) then some v else get_elem? xs x)
  get_elem?-set [] i x v = ground arith
  get_elem?-set (y ∷ xs) zero zero v = ground arith
  get_elem?-set (y ∷ xs) zero (suc x) v = ground arith
  get_elem?-set (y ∷ xs) (suc i) zero v = ground arith
  get_elem?-set (y ∷ xs) (suc i) (suc x) v = ground (arith, get_elem?-set xs i x v)

  pub get_elem?-append :
      (xs : List A) (v : A) (x : ℕ)
      → get_elem? (xs ++ v ∷ []) x ≡ (if x == length xs then some v else get_elem? xs x)
  get_elem?-append [] v zero = ground arith
  get_elem?-append [] v (suc x) = ground arith
  get_elem?-append (y ∷ xs) v zero = ground arith
  get_elem?-append (y ∷ xs) v (suc x) = ground (arith, get_elem?-append xs v x)

  pub get_elem?-take :
      (xs : List A) (n x : ℕ) → get_elem? (take n xs) x ≡ (if ltb x n then get_elem? xs x else none)
  get_elem?-take xs zero x = ground arith
  get_elem?-take [] (suc n) x = ground arith
  get_elem?-take (y ∷ xs) (suc n) zero = ground arith
  get_elem?-take (y ∷ xs) (suc n) (suc x) = ground (arith, get_elem?-take xs n x)

  pub length-set : (xs : List A) (i : ℕ) (v : A) → length (set xs i v) ≡ length xs
  length-set [] i v = refl
  length-set (y ∷ xs) zero v = refl
  length-set (y ∷ xs) (suc i) v = ap suc (length-set xs i v)

  pub get_elem?-bound : (xs : List A) (x : ℕ) (v : A) → get_elem? xs x ≡ some v → x < length xs
  get_elem?-bound [] x v e = ground arith
  get_elem?-bound (y ∷ xs) zero v e = ground arith
  get_elem?-bound (y ∷ xs) (suc x) v e = ground (arith, get_elem?-bound xs x v)

  pub get_elem?-beyond : (xs : List A) (x : ℕ) → get_elem? xs x ≡ none → length xs ≤ x
  get_elem?-beyond [] x e = omega arith
  get_elem?-beyond (y ∷ xs) zero e = ground arith
  get_elem?-beyond (y ∷ xs) (suc x) e = ground (arith, get_elem?-beyond xs x e)

-- An item has an index exactly where the queue has its key at that place.
abbrev pub Indexed : TxStore → Type 0
Indexed st = (k : Bytes) (x : ℕ) → (index_of st k ≡ some x) ↔ (get_elem? st.txq x ≡ some k)

-- `key` is there, and its index is set.
pub index_in-set_index :
    (key k : Bytes) (index : Option ℕ) (item : TxItem) (m : Assoc TxItem)
    → lookup key m ≡ some item
    → index_in (lookup k (set_index key index m))
      ≡ (if same key k then index else index_in (lookup k m))
index_in-set_index key k index item m e = elim (Bool-cases (same key k)) [
  | inr h ↦ rw (lookup-set_index key k index m, h) refl
  | inl h ↦
      let here : lookup k m ≡ some item = ap (λ j. lookup j m) (sym ((same_iff key k).0 h)) ∙ e in
      rw (lookup-set_index key k index m, h, here) refl
]

pub present :
    (st : TxStore) (k : Bytes) (x : ℕ)
    → index_of st k ≡ some x
    → (item : TxItem) × (lookup k st.tx_items ≡ some item)
unfolding index_of
present st k x e = elim (Option-cases (lookup k st.tx_items)) [
  | inr (item, h) ↦ (item, h)
  | inl h ↦ absurd (let z : index_in none ≡ some x = rw h at e in cc)
]

-- the index of a key after a swap
pub index_of-swap_keys :
    (st : TxStore) (i j : ℕ) (a b k : Bytes)
    → index_of st a ≡ some i
    → index_of st b ≡ some j
    → index_of (swap_keys i j (some a) (some b) st) k
      ≡ (if same a k then some j else if same b k then some i else index_of st k)
unfolding index_of swap_keys
index_of-swap_keys st i j a b k ea eb =
    let pa = present st a i ea in
    let pb = present st b j eb in
    let after = lookup-set_index b a (some i) st.tx_items in
    let still : (item : TxItem) × (lookup a (set_index b (some i) st.tx_items) ≡ some item) =
      elim (Bool-cases (same b a)) [
        | inl h ↦ (record (pa.0) { index = some i }, after ∙ rw (h, pa.1) refl)
        | inr h ↦ (pa.0, after ∙ rw (h, pa.1) refl)
      ] in
    index_in-set_index a k (some j) still.0 (set_index b (some i) st.tx_items) still.1
    ∙ ap (λ o. if same a k then some j else o)
        (index_in-set_index b k (some i) pb.0 st.tx_items pb.1)

pub place-swap_keys :
    (st : TxStore) (i j : ℕ) (a b : Bytes) (x : ℕ)
    → get_elem? st.txq i ≡ some a
    → get_elem? st.txq j ≡ some b
    → get_elem? (swap_keys i j (some a) (some b) st).txq x
      ≡ (if x == j then some a else if x == i then some b else get_elem? st.txq x)
unfolding swap_keys
place-swap_keys st i j a b x ea eb =
    let bi = get_elem?-bound st.txq i a ea in
    let bj = get_elem?-bound st.txq j b eb in
    ground (
      arith,
      get_elem?-set (set st.txq i b) j x a,
      get_elem?-set st.txq i x b,
      length-set st.txq i b,
    )

pub swap_keys-Indexed :
    (st : TxStore) (i j : ℕ) (a b : Bytes)
    → Indexed st
    → get_elem? st.txq i ≡ some a
    → get_elem? st.txq j ≡ some b
    → Indexed (swap_keys i j (some a) (some b) st)
swap_keys-Indexed st i j a b h ea eb k x =
    let ia = (h a i).1 ea in
    let ib = (h b j).1 eb in
    rw (index_of-swap_keys st i j a b k ia ib, place-swap_keys st i j a b x ea eb)
      (ground (arith, same_iff a k, same_iff b k, h k x, h k i, h k j, h a x, h b x))
