-- ===== src/TxPool/Fuel.antt =====
-- The fuel of the two loops of the heap of txpool/txstore.go is enough.
use svp_blockchain.Base.{
  ℕ, zero, suc, ◌+◌, ◌*◌, ◌-◌, ◌/◌, ◌≤◌, ◌<◌, ◌&&◌, true, false, Bool-cases, inl, inr, ltb, ◌==◌,
  if◌then◌else◌, ◌≡◌, refl, ap, arith,
}
use svp_blockchain.TxPool.{TxStore, up, down, child, less, swap}

up_fuel : (f g j : ℕ) (st : TxStore) → j ≤ f → j ≤ g → up f j st ≡ up g j st
unfolding up
up_fuel zero zero j st a c = refl
up_fuel zero (suc g) j st a c = let z : (j == 0) ≡ true = ground arith in rw z refl
up_fuel (suc f) zero j st a c = let z : (j == 0) ≡ true = ground arith in rw z refl
up_fuel (suc f) (suc g) j st a c = elim (Bool-cases (j == 0)) [
  | inl e ↦ rw e refl
  | inr e ↦
      let pos : 0 < j = ground arith in
      ap (λ later. if j == 0 then st else if less st j ((j - 1) / 2) then later else st)
        (up_fuel f g ((j - 1) / 2) (swap ((j - 1) / 2) j st) (omega arith) (omega arith))
]

child-gt : (i n : ℕ) (st : TxStore) → i < child i n st
unfolding child
child-gt i n st = ground arith

down_fuel : (f g i n : ℕ) (st : TxStore) → n ≤ i + f → n ≤ i + g → down f i n st ≡ down g i n st
unfolding down
down_fuel zero zero i n st a c = refl
down_fuel zero (suc g) i n st a c = let z : ltb (2 * i + 1) n ≡ false = ground arith in rw z refl
down_fuel (suc f) zero i n st a c = let z : ltb (2 * i + 1) n ≡ false = ground arith in rw z refl
down_fuel (suc f) (suc g) i n st a c =
    let j = child i n st in
    let more = child-gt i n st in
    ap (λ later. if ltb (2 * i + 1) n && less st j i then (later.0, true) else (st, false))
      (down_fuel f g j n (swap i j st) (omega arith) (omega arith))

-- With fuel of the place or more, raising an item from a place of the heap gives what any more fuel gives;
-- so does sinking one from a place with fuel of the places after it.
pub heap_fuel :
    (more i n : ℕ) (st : TxStore)
    → (up i i st ≡ up (i + more) i st) × (down n i n st ≡ down (n + more) i n st)
heap_fuel more i n st = (
  up_fuel i (i + more) i st (omega arith) (omega arith),
  down_fuel n (n + more) i n st (omega arith) (omega arith),
)
