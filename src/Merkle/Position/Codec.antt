-- ===== src/Merkle/Position/Codec.antt =====
-- The key of a position determines the position.
use mathlib.Core.List.{reverse-reverse}
use mathlib.Core.Option.{some-injective}
use svp_blockchain.Base.{
  ℕ, zero, suc, ◌/◌, ◌≤◌, true, some, [], ◌∷◌, ◌≡◌, ◌↔◌, refl, sym, ap, ◌∙◌, arith,
}
use svp_blockchain.Base.Bytes.{Bytes, same, same_iff}
use svp_blockchain.Base.Words.{le_value, be_value}
use svp_blockchain.Merkle.Position.{
  Position, digits, int_bytes, or_zero_byte, position_bytes, unmarshal_position,
}

le_value-digits : (fuel n : ℕ) → n ≤ fuel → le_value (digits fuel n) ≡ n
unfolding digits le_value
le_value-digits zero n h = omega arith
le_value-digits (suc fuel) n h = ground (arith, le_value-digits fuel (n / 256) (omega arith))

be_value-int_bytes : (n : ℕ) → be_value (int_bytes n) ≡ n
unfolding be_value int_bytes
be_value-int_bytes n = rw (reverse-reverse (digits n n)) (le_value-digits n n (omega arith))

be_value-or_zero_byte : (b : Bytes) → be_value (or_zero_byte b) ≡ be_value b
unfolding be_value le_value or_zero_byte
be_value-or_zero_byte [] = refl
be_value-or_zero_byte (b ∷ bs) = refl

-- Unmarshalling the bytes of a position gives the position.
pub unmarshal_position-position_bytes :
    (p : Position) → unmarshal_position (position_bytes p) ≡ some p
unfolding unmarshal_position position_bytes
unmarshal_position-position_bytes p =
    let e = be_value-or_zero_byte (int_bytes p.index) ∙ be_value-int_bytes p.index in
    ap (λ i. some (record { level = p.level; index = i })) e

pub position_bytes-injective : (p q : Position) → position_bytes p ≡ position_bytes q → p ≡ q
position_bytes-injective p q e = some-injective p q (
    sym (unmarshal_position-position_bytes p)
    ∙ ap unmarshal_position e
    ∙ unmarshal_position-position_bytes q)

-- Two keys are the same string exactly where the positions are the same.
pub same-position_bytes :
    (p q : Position) → (same (position_bytes p) (position_bytes q) ≡ true) ↔ (p ≡ q)
same-position_bytes p q = (
  λ h. position_bytes-injective p q ((same_iff (position_bytes p) (position_bytes q)).0 h),
  λ e. (same_iff (position_bytes p) (position_bytes q)).1 (ap position_bytes e),
)
