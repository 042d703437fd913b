-- ===== src/Merkle/Position.antt =====
-- `Position` of merkle/types.go: a level and an index, and their key. The cached bytes and string of a
-- position are computed from the two.
pub mod Codec
use svp_blockchain.Base.{
  ℕ, zero, suc, ◌%◌, ◌/◌, Option, none, some, List, [], ◌∷◌, ◌==◌, if◌then◌else◌,
}
use mathlib.Core.List.{reverse}
use svp_blockchain.Base.Bytes.{Bytes}
use svp_blockchain.Base.Words.{be_value}

pub record Position : Type 0 where
  pub level : ℕ
  pub index : ℕ

-- The bytes of a number with no leading zero, least first. As many rounds as the number itself are enough.
unfoldable pub digits : ℕ → ℕ → Bytes
digits zero n = []
digits (suc fuel) n = let rest = digits fuel (n / 256) in if n == 0 then [] else n % 256 ∷ rest

-- `big.Int.Bytes`
unfoldable pub int_bytes : ℕ → Bytes
unfolding digits
int_bytes n = reverse (digits n n)

-- `setBytes`: a zero index has one byte
unfoldable pub or_zero_byte : Bytes → Bytes
or_zero_byte [] = 0 ∷ []
or_zero_byte (b ∷ bs) = b ∷ bs

unfoldable pub position_bytes : Position → Bytes
unfolding int_bytes or_zero_byte
position_bytes p = p.level ∷ or_zero_byte (int_bytes p.index)

-- `none` is the index out of range of an empty string.
unfoldable pub unmarshal_position : Bytes → Option Position
unmarshal_position [] = none
unmarshal_position (level ∷ rest) = some (record { level = level; index = be_value rest })
