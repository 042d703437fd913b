-- ===== src/Native/Balance.antt =====
-- The helpers of execution/common/util.go that the chaincodes share. The text codings of addresses
-- (base64, hex) are library code and stay parameters where they are used.
use svp_blockchain.Base.{
  ℕ, zero, suc, ap, ◌≤◌, ◌<◌, ◌^◌, ◌||◌, none, some, [], ◌∷◌, length, take, ◌==◌, leb,
  if◌then◌else◌, ◌≡◌, refl, arith,
}
use svp_blockchain.Base.Bytes.{Bytes, Slice}
use svp_blockchain.Base.Words.{be_bytes, be_value, length-be_bytes, be_value-be_bytes}
use svp_blockchain.Execution.Prog.{Prog, pure, raise, require, out_of_range, address_length}

-- `binary.BigEndian.Uint64` reads eight bytes, and panics where there are fewer.
unfoldable pub decode_balance : Slice → Prog ℕ
decode_balance none = pure 0
decode_balance (some b) =
    if leb 8 (length b) then pure (be_value (take 8 b)) else raise out_of_range

unfoldable pub encode_balance : ℕ → Slice
encode_balance value = some (be_bytes 8 value)

unfoldable pub assert_length : Bytes → ℕ → Prog (Unit {0})
assert_length addr l = require (length addr == 0 || length addr == l) address_length

unfoldable pub valid_length : Bytes → Prog (Unit {0})
valid_length addr = require (length addr == 20 || length addr == 32) address_length

-- The amount that a stored value stands for, if it stands for one.
unfoldable pub amount : Slice → ℕ
amount none = 0
amount (some b) = be_value (take 8 b)

abbrev pub IsBalance : Slice → Type 0
IsBalance none = Unit {0}
IsBalance (some b) = 8 ≤ length b

pub decode_balance-amount : (s : Slice) → IsBalance s → decode_balance s ≡ pure (amount s)
unfolding decode_balance amount
decode_balance-amount none h = refl
decode_balance-amount (some b) h = ground arith

take_self : (b : Bytes) (n : ℕ) → length b ≡ n → take n b ≡ b
take_self [] zero h = refl
take_self [] (suc n) h = refl
take_self (x ∷ b) zero h = absurd (omega arith)
take_self (x ∷ b) (suc n) h = ap (λ r. x ∷ r) (take_self b n (omega arith))

pub amount-encode_balance : (v : ℕ) → v < 2 ^ 64 → amount (encode_balance v) ≡ v
unfolding amount encode_balance
amount-encode_balance v h =
    rw (take_self (be_bytes 8 v) 8 (length-be_bytes 8 v)) (be_value-be_bytes 8 v h)

pub encode_balance-IsBalance : (v : ℕ) → IsBalance (encode_balance v)
unfolding encode_balance
encode_balance-IsBalance v = omega (arith, length-be_bytes 8 v)
