-- ===== src/Base/Words.antt =====
-- Machine words as native numbers, and their byte encodings.
use Prim.Native.Nat.{ℕ, zero, suc, ◌+◌, ◌-◌, ◌*◌, ◌/◌, ◌%◌, ◌^◌, ◌<◌}
use mathlib.Core.Path.{◌≡◌, refl, ap, ◌∙◌}
use mathlib.Core.List.{List, [], ◌∷◌, reverse, reverse-reverse, reverse_aux}
use native.Mathlib.Nat.{pow-suc}
use native.Mathlib.Omega.{arith}
use svp_blockchain.Base.Lists.{length}
use svp_blockchain.Base.Bytes.{Bytes}

-- Go's `int`
pub data ℤ : Type 0 where
  pos : ℕ → ℤ
  -- the number below zero by one more
  negsuc : ℕ → ℤ

abbrev pub u64_mod : ℕ
u64_mod = 2 ^ 64

-- `a + b` and `a - b` on uint64
abbrev pub add64 : ℕ → ℕ → ℕ
add64 a b = (a + b) % u64_mod

abbrev pub sub64 : ℕ → ℕ → ℕ
sub64 a b = (a + u64_mod - b) % u64_mod

-- The low `n` bytes of a word, least significant first: `binary.LittleEndian.Put…`.
unfoldable pub le_bytes : ℕ → ℕ → Bytes
le_bytes zero x = []
le_bytes (suc n) x = x % 256 ∷ le_bytes n (x / 256)

-- `binary.LittleEndian.Uint…` over the whole string
unfoldable pub le_value : Bytes → ℕ
le_value [] = 0
le_value (b ∷ bs) = b + 256 * le_value bs

pub length-le_bytes : (n x : ℕ) → length (le_bytes n x) ≡ n
unfolding le_bytes
length-le_bytes zero x = refl
length-le_bytes (suc n) x = ap suc (length-le_bytes n (x / 256))

pub le_value-le_bytes : (n x : ℕ) → x < 256 ^ n → le_value (le_bytes n x) ≡ x
unfolding le_bytes le_value
le_value-le_bytes zero x h = omega arith
le_value-le_bytes (suc n) x h =
    let e = pow-suc 256 n in let ih = le_value-le_bytes n (x / 256) (omega arith) in omega arith

-- `binary.BigEndian.PutUint64` into eight bytes, and `binary.BigEndian.Uint64`
unfoldable pub be_bytes : ℕ → ℕ → Bytes
unfolding le_bytes
be_bytes n x = reverse (le_bytes n x)

unfoldable pub be_value : Bytes → ℕ
unfolding le_value
be_value b = le_value (reverse b)

length-reverse_aux {ℓ} :
    {A : Type ℓ} (xs ys : List A) → length (reverse_aux xs ys) ≡ length xs + length ys
length-reverse_aux [] ys = omega arith
length-reverse_aux (x ∷ xs) ys = omega (arith, length-reverse_aux xs (x ∷ ys))

pub length-reverse {ℓ} : {A : Type ℓ} (xs : List A) → length (reverse xs) ≡ length xs
length-reverse xs = omega (arith, length-reverse_aux xs [])

pub length-be_bytes : (n x : ℕ) → length (be_bytes n x) ≡ n
unfolding be_bytes
length-be_bytes n x = length-reverse (le_bytes n x) ∙ length-le_bytes n x

pub be_value-be_bytes : (n x : ℕ) → x < 256 ^ n → be_value (be_bytes n x) ≡ x
unfolding be_value be_bytes
be_value-be_bytes n x h = rw reverse-reverse (le_value-le_bytes n x h)
