-- ===== src/Base/Bytes.antt =====
-- Byte strings, and Go's `[]byte`, which is nil or a byte string.
use Prim.Native.Nat.{ℕ}
use Prim.Native.Char.{code}
use Prim.Native.String.{String}
use mathlib.Core.Path.{◌≡◌, refl}
use mathlib.Core.Logic.{◌↔◌}
use mathlib.Core.Bool.{Bool, true, false, ◌&&◌}
use mathlib.Core.Option.{Option, none, some}
use mathlib.Core.List.{List, [], ◌∷◌, ◌++◌}
use native.Mathlib.Omega.{arith}
use svp_blockchain.Base.Tests.{◌==◌}

abbrev pub Bytes : Type 0
Bytes = List ℕ

-- `none` is a nil slice.
abbrev pub Slice : Type 0
Slice = Option Bytes

-- What the slice holds: a nil slice has length 0.
abbrev pub contents : Slice → Bytes
contents none = []
contents (some b) = b

-- `bytes.Equal`, and the equality of map keys.
unfoldable pub same : Bytes → Bytes → Bool
same [] [] = true
same [] (b ∷ bs) = false
same (a ∷ r) [] = false
same (a ∷ r) (b ∷ bs) = a == b && same r bs

pub same_refl : (a : Bytes) → same a a ≡ true
unfolding same
same_refl [] = refl
same_refl (a ∷ r) = ground (arith, same_refl r)

pub eq_of_same : (a b : Bytes) → same a b ≡ true → a ≡ b
unfolding same
eq_of_same [] [] h = refl
eq_of_same [] (b ∷ bs) h = cc
eq_of_same (a ∷ r) [] h = cc
eq_of_same (a ∷ r) (b ∷ bs) h = ground (arith, eq_of_same r bs)

pub same_iff : (a b : Bytes) → (same a b ≡ true) ↔ (a ≡ b)
same_iff a b = (eq_of_same a b, λ e. rw e (same_refl b))

-- The bytes of an ASCII text.
abbrev pub ascii : String → Bytes
ascii String.[] = []
ascii (String.◌∷◌ c s) = code c ∷ ascii s

pub same-append : (p a b : Bytes) → same (p ++ a) (p ++ b) ≡ same a b
unfolding same
same-append [] a b = refl
same-append (x ∷ p) a b = ground (arith, same-append p a b)

pub same_comm : (a b : Bytes) → same a b ≡ same b a
unfolding same
same_comm [] [] = refl
same_comm [] (b ∷ bs) = refl
same_comm (a ∷ r) [] = refl
same_comm (a ∷ r) (b ∷ bs) = ground (arith, same_comm r bs)
