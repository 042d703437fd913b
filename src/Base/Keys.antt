-- ===== src/Base/Keys.antt =====
-- Finite sets of keys as lists, such as Go's `map[string]struct{}`.
use mathlib.Core.Path.{◌≡◌, refl}
use mathlib.Core.Bool.{Bool, true, false, ◌||◌, ◌&&◌}
use mathlib.Core.List.{List, [], ◌∷◌}
use Prim.Native.Nat.{ℕ, suc, ◌+◌, ◌≤◌}
use native.Mathlib.Omega.{arith}
use svp_blockchain.Base.Tests.{if◌then◌else◌}
use svp_blockchain.Base.Lists.{length, All}
use svp_blockchain.Base.Bytes.{Bytes, same, same_iff, same_comm}

unfoldable pub contains : Bytes → List Bytes → Bool
contains k [] = false
contains k (a ∷ rest) = same a k || contains k rest

abbrev pub AllDistinct : List Bytes → Type 0
AllDistinct [] = Unit {0}
AllDistinct (a ∷ rest) = (contains a rest ≡ false) × AllDistinct rest

-- How many keys of the last list are in the first, and how many in both of the others.
unfoldable pub hits : List Bytes → List Bytes → ℕ
hits a [] = 0
hits a (k ∷ v) = (if contains k a then 1 else 0) + hits a v

unfoldable pub common : List Bytes → List Bytes → List Bytes → ℕ
common a b [] = 0
common a b (k ∷ v) = (if contains k a && contains k b then 1 else 0) + common a b v

hits-common : (a b v : List Bytes) → hits a v + hits b v ≤ length v + common a b v
unfolding hits common
hits-common a b [] = omega arith
hits-common a b (k ∷ v) = ground (arith, hits-common a b v)

hits-cons_absent : (y : Bytes) (a v : List Bytes) → contains y v ≡ false → hits (y ∷ a) v ≡ hits a v
unfolding hits contains
hits-cons_absent y a [] h = refl
hits-cons_absent y a (k ∷ v) h = ground (arith, hits-cons_absent y a v, same_comm y k)

hits-cons :
    (y : Bytes) (a v : List Bytes)
    → AllDistinct v
    → contains y v ≡ true
    → contains y a ≡ false
    → hits (y ∷ a) v ≡ suc (hits a v)
unfolding hits contains
hits-cons y a [] d h n = cc
hits-cons y a (k ∷ v) d h n =
    ground (arith, hits-cons y a v, hits-cons_absent y a v, same_iff y k, same_iff k y)

hits-nil : (v : List Bytes) → hits [] v ≡ 0
unfolding hits contains
hits-nil [] = refl
hits-nil (k ∷ v) = omega (arith, hits-nil v)

hits-length :
    (a v : List Bytes)
    → AllDistinct v
    → AllDistinct a
    → All (λ k. contains k v ≡ true) a
    → hits a v ≡ length a
hits-length [] v dv da s = hits-nil v
hits-length (y ∷ a) v dv da s =
    omega (arith, hits-cons y a v dv s.0 da.0, hits-length a v dv da.1 s.1)

-- Two sets of members that are large against all the members have many in common.
pub overlap :
    (a b v : List Bytes)
    → AllDistinct v
    → AllDistinct a
    → AllDistinct b
    → All (λ k. contains k v ≡ true) a
    → All (λ k. contains k v ≡ true) b
    → length a + length b ≤ length v + common a b v
overlap a b v dv da db sa sb =
    omega (arith, hits-length a v dv da sa, hits-length b v dv db sb, hits-common a b v)
