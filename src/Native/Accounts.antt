-- ===== src/Native/Accounts.antt =====
-- A finite set of accounts, and what they hold together in a state.
use svp_blockchain.Base.{
  ℕ, ◌+◌, ◌≤◌, true, false, List, [], ◌∷◌, ◌≡◌, refl, All, arith, ap, inl, inr, Bool-cases,
}
use mathlib.Core.Path.{subst}
use svp_blockchain.Base.Bytes.{Bytes, Slice, same, same_iff}
use svp_blockchain.Base.Keys.{contains, AllDistinct}
use svp_blockchain.Execution.Spec.{State, update}
use svp_blockchain.Native.Balance.{amount, IsBalance}

unfoldable pub supply : State → List Bytes → ℕ
supply st [] = 0
supply st (a ∷ rest) = amount (st a) + supply st rest

abbrev pub Decodes : State → List Bytes → Type 0
Decodes st = All (λ k. IsBalance (st k))

pub supply-update_absent :
    (st : State) (k : Bytes) (v : Slice) (accounts : List Bytes)
    → contains k accounts ≡ false
    → supply (update st k v) accounts ≡ supply st accounts
unfolding supply contains
supply-update_absent st k v [] h = refl
supply-update_absent st k v (a ∷ rest) h =
    ground (arith, supply-update_absent st k v rest, same_iff a k, same_iff k a)

pub supply-update :
    (st : State) (k : Bytes) (v : Slice) (accounts : List Bytes)
    → AllDistinct accounts
    → contains k accounts ≡ true
    → supply (update st k v) accounts + amount (st k) ≡ supply st accounts + amount v
unfolding supply contains
supply-update st k v [] d h = cc
supply-update st k v (a ∷ rest) d h =
    ground (
      arith,
      supply-update st k v rest,
      supply-update_absent st k v rest,
      same_iff a k,
      same_iff k a,
    )

pub amount-le-supply :
    (st : State) (k : Bytes) (accounts : List Bytes)
    → contains k accounts ≡ true
    → amount (st k) ≤ supply st accounts
unfolding supply contains
amount-le-supply st k [] h = cc
amount-le-supply st k (a ∷ rest) h = ground (arith, amount-le-supply st k rest, same_iff a k)

pub amounts-le-supply :
    (st : State) (k j : Bytes) (accounts : List Bytes)
    → contains k accounts ≡ true
    → contains j accounts ≡ true
    → same k j ≡ false
    → amount (st k) + amount (st j) ≤ supply st accounts
unfolding supply contains
amounts-le-supply st k j [] h g n = cc
amounts-le-supply st k j (a ∷ rest) h g n = ground (
  arith,
  amounts-le-supply st k j rest,
  amount-le-supply st k rest,
  amount-le-supply st j rest,
  same_iff a k,
  same_iff a j,
  same_iff k j,
)

pub Decodes-at :
    (st : State) (k : Bytes) (accounts : List Bytes)
    → Decodes st accounts
    → contains k accounts ≡ true
    → IsBalance (st k)
unfolding contains
Decodes-at st k [] d h = cc
Decodes-at st k (a ∷ rest) d h = elim (Bool-cases (same a k)) [
  | inl e ↦ subst (λ b. IsBalance (st b)) ((same_iff a k).0 e) d.0
  | inr e ↦ Decodes-at st k rest d.1 (ground arith)
]

update-IsBalance :
    (st : State) (k j : Bytes) (v : Slice)
    → IsBalance v
    → IsBalance (st j)
    → IsBalance (update st k v j)
update-IsBalance st k j v hv hj = elim (Bool-cases (same k j)) [ inl e ↦ rw e hv | inr e ↦ rw e hj ]

pub Decodes-update :
    (st : State) (k : Bytes) (v : Slice) (accounts : List Bytes)
    → IsBalance v
    → Decodes st accounts
    → Decodes (update st k v) accounts
Decodes-update st k v [] hv d = tt
Decodes-update st k v (a ∷ rest) hv d =
    (update-IsBalance st k a v hv d.0, Decodes-update st k v rest hv d.1)

pub supply-update_two :
    (st : State) (k j : Bytes) (v w : Slice) (accounts : List Bytes)
    → AllDistinct accounts
    → contains k accounts ≡ true
    → contains j accounts ≡ true
    → same k j ≡ false
    → supply (update (update st k v) j w) accounts + amount (st k) + amount (st j)
      ≡ supply st accounts + amount v + amount w
supply-update_two st k j v w accounts d hk hj n =
    let first = supply-update st k v accounts d hk in
    let second = supply-update (update st k v) j w accounts d hj in
    let kept : update st k v j ≡ st j = rw n in let kept_amount = ap amount kept in omega arith

pub contains_apart :
    (a b : Bytes) (accounts : List Bytes)
    → contains a accounts ≡ true
    → contains b accounts ≡ false
    → same a b ≡ false
contains_apart a b accounts h n = elim (Bool-cases (same a b)) [
  | inl e ↦ let bad = subst (λ k. contains k accounts ≡ true) ((same_iff a b).0 e) h in absurd (cc)
  | inr e ↦ e
]
