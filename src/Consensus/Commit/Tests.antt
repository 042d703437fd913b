-- ===== src/Consensus/Commit/Tests.antt =====
-- Two blocks above genesis, and the commit of the second.
use mathlib.Core.Path.{subst}
use mathlib.Core.Option.{some-injective}
use svp_blockchain.Base.{
  sym, ℕ, ◌<◌, Option, none, some, [], ◌∷◌, if◌then◌else◌, ◌≡◌, refl, arith, inl, inr, Bool-cases,
}
use svp_blockchain.Base.Bytes.{Bytes, same}
use svp_blockchain.Core.Block.{Block, new_block}
use svp_blockchain.Consensus.Pool.{height_of}
use svp_blockchain.Consensus.Commit.{commit_recursive}
use svp_blockchain.Consensus.Commit.Chain.{
  HasParent, CommitsOrBreaches, commit_recursive-CommitsOrBreaches,
}

abbrev block_at : ℕ → Bytes → Bytes → Block
block_at height hash parent = record {
  block_data = record (new_block.block_data) {
    hash = some hash;
    height = height;
    parent_hash = parent;
  };
  quorum_cert = none;
  signature = none;
}

abbrev genesis : Block
genesis = block_at 0 (1 ∷ []) []

abbrev first : Block
first = block_at 1 (2 ∷ []) (1 ∷ [])

abbrev second : Block
second = block_at 2 (3 ∷ []) (2 ∷ [])

abbrev known : Bytes → Option Block
known hash =
    if same hash (1 ∷ []) then some genesis else if same hash (2 ∷ []) then some first else none

first-HasParent : HasParent known genesis first
unfolding same
first-HasParent = (genesis, refl, refl)

known-HasParent :
    (hash : Bytes) (b : Block)
    → known hash ≡ some b
    → height_of genesis < height_of b
    → HasParent known genesis b
known-HasParent hash b e h = elim (Bool-cases (same hash (1 ∷ []))) [
  | inl f ↦
      let low = subst (λ c. 0 < height_of c) (sym (some-injective genesis b (rw f at e))) h in
      absurd (omega (arith, low))
  | inr f ↦ elim (Bool-cases (same hash (2 ∷ []))) [
    | inl g ↦
        subst (HasParent known genesis) (some-injective first b (rw (f, g) at e)) first-HasParent
    | inr g ↦ let bad = rw (f, g) at e in cc
  ]
]

second-HasParent : HasParent known genesis second
unfolding same
second-HasParent = (first, refl, refl)

commit_recursive-CommitsOrBreaches_example :
    CommitsOrBreaches known genesis second (commit_recursive known genesis 3 second)
commit_recursive-CommitsOrBreaches_example =
    commit_recursive-CommitsOrBreaches known genesis 3 second known-HasParent
      (λ h. second-HasParent) (omega arith)
