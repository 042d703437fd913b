-- ===== src/Consensus/Pool/Cleaning.antt =====
-- What is left in the pool after a commit.
use mathlib.Core.Path.{subst}
use svp_blockchain.Base.{
  Bool, true, false, not, ◌&&◌, ◌||◌, Option, some, none, List, [], ◌∷◌, All, ltb, if◌then◌else◌,
  ◌≡◌, refl, arith, inl, inr, Bool-cases, ap, ◌∙◌, leb,
}
use svp_blockchain.Base.Bytes.{Bytes, same, same_iff}
use svp_blockchain.Base.Assoc.{
  Assoc, lookup, insert, has, delete, lookup-delete, Distinct, lookup_absent, delete-Distinct,
  has-insert,
}
use svp_blockchain.Core.Block.{Block}
use svp_blockchain.Consensus.Pool.{
  Pool, hash_of, height_of, select, get_older_blocks, get_uncommitted_older_blocks, delete_block,
  delete_qc, delete_committed, set_committed_block, drop_forked, drop_older,
  clean_state_on_committed,
}

-- Every block stands under its hash.
abbrev pub Keyed : Assoc Block → Type 0
Keyed = All (λ (entry : Bytes × Block). entry.0 ≡ hash_of entry.1)

-- A block of that hash is in the list.
abbrev listed : Bytes → List Block → Bool
listed hash [] = false
listed hash (b ∷ rest) = same (hash_of b) hash || listed hash rest

abbrev passes : (Block → Bool) → Option Block → Bool
passes test none = false
passes test (some b) = test b

listed-select :
    (test : Block → Bool) (m : Assoc Block) (hash : Bytes)
    → Keyed m
    → Distinct m
    → listed hash (select test m) ≡ passes test (lookup hash m)
unfolding lookup select
listed-select test [] hash k d = refl
listed-select test ((key, c) ∷ rest) hash k d =
    let ih = listed-select test rest hash k.1 d.1 in
    let named = same_iff key hash in
    let e = k.0 in
    elim (Bool-cases (same key hash)) [
      | inl f ↦
          let gone : lookup hash rest ≡ none =
            lookup_absent hash rest (subst (λ h. has h rest ≡ false) (named.0 f) d.0) in
          let hit : same (hash_of c) hash ≡ true = subst (λ h. same h hash ≡ true) e f in
          let later : listed hash (select test rest) ≡ false = ih ∙ ap (passes test) gone in
          ground arith
      | inr f ↦
          let miss : same (hash_of c) hash ≡ false = subst (λ h. same h hash ≡ false) e f in
          ground arith
    ]

lookup-drop_forked :
    (forked : List Block) (p : Pool) (hash : Bytes)
    → lookup hash (drop_forked forked p).blocks
      ≡ (if listed hash forked then none else lookup hash p.blocks)
unfolding drop_forked delete_block delete_qc
lookup-drop_forked [] p hash = refl
lookup-drop_forked (b ∷ rest) p hash = ground (
  arith,
  lookup-drop_forked rest (delete_qc (hash_of b) (delete_block (hash_of b) p)) hash,
  lookup-delete (hash_of b) hash p.blocks,
)

lookup-drop_older :
    (older : List Block) (p : Pool) (hash : Bytes)
    → lookup hash (drop_older older p).blocks
      ≡ (if listed hash older then none else lookup hash p.blocks)
unfolding drop_older delete_block delete_committed
lookup-drop_older [] p hash = refl
lookup-drop_older (b ∷ rest) p hash = ground (
  arith,
  lookup-drop_older rest (delete_committed (hash_of b) (delete_block (hash_of b) p)) hash,
  lookup-delete (hash_of b) hash p.blocks,
)

delete-Keyed : (hash : Bytes) (m : Assoc Block) → Keyed m → Keyed (delete hash m)
unfolding delete
delete-Keyed hash [] k = tt
delete-Keyed hash ((key, b) ∷ m) k = ground (arith, delete-Keyed hash m)

-- A pool whose blocks stand under their hashes, each once
pub record IsPool (p : Pool) : Type 0 where
  pub keyed : Keyed p.blocks
  pub distinct : Distinct p.blocks

drop_forked-IsPool : (forked : List Block) (p : Pool) → IsPool p → IsPool (drop_forked forked p)
unfolding drop_forked delete_block delete_qc
drop_forked-IsPool [] p v = v
drop_forked-IsPool (b ∷ rest) p v =
    drop_forked-IsPool rest (delete_qc (hash_of b) (delete_block (hash_of b) p)) (record {
      keyed = delete-Keyed (hash_of b) p.blocks v.keyed;
      distinct = delete-Distinct (hash_of b) p.blocks v.distinct;
    })

drop_older-IsPool : (older : List Block) (p : Pool) → IsPool p → IsPool (drop_older older p)
unfolding drop_older delete_block delete_committed
drop_older-IsPool [] p v = v
drop_older-IsPool (b ∷ rest) p v =
    drop_older-IsPool rest (delete_committed (hash_of b) (delete_block (hash_of b) p)) (record {
      keyed = delete-Keyed (hash_of b) p.blocks v.keyed;
      distinct = delete-Distinct (hash_of b) p.blocks v.distinct;
    })

-- Whether the commit of a block removes another: it is lower, and either the commit is not among the first
-- 20 heights or it was not committed itself.
abbrev pub removed : Block → Pool → Block → Bool
removed blk p b =
    ltb (height_of b) (height_of blk)
    && (leb 20 (height_of blk)
        || not (same (hash_of blk) (hash_of b) || has (hash_of b) p.committed))

abbrev pub unless : (Block → Bool) → Option Block → Option Block
unless test none = none
unless test (some b) = if test b then none else some b

unless-passes :
    (test : Block → Bool) (o : Option Block) → (if passes test o then none else o) ≡ unless test o
unless-passes test none = refl
unless-passes test (some b) = refl

lookup-unselected :
    (test : Block → Bool) (m : Assoc Block) (hash : Bytes)
    → Keyed m
    → Distinct m
    → (if listed hash (select test m) then none else lookup hash m) ≡ unless test (lookup hash m)
lookup-unselected test m hash k d =
    rw (listed-select test m hash k d) (unless-passes test (lookup hash m))

module _ (blk : Block) (p : Pool) where
  abbrev marked : Pool
  marked = set_committed_block blk (delete_qc (hash_of blk) p)

  abbrev forked : List Block
  forked = get_uncommitted_older_blocks blk marked

  abbrev fork_test : Block → Bool
  fork_test b =
      ltb (height_of b) (height_of blk)
      && not (has (hash_of b) (insert (hash_of blk) tt p.committed))

  abbrev low_test : Block → Bool
  low_test b = ltb (height_of b) (height_of blk)

  after_forked :
      (hash : Bytes)
      → IsPool p
      → lookup hash (drop_forked forked marked).blocks ≡ unless fork_test (lookup hash p.blocks)
  unfolding get_uncommitted_older_blocks set_committed_block delete_qc
  after_forked hash v =
      lookup-drop_forked forked marked hash
      ∙ lookup-unselected fork_test p.blocks hash v.keyed v.distinct

  marked-IsPool : IsPool p → IsPool marked
  unfolding set_committed_block delete_qc
  marked-IsPool v = record { keyed = v.keyed; distinct = v.distinct }

  first_heights :
      (o : Option Block)
      → ltb (height_of blk) 20 ≡ true
      → unless fork_test o ≡ unless (removed blk p) o
  first_heights none h = refl
  first_heights (some b) h = ground (arith, has-insert (hash_of blk) (hash_of b) tt p.committed)

  later_heights :
      (o : Option Block)
      → ltb (height_of blk) 20 ≡ false
      → unless low_test (unless fork_test o) ≡ unless (removed blk p) o
  later_heights none h = refl
  later_heights (some b) h = ground (arith, has-insert (hash_of blk) (hash_of b) tt p.committed)

-- After a commit, the pool holds exactly the blocks that it held before, less those that the commit removes,
-- and is well formed again.
pub lookup-clean_state :
    (blk : Block) (p : Pool) (hash : Bytes)
    → IsPool p
    → IsPool (clean_state_on_committed blk p).0
      × (lookup hash (clean_state_on_committed blk p).0.blocks
          ≡ unless (removed blk p) (lookup hash p.blocks))
unfolding clean_state_on_committed get_older_blocks
lookup-clean_state blk p hash v =
    let kept = drop_forked (forked blk p) (marked blk p) in
    let well = drop_forked-IsPool (forked blk p) (marked blk p) (marked-IsPool blk p v) in
    let older = get_older_blocks (height_of blk) kept in
    elim (Bool-cases (ltb (height_of blk) 20)) [
      | inl h ↦
          rw h (well, after_forked blk p hash v ∙ first_heights blk p (lookup hash p.blocks) h)
      | inr h ↦ rw h (
        drop_older-IsPool older kept well,
        lookup-drop_older older kept hash
            ∙ lookup-unselected (low_test blk p) kept.blocks hash well.keyed well.distinct
            ∙ ap (unless (low_test blk p)) (after_forked blk p hash v)
            ∙ later_heights blk p (lookup hash p.blocks) h,
      )
    ]
