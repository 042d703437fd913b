-- ===== src/Consensus/Node.antt =====
-- The state of a consensus node (consensus/driver.go, rotator.go, status.go) and the steps on it. What the
-- handlers call of the storage, the transaction pool, the execution and the clock is an interface.
use svp_blockchain.Base.{ℕ, Bool, Option, none, some, List, [], ◌∷◌, ◌++◌}
use svp_blockchain.Base.Bytes.{Bytes, Slice}
use svp_blockchain.Core.Crypto.{PublicKey}
use svp_blockchain.Core.QuorumCert.{QuorumCert, Vote}
use svp_blockchain.Core.Block.{Block}
use svp_blockchain.Core.Transaction.{Transaction}
use svp_blockchain.Node.RoleStore.{RoleStore}
use svp_blockchain.Consensus.Pool.{Pool}
use svp_blockchain.Consensus.Tally.{Status}

-- A `none` of `get_block` is also an error; one of `commit_block` is the end of the process.
pub record Services (W : Type 0) : Type 0 where
  pub get_block : W → Bytes → Option Block
  pub store_block : Block → W → W
  pub store_qc : QuorumCert → W → W
  pub block_height : W → ℕ
  pub merkle_root : W → Slice
  pub has_tx : W → Bytes → Bool
  pub get_tx : W → Bytes → Option Transaction
  pub commit_block : Block → W → Option (ℕ × W)
  pub remove_txs : List Bytes → W → W
  pub put_txs_to_queue : List Bytes → W → W
  pub set_txs_pending : List Bytes → W → W
  pub pop_txs_from_queue : ℕ → W → List Bytes × W
  pub now : W → ℕ
  pub random : W → ℕ
  -- how many calls of `onCommit` the stack of the process has room for; one more ends the process
  pub stack_room : ℕ

-- `viewChange`: -1, 0 and 1
pub data ViewChange : Type 0 where
  failed success ongoing : ViewChange

pub data Message : Type 0 where
  vote_to : PublicKey → Vote → Message
  proposal : Block → Message
  qc_to : PublicKey → QuorumCert → Message
  set_leader : ℕ → Message

pub record Node (W : Type 0) : Type 0 where
  pub pool : Pool
  pub b_exec : Block
  pub b_leaf : Block
  pub qc_high : QuorumCert
  pub view : ℕ
  pub leader_index : ℕ
  pub view_change : ViewChange
  pub tally : Status
  pub timeout_count : ℕ
  pub high_qc_count : ℕ
  pub old_view : ℕ
  pub roles : RoleStore
  pub stopped : Bool
  pub sent : List Message
  -- how often `proposeCh` was sent to
  pub signals : ℕ
  pub world : W

pub data Refusal : Type 0 where
  not_same_view lower_qc not_leader invalid_exec_height invalid_merkle_root : Refusal
  tx_committed tx_not_found tx_expired no_vote in_view_change bad_vote : Refusal

-- `none`: a panic, or the end of the process by `Fatal`
abbrev pub M : Type 0 → Type 0 → Type 0
M W A = Node W → Option (A × Node W)

module _ {W : Type 0} where
  abbrev pub run_next : {A B : Type 0} → Option (A × Node W) → (A → M W B) → Option (B × Node W)
  run_next none f = none
  run_next (some (a, s)) f = f a s

  infixl 10 ◌>>=◌
  abbrev pub ◌>>=◌ : {A B : Type 0} → M W A → (A → M W B) → M W B
  (m >>= f) s = run_next (m s) f

  infixl 10 ◌>>◌
  abbrev pub ◌>>◌ : {B : Type 0} → M W (Unit {0}) → M W B → M W B
  m >> n = m >>= λ u. n

  abbrev pub return : {A : Type 0} → A → M W A
  return a s = some (a, s)

  abbrev pub modify : (Node W → Node W) → M W (Unit {0})
  modify f s = some (tt, f s)

  abbrev pub read : {A : Type 0} → (Node W → A) → M W A
  read f s = some (f s, s)

  abbrev pub or_panic : {A : Type 0} → Option A → M W A
  or_panic none s = none
  or_panic (some a) s = some (a, s)

  abbrev pub send : Message → M W (Unit {0})
  send m = modify (λ s. record s { sent = s.sent ++ m ∷ [] })

  abbrev pub on_world : (W → W) → M W (Unit {0})
  on_world f = modify (λ s. record s { world = f s.world })

  -- `if x == nil { … } else { … }`
  abbrev pub if_nil : {A B : Type 0} → Option A → M W B → (A → M W B) → M W B
  if_nil none m f = m
  if_nil (some a) m f = f a

  -- whether `viewChange` is 0
  abbrev pub if_success : {B : Type 0} → ViewChange → M W B → M W B → M W B
  if_success success m n = m
  if_success ongoing m n = n
  if_success failed m n = n
