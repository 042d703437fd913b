-- ===== src/Core/Block.antt =====
-- core/block.go: the fields of a block, its hash, its signature and their check, and the votes for it.
-- `sha3` is `sha3.Sum256` of what is written to it.
pub mod Signed
pub mod Tests
use svp_blockchain.Base.{ℕ, if◌then◌else◌, Option, none, some, List, [], ◌∷◌, ◌++◌}
use svp_blockchain.Base.Bytes.{Bytes, Slice, contents, same}
use svp_blockchain.Base.Words.{be_bytes}
use svp_blockchain.Core.Result.{
  Result, ok, err, ◌>>=◌, ◌>>◌, check, invalid_block_hash, invalid_validator, invalid_sig,
}
use svp_blockchain.Core.Crypto.{Scheme, PublicKey, SigData, Signature, sign, new_signature, verify}
use svp_blockchain.Core.Message.{vote_message}
use svp_blockchain.Core.QuorumCert.{QcData, QuorumCert, Vote, set_data, validate, set_vote_data}
use svp_blockchain.Node.RoleStore.{RoleStore, is_validator}

-- `pb.Block`, its timestamp as a word of 64 bits; a nil pointer is `none`.
pub record BlockData : Type 0 where
  pub hash : Slice
  pub view : ℕ
  pub height : ℕ
  pub parent_hash : Bytes
  pub exec_height : ℕ
  pub merkle_root : Bytes
  pub timestamp : ℕ
  pub transactions : List Bytes
  pub quorum_cert : Option QcData
  pub signature : Option SigData

pub record Block : Type 0 where
  pub block_data : BlockData
  pub quorum_cert : Option QuorumCert
  pub signature : Option Signature

unfoldable pub new_block : Block
new_block = record {
  block_data = record {
    hash = none;
    view = 0;
    height = 0;
    parent_hash = [];
    exec_height = 0;
    merkle_root = [];
    timestamp = 0;
    transactions = [];
    quorum_cert = none;
    signature = none;
  };
  quorum_cert = none;
  signature = none;
}

-- `for … { h.Write(txHash) }`
unfoldable pub write_all : List Bytes → Bytes
write_all [] = []
write_all (b ∷ rest) = b ++ write_all rest

unfoldable pub write_qc : Option QcData → Bytes
write_qc none = []
write_qc (some d) = be_bytes 4 d.view ++ contents d.block_hash

-- What `Sum` writes to the hash
unfoldable pub written : BlockData → Bytes
unfolding write_all write_qc
written d =
    be_bytes 4 d.view
    ++ be_bytes 8 d.height
    ++ d.parent_hash
    ++ be_bytes 8 d.exec_height
    ++ d.merkle_root
    ++ be_bytes 8 d.timestamp
    ++ write_all d.transactions
    ++ write_qc d.quorum_cert

unfoldable pub set_quorum_cert : QuorumCert → Block → Block
set_quorum_cert val blk = record blk {
  block_data = record (blk.block_data) { quorum_cert = some val.qc_data };
  quorum_cert = some val;
}

unfoldable pub set_view : ℕ → Block → Block
set_view val blk = record blk { block_data = record (blk.block_data) { view = val } }

unfoldable pub set_height : ℕ → Block → Block
set_height val blk = record blk { block_data = record (blk.block_data) { height = val } }

unfoldable pub set_parent_hash : Bytes → Block → Block
set_parent_hash val blk = record blk { block_data = record (blk.block_data) { parent_hash = val } }

unfoldable pub set_exec_height : ℕ → Block → Block
set_exec_height val blk = record blk { block_data = record (blk.block_data) { exec_height = val } }

unfoldable pub set_merkle_root : Bytes → Block → Block
set_merkle_root val blk = record blk { block_data = record (blk.block_data) { merkle_root = val } }

unfoldable pub set_timestamp : ℕ → Block → Block
set_timestamp val blk = record blk { block_data = record (blk.block_data) { timestamp = val } }

unfoldable pub set_transactions : List Bytes → Block → Block
set_transactions val blk = record blk {
  block_data = record (blk.block_data) { transactions = val };
}

module _ (scheme : Scheme) where
  -- The certificate is checked where there is one; the check runs the grace counter down.
  unfoldable pub validate_qc : RoleStore → Option QuorumCert → Result (Unit {0}) × RoleStore
  validate_qc rs none = (ok tt, rs)
  validate_qc rs (some qc) = validate scheme rs qc

  unfoldable pub validate_signature : RoleStore → BlockData → Result (Unit {0})
  validate_signature rs d = do
    sig ← new_signature scheme d.signature
    check (is_validator rs sig.signer.key_str) invalid_validator
    check (verify scheme sig (contents d.hash)) invalid_sig

module _ (sha3 : Bytes → Bytes) where
  unfoldable pub sum_block : BlockData → Bytes
  unfolding written
  sum_block d = sha3 (written d)

  module _ (scheme : Scheme) where
    -- `Block.Validate`. `blk.data == nil` does not arise: `NewBlock` sets it, and nothing unsets it.
    unfoldable pub validate_block : RoleStore → Block → Result (Unit {0}) × RoleStore
    unfolding sum_block validate_qc validate_signature
    validate_block rs blk =
        let d = blk.block_data in
        let checked = validate_qc scheme rs blk.quorum_cert in
        if same (sum_block d) (contents d.hash)
        then (checked.0 >> validate_signature scheme checked.1 d, checked.1)
        else (err invalid_block_hash, rs)

    -- `Block.Sign`
    unfoldable pub sign_block : Bytes → Block → Block
    unfolding sum_block
    sign_block priv blk =
        let hash = sum_block blk.block_data in
        let signature = sign scheme priv hash in
        record blk {
          block_data = record (blk.block_data) {
            hash = some hash;
            signature = some signature.sig_data;
          };
          signature = some signature;
        }

module _ (scheme : Scheme) where
  -- `Block.Vote`, with the error of `setData`, which the code leaves unread
  unfoldable pub vote_block : Bytes → ℕ → Block → Result Vote
  unfolding set_vote_data
  vote_block priv quota blk =
      let d = blk.block_data in
      let signature = sign scheme priv (vote_message (contents d.hash) d.view quota) in
      set_vote_data scheme d.view d.hash quota (some signature.sig_data)

  unfoldable pub set_qc_data : Option QcData → Result (Option QuorumCert)
  set_qc_data none = ok none
  set_qc_data (some d) = do qc ← set_data scheme d; ok (some qc)

  -- `Block.setData`
  unfoldable pub set_block_data : BlockData → Result Block
  unfolding set_qc_data
  set_block_data d = do
    qc ← set_qc_data d.quorum_cert
    sig ← new_signature scheme d.signature
    ok (record { block_data = d; quorum_cert = qc; signature = some sig })
