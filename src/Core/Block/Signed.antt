-- ===== src/Core/Block/Signed.antt =====
-- Signed blocks are valid, so are the votes for them; and what the hash does not tell apart.
use mathlib.Core.List.{append_assoc}
use svp_blockchain.Base.{
  ℕ, true, Option, none, some, List, [], ◌∷◌, ◌++◌, ◌≡◌, refl, ap, ◌∙◌, arith,
}
use svp_blockchain.Base.Bytes.{Bytes, same, same_refl}
use svp_blockchain.Core.Result.{ok}
use svp_blockchain.Core.Crypto.{Scheme, Signature, public_key, sign}
use svp_blockchain.Core.Message.{vote_message}
use svp_blockchain.Core.QuorumCert.{QuorumCert, Vote, set_vote_data, validate, validate_vote}
use svp_blockchain.Core.QuorumCert.Build.{IsVote, new_signature-sign, verify_sign}
use svp_blockchain.Core.Block.{
  Block, BlockData, write_all, written, sum_block, validate_qc, validate_signature, validate_block,
  sign_block, vote_block,
}
use svp_blockchain.Node.RoleStore.{RoleStore, is_validator, dec_and_get_grace}

write_all_joined :
    (before : List Bytes) (a b : Bytes) (rest : List Bytes)
    → write_all (before ++ (a ++ b) ∷ rest) ≡ write_all (before ++ a ∷ b ∷ rest)
unfolding write_all
write_all_joined [] a b rest = simp append_assoc
write_all_joined (x ∷ before) a b rest = ap (λ w. x ++ w) (write_all_joined before a b rest)

grace_is_validator :
    (rs : RoleStore) (key_str : Bytes)
    → is_validator (dec_and_get_grace rs).1 key_str ≡ is_validator rs key_str
unfolding dec_and_get_grace is_validator
grace_is_validator rs [] = refl
grace_is_validator rs (b ∷ bs) = ground arith

module _ (scheme : Scheme) where
  -- The check of a certificate leaves the validators as they are.
  validate_qc-is_validator :
      (rs : RoleStore) (qc : Option QuorumCert) (key_str : Bytes)
      → is_validator (validate_qc scheme rs qc).1 key_str ≡ is_validator rs key_str
  unfolding validate_qc validate
  validate_qc-is_validator rs none key_str = refl
  validate_qc-is_validator rs (some qc) key_str = grace_is_validator rs key_str

  module _ (sha3 : Bytes → Bytes) where
    -- A block that a validator signs is accepted, if its certificate is (or it has none, as genesis).
    pub sign_block-valid :
        (rs : RoleStore) (priv : Bytes) (blk : Block)
        → (validate_qc scheme rs blk.quorum_cert).0 ≡ ok tt
        → is_validator rs (public_key scheme priv).key_str ≡ true
        → (validate_block sha3 scheme rs (sign_block sha3 scheme priv blk)).0 ≡ ok tt
    unfolding validate_block sign_block validate_signature sum_block written sign
    sign_block-valid rs priv blk q v =
        let hash = sum_block sha3 blk.block_data in
        let seen =
          validate_qc-is_validator rs blk.quorum_cert (public_key scheme priv).key_str ∙ v in
        let unchanged : same (sum_block sha3 (sign_block sha3 scheme priv blk).block_data) hash
            ≡ true =
          same_refl hash in
        rw (unchanged, q, new_signature-sign scheme priv hash, seen, verify_sign scheme priv hash)
          refl

    -- The hash does not tell where one transaction hash ends and the next begins: a block whose list joins
    -- two of them, wherever they stand, is as valid, or as invalid, as the one that has them apart, under
    -- the same hash, certificate and signature.
    pub validate_block_joined :
        (rs : RoleStore) (qc : Option QuorumCert) (sig : Option Signature) (d : BlockData)
        (before : List Bytes) (a b : Bytes) (rest : List Bytes)
        → validate_block sha3 scheme rs (record {
          block_data = record d { transactions = before ++ (a ++ b) ∷ rest };
          quorum_cert = qc;
          signature = sig;
        })
          ≡ validate_block sha3 scheme rs (record {
            block_data = record d { transactions = before ++ a ∷ b ∷ rest };
            quorum_cert = qc;
            signature = sig;
          })
    unfolding validate_block validate_signature sum_block written
    validate_block_joined rs qc sig d before a b rest = rw (write_all_joined before a b rest) refl

  -- The vote of a validator for a hashed block, with any quota, is one that `Vote.Validate` accepts,
  -- for the block's hash and view.
  pub vote_block-IsVote :
      (rs : RoleStore) (priv hash : Bytes) (quota : ℕ) (blk : Block)
      → blk.block_data.hash ≡ some hash
      → is_validator rs (public_key scheme priv).key_str ≡ true
      → (vote : Vote) × (vote_block scheme priv quota blk ≡ ok vote)
        × (vote.quota ≡ quota)
        × IsVote scheme rs hash blk.block_data.view vote
  unfolding vote_block set_vote_data validate_vote sign
  vote_block-IsVote rs priv hash quota blk h v =
      let msg = vote_message hash blk.block_data.view quota in
      (
        record {
          view = blk.block_data.view;
          block_hash = some hash;
          quota = quota;
          signature = some (sign scheme priv msg).sig_data;
          voter = sign scheme priv msg;
        },
        rw (h, new_signature-sign scheme priv msg) refl,
        refl,
        record {
          for_block = refl;
          in_view = refl;
          parsed = new_signature-sign scheme priv msg;
          valid = rw (new_signature-sign scheme priv msg, v, verify_sign scheme priv msg) refl;
        },
      )
