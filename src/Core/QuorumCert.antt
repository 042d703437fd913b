-- ===== src/Core/QuorumCert.antt =====
-- core/quorum_cert.go and core/vote.go. A certificate is checked against a role store, whose grace
-- counter the check runs down.

use svp_blockchain.Base.{
  ℕ, ◌+◌, ◌-◌, Bool, true, false, not, Option, none, some, List, [], ◌∷◌, length, map, ltb, leb,
  if◌then◌else◌,
}
pub mod Accepts
pub mod Build
use mathlib.Core.List.{tail, head?}
use svp_blockchain.Base.Bytes.{Bytes, Slice, contents, same}
use svp_blockchain.Base.Words.{add64}
use svp_blockchain.Base.Keys.{contains}
use svp_blockchain.Core.Result.{
  Result, ok, err, ◌>>=◌, ◌>>◌, check, not_enough_sig, duplicate_sig, invalid_sig,
  invalid_validator, nil_qc, nil_vote, panics,
}
use svp_blockchain.Core.Crypto.{
  Scheme, PublicKey, SigData, Signature, sign, new_signature, new_sig_list, verify,
}
use svp_blockchain.Core.Message.{vote_message, qc_message}
use svp_blockchain.Node.RoleStore.{
  RoleStore, is_validator, majority_validator_count, dec_and_get_grace,
}

-- `pb.QuorumCert`
pub record QcData : Type 0 where
  pub view : ℕ
  pub block_hash : Slice
  pub quotas : List ℕ
  pub signatures : List (Option SigData)
  pub signature : Option SigData

pub record QuorumCert : Type 0 where
  pub qc_data : QcData
  pub quota : ℕ
  pub sigs : List Signature
  pub proposer : Option Signature

-- `pb.Vote` with the parsed signature of its voter
pub record Vote : Type 0 where
  pub view : ℕ
  pub block_hash : Slice
  pub quota : ℕ
  pub signature : Option SigData
  pub voter : Signature

abbrev pub empty_data : QcData
empty_data = record { view = 0; block_hash = none; quotas = []; signatures = []; signature = none }

unfoldable pub new_quorum_cert : QuorumCert
new_quorum_cert = record { qc_data = empty_data; quota = 0; sigs = []; proposer = none }

unfoldable pub sum_quotas : ℕ → List ℕ → ℕ
sum_quotas acc [] = acc
sum_quotas acc (q ∷ rest) = sum_quotas (add64 acc q) rest

-- One round of the loop of `Build`
unfoldable pub take_hash : QcData → Vote → QcData
take_hash d vote = elim d.block_hash [
  | none ↦ record d { view = vote.view; block_hash = vote.block_hash }
  | some h ↦ d
]

unfoldable pub add_votes : QuorumCert → List Vote → QuorumCert
add_votes qc [] = qc
add_votes qc (vote ∷ rest) =
    let d = take_hash qc.qc_data vote in
    let later = add_votes (record qc { qc_data = d; quota = add64 qc.quota vote.quota }) rest in
    -- the voter's signature holds the vote's `pb.Signature`
    record later {
      qc_data = record (later.qc_data) {
        quotas = vote.quota ∷ later.qc_data.quotas;
        signatures = vote.signature ∷ later.qc_data.signatures;
      };
      sigs = vote.voter ∷ later.sigs;
    }

-- `len(qc.sigs)` against the majority, which is one less in the grace period
unfoldable pub enough_sigs : ℕ → RoleStore → QuorumCert → Bool
enough_sigs grace rs qc =
    if ltb 0 grace
    then leb (majority_validator_count rs - 1) (length qc.sigs)
    else leb (majority_validator_count rs) (length qc.sigs)

module _ (scheme : Scheme) where
  unfoldable pub set_data : QcData → Result QuorumCert
  set_data d = do
    sigs ← new_sig_list scheme d.signatures
    signature ← new_signature scheme d.signature
    ok (record {
      qc_data = d;
      quota = sum_quotas 0 d.quotas;
      sigs = sigs;
      proposer = some signature;
    })

  -- The loop over the signatures, with the keys that it has met and the quotas still to come.
  unfoldable pub check_sigs :
      RoleStore → QcData → List Bytes → List Signature → List ℕ → Result (Unit {0})
  check_sigs rs d met [] quotas = ok tt
  check_sigs rs d met (sig ∷ rest) quotas = do
    check (not (contains sig.signer.key_str met)) duplicate_sig
    check (is_validator rs sig.signer.key_str) invalid_validator
    elim quotas [
      | [] ↦ err panics
      | q ∷ later ↦ do
        check (verify scheme sig (vote_message (contents d.block_hash) d.view q)) invalid_sig
        check_sigs rs d (sig.signer.key_str ∷ met) rest later
    ]

  unfoldable pub check_proposer : RoleStore → QcData → Result (Unit {0})
  check_proposer rs d = do
    sig ← new_signature scheme d.signature
    check (is_validator rs sig.signer.key_str) invalid_validator
    check (verify scheme sig (qc_message (contents d.block_hash) d.view)) invalid_sig

  unfoldable pub check_all : ℕ → RoleStore → QuorumCert → Result (Unit {0})
  check_all grace rs qc = do
    check (enough_sigs grace rs qc) not_enough_sig
    check_sigs rs qc.qc_data [] qc.sigs qc.qc_data.quotas
    check_proposer rs qc.qc_data

  -- `qc.data == nil` does not arise: `NewQuorumCert` sets it, and nothing unsets it.
  unfoldable pub validate : RoleStore → QuorumCert → Result (Unit {0}) × RoleStore
  validate rs qc = let (grace, rs') = dec_and_get_grace rs in (check_all grace rs qc, rs')

  unfoldable pub build : Bytes → List Vote → QuorumCert
  build signer votes =
      let filled = add_votes new_quorum_cert votes in
      let d = filled.qc_data in
      let signature = sign scheme signer (qc_message (contents d.block_hash) d.view) in
      record filled {
        qc_data = record d { signature = some signature.sig_data };
        proposer = some signature;
      }

  -- `Vote.Validate`
  unfoldable pub validate_vote : RoleStore → Vote → Result (Unit {0})
  validate_vote rs vote = do
    sig ← new_signature scheme vote.signature
    check (is_validator rs sig.signer.key_str) invalid_validator
    check (verify scheme sig (vote_message (contents vote.block_hash) vote.view vote.quota))
        invalid_sig

  -- `Vote.setData`
  unfoldable pub set_vote_data : ℕ → Slice → ℕ → Option SigData → Result Vote
  set_vote_data view block_hash quota signature = do
    sig ← new_signature scheme signature
    ok (record {
      view = view;
      block_hash = block_hash;
      quota = quota;
      signature = signature;
      voter = sig;
    })

-- `FindVote`: the quota of the first signature by that key. An index out of range panics.
unfoldable pub find_quota : Bytes → List Signature → List ℕ → Option ℕ
find_quota key_str [] quotas = some 0
find_quota key_str (sig ∷ rest) quotas =
    let later = find_quota key_str rest (tail quotas) in
    if same sig.signer.key_str key_str then head? quotas else later

unfoldable pub find_vote : Bytes → QuorumCert → Option ℕ
unfolding find_quota
find_vote key_str qc = find_quota key_str qc.sigs qc.qc_data.quotas
