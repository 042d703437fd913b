-- ===== src/Core/QuorumCert/Build.antt =====
-- A certificate that is built from good votes is accepted.
use svp_blockchain.Base.{
  ℕ, ◌≤◌, ◌<◌, true, some, List, [], ◌∷◌, ◌≡◌, refl, arith, All, length, ap, suc,
}
use svp_blockchain.Base.Bytes.{Bytes, contents}
use svp_blockchain.Base.Keys.{AllDistinct}
use svp_blockchain.Base.Words.{add64}
use svp_blockchain.Core.Result.{ok}
use svp_blockchain.Core.Crypto.{
  Scheme, Signature, public_key, sign, new_public_key, new_signature, verify,
}
use svp_blockchain.Core.Message.{vote_message, qc_message}
use svp_blockchain.Core.QuorumCert.{
  QcData, QuorumCert, Vote, new_quorum_cert, take_hash, add_votes, build, validate, validate_vote,
}
use svp_blockchain.Core.QuorumCert.Accepts.{keys, AllSigned, validate_iff, length-keys}
use svp_blockchain.Node.RoleStore.{RoleStore, is_validator, majority_validator_count}

abbrev pub voter_keys : List Vote → List Bytes
voter_keys [] = []
voter_keys (vote ∷ rest) = vote.voter.signer.key_str ∷ voter_keys rest

keys-add_votes :
    (qc : QuorumCert) (votes : List Vote)
    → qc.sigs ≡ []
    → keys (add_votes qc votes).sigs ≡ voter_keys votes
unfolding add_votes
keys-add_votes qc [] e = ap keys e
keys-add_votes qc (vote ∷ rest) e =
    ap (λ ks. vote.voter.signer.key_str ∷ ks)
      (keys-add_votes
        (record qc { qc_data = take_hash qc.qc_data vote; quota = add64 qc.quota vote.quota }) rest
        e)

length-voter_keys : (votes : List Vote) → length (voter_keys votes) ≡ length votes
length-voter_keys [] = refl
length-voter_keys (vote ∷ rest) = ap suc (length-voter_keys rest)

-- The block hash and the view of a certificate, once set, stay.
IsFor : Bytes → ℕ → QcData → Type 0
IsFor hash view d = (d.block_hash ≡ some hash) × (d.view ≡ view)

take_hash-IsFor :
    (hash : Bytes) (view : ℕ) (d : QcData) (vote : Vote)
    → IsFor hash view d
    → IsFor hash view (take_hash d vote)
unfolding take_hash IsFor
take_hash-IsFor hash view d vote e = (ground arith, ground arith)

add_votes-IsFor :
    (hash : Bytes) (view : ℕ) (qc : QuorumCert) (votes : List Vote)
    → IsFor hash view qc.qc_data
    → IsFor hash view (add_votes qc votes).qc_data
unfolding add_votes IsFor
add_votes-IsFor hash view qc [] e = e
add_votes-IsFor hash view qc (vote ∷ rest) e =
    add_votes-IsFor hash view
      (record qc { qc_data = take_hash qc.qc_data vote; quota = add64 qc.quota vote.quota }) rest
      (take_hash-IsFor hash view qc.qc_data vote e)

majority_pos : (rs : RoleStore) → 0 < majority_validator_count rs
unfolding majority_validator_count
majority_pos rs = omega arith

module _ (scheme : Scheme) where
  pub new_signature-sign :
      (priv msg : Bytes)
      → new_signature scheme (some (sign scheme priv msg).sig_data) ≡ ok (sign scheme priv msg)
  unfolding sign new_signature new_public_key
  new_signature-sign priv msg = rw (scheme.length-public priv) refl

  pub verify_sign : (priv msg : Bytes) → verify scheme (sign scheme priv msg) msg ≡ true
  unfolding sign verify
  verify_sign priv msg = scheme.verify-sign priv msg

module _ (scheme : Scheme) (rs : RoleStore) (hash : Bytes) (view : ℕ) where
  -- A vote for the block and the view that the role store accepts
  pub record IsVote (vote : Vote) : Type 0 where
    pub for_block : vote.block_hash ≡ some hash
    pub in_view : vote.view ≡ view
    pub parsed : new_signature scheme vote.signature ≡ ok vote.voter
    pub valid : validate_vote scheme rs vote ≡ ok tt

  vote_signed :
      (vote : Vote)
      → IsVote vote
      → (is_validator rs vote.voter.signer.key_str ≡ true)
        × (verify scheme vote.voter (vote_message hash view vote.quota) ≡ true)
  unfolding validate_vote
  vote_signed vote v =
      let h = rw (v.parsed, v.for_block, v.in_view) at v.valid in (ground arith, ground arith)

  none_signed :
      (d : QcData) (sigs : List Signature) (quotas : List ℕ)
      → sigs ≡ []
      → AllSigned scheme rs d sigs quotas
  none_signed d [] quotas e = tt
  none_signed d (sig ∷ rest) quotas e = absurd (ground arith)

  votes_signed :
      (d : QcData) (qc : QuorumCert) (votes : List Vote)
      → IsFor hash view d
      → qc.sigs ≡ []
      → All IsVote votes
      → AllSigned scheme rs d (add_votes qc votes).sigs (add_votes qc votes).qc_data.quotas
  unfolding add_votes IsFor
  votes_signed d qc [] e s a = none_signed d qc.sigs qc.qc_data.quotas s
  votes_signed d qc (vote ∷ rest) e s a =
      let (validator, signed) = vote_signed vote a.0 in
      let next = record qc {
        qc_data = take_hash qc.qc_data vote;
        quota = add64 qc.quota vote.quota;
      } in
      rw (e.0, e.1) (validator, signed, votes_signed d next rest e s a.1)

  -- What `build` does: it keeps the signatures, and its data is for the block.
  built-IsFor :
      (vote : Vote) (rest : List Vote)
      → All IsVote (vote ∷ rest)
      → IsFor hash view (add_votes new_quorum_cert (vote ∷ rest)).qc_data
  unfolding add_votes IsFor new_quorum_cert take_hash
  built-IsFor vote rest a =
      add_votes-IsFor hash view
        (record new_quorum_cert {
          qc_data = take_hash new_quorum_cert.qc_data vote;
          quota = add64 0 vote.quota;
        })
        rest (ground arith)

  -- A certificate that a validator builds from votes of different voters for one block, each of which
  -- `Vote.Validate` accepts, is accepted as soon as the votes are a majority.
  pub build-valid :
      (signer : Bytes) (votes : List Vote)
      → All IsVote votes
      → AllDistinct (voter_keys votes)
      → majority_validator_count rs ≤ length votes
      → is_validator rs (public_key scheme signer).key_str ≡ true
      → (validate scheme rs (build scheme signer votes)).0 ≡ ok tt
  unfolding build sign IsFor new_quorum_cert
  build-valid signer [] a d m p = absurd (ground (arith, majority_pos rs))
  build-valid signer (vote ∷ rest) a d m p =
      let filled = add_votes new_quorum_cert (vote ∷ rest) in
      let for = built-IsFor vote rest a in
      let kept = keys-add_votes new_quorum_cert (vote ∷ rest) refl in
      let msg = qc_message (contents filled.qc_data.block_hash) filled.qc_data.view in
      (validate_iff scheme rs (build scheme signer (vote ∷ rest))).1 (record {
        enough =
            omega
              (arith, m, ap length kept, length-keys filled.sigs, length-voter_keys (vote ∷ rest));
        distinct = rw kept d;
        signed =
            votes_signed (build scheme signer (vote ∷ rest)).qc_data new_quorum_cert (vote ∷ rest)
              for refl a;
        proposed = rw (new_signature-sign scheme signer msg) (p, verify_sign scheme signer msg);
      })
