-- ===== src/Core/Tests.antt =====
-- A committee of one validator, its votes and its certificates, over a scheme whose signatures are the
-- key and the message.
use svp_blockchain.Base.{
  ℕ, zero, suc, ◌*◌, ◌≤◌, true, some, [], ◌∷◌, ◌++◌, length, replicate, ◌↔◌, ◌≡◌, refl, arith,
}
use svp_blockchain.Base.Words.{pos}
use svp_blockchain.Base.Bytes.{Bytes, same, same_refl}
use svp_blockchain.Base.Assoc.{has}
use svp_blockchain.Base.Keys.{contains, common}
use svp_blockchain.Base.Words.{le_bytes}
use svp_blockchain.Core.Result.{ok}
use svp_blockchain.Core.Crypto.{
  Scheme, PublicKey, sign, verify, new_signature, new_public_key, public_key,
}
use svp_blockchain.Core.Message.{
  vote_message, append_uint32, append_uint64, put_uint, vote_message-injective,
}
use svp_blockchain.Core.QuorumCert.{QuorumCert, Vote, build, validate, validate_vote}
use svp_blockchain.Core.QuorumCert.Accepts.{IsQuorum, validate_iff, quorums_overlap, keys}
use svp_blockchain.Core.QuorumCert.Build.{IsVote, build-valid}
use svp_blockchain.Node.RoleStore.{
  RoleStore, is_validator, majority_validator_count, majority_count, dec_and_get_grace,
}
use svp_blockchain.Node.RoleStore.Index.{IsIndexed, validator_keys}

abbrev pub first_byte : Bytes → ℕ
first_byte [] = 0
first_byte (b ∷ bs) = b

pub length-replicate : (n b : ℕ) → length (replicate n b) ≡ n
length-replicate zero b = refl
length-replicate (suc n) b = omega (arith, length-replicate n b)

abbrev pub test_scheme : Scheme
test_scheme = record {
  public = λ k. replicate 32 (first_byte k);
  sign = λ k m. replicate 32 (first_byte k) ++ m;
  verify = λ k m s. same s (k ++ m);
  encode = λ k. k;
  verify-sign = λ k m. same_refl (replicate 32 (first_byte k) ++ m);
  length-public = λ k. length-replicate 32 (first_byte k);
  encode-injective = λ a b e. e;
}

abbrev pub signer : Bytes
signer = 7 ∷ []

abbrev pub signer_key : PublicKey
signer_key = public_key test_scheme signer

abbrev pub committee : RoleStore
committee = record {
  validator_map = (signer_key.key_str, 0) ∷ [];
  validators = signer_key ∷ [];
  stake_quotas = 5 ∷ [];
  quota_count = 5;
  window_size = pos 4;
  peers = [];
  grace_height = 0;
}

abbrev pub vote : Vote
vote = record {
  view = 3;
  block_hash = some (9 ∷ []);
  quota = 5;
  signature = some (sign test_scheme signer (vote_message (9 ∷ []) 3 5)).sig_data;
  voter = sign test_scheme signer (vote_message (9 ∷ []) 3 5);
}

abbrev cert : QuorumCert
cert = build test_scheme signer (vote ∷ [])

unfoldable pub computes : Unit {0}
unfolding same has contains le_bytes put_uint append_uint32 append_uint64 sign verify new_public_key
    new_signature validate_vote is_validator majority_count majority_validator_count
    dec_and_get_grace
computes = tt

pub vote-IsVote : IsVote test_scheme committee (9 ∷ []) 3 vote
unfolding computes
vote-IsVote = record { for_block = refl; in_view = refl; parsed = refl; valid = refl }

pub committee-IsIndexed : IsIndexed committee
unfolding has contains
committee-IsIndexed = record {
  distinct = (refl, tt);
  mapped = λ k. refl;
  stakes = refl;
  counted = refl;
}

pub signer-is_validator : is_validator committee signer_key.key_str ≡ true
unfolding computes
signer-is_validator = refl

pub few : (n : ℕ) → 1 ≤ n → majority_validator_count committee ≤ n
unfolding computes
few n h = omega (arith, h)

build-valid_example :
    (validate test_scheme committee (build test_scheme signer (vote ∷ []))).0 ≡ ok tt
build-valid_example =
    build-valid test_scheme committee (9 ∷ []) 3 signer (vote ∷ []) (vote-IsVote, tt)
      (unfold contains in (refl, tt)) (few 1 (omega arith)) signer-is_validator

cert_valid : (validate test_scheme committee cert).0 ≡ ok tt
cert_valid =
    build-valid test_scheme committee (9 ∷ []) 3 signer (vote ∷ []) (vote-IsVote, tt)
      (unfold contains in (refl, tt)) (few 1 (omega arith)) signer-is_validator

validate_iff_example :
    ((validate test_scheme committee cert).0 ≡ ok tt)
    ↔ IsQuorum test_scheme (dec_and_get_grace committee).0 committee cert
validate_iff_example = validate_iff test_scheme committee cert

quorums_overlap_example :
    3 ≤ 3 * common (keys cert.sigs) (keys cert.sigs) (validator_keys committee.validators)
quorums_overlap_example =
    quorums_overlap test_scheme committee cert cert committee-IsIndexed
      (unfold dec_and_get_grace in refl) cert_valid cert_valid

vote_message-injective_example :
    (◌≡◌ {A = Bytes} (9 ∷ []) (9 ∷ [])) × (◌≡◌ {A = ℕ} 3 3) × (◌≡◌ {A = ℕ} 5 5)
vote_message-injective_example =
    vote_message-injective (9 ∷ []) (9 ∷ []) 3 3 5 5 refl (omega arith) (omega arith) (omega arith)
      (omega arith) refl
