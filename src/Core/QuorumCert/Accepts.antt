-- ===== src/Core/QuorumCert/Accepts.antt =====
-- What `QuorumCert.Validate` accepts, exactly; and that two accepted certificates share validators.
use svp_blockchain.Base.{
  ℕ, suc, ap, ◌+◌, ◌*◌, ◌≤◌, true, false, List, [], ◌∷◌, length, ltb, if◌then◌else◌, ◌≡◌, ◌↔◌, refl,
  arith, All,
}
use svp_blockchain.Base.Bytes.{Bytes, contents, same_comm}
use svp_blockchain.Base.Keys.{contains, AllDistinct, overlap, common}
use svp_blockchain.Core.Result.{Result, ok, err, ◌>>=◌, ◌>>◌, check, invalid_sig, invalid_validator}
use svp_blockchain.Core.Crypto.{Scheme, Signature, new_signature, verify}
use svp_blockchain.Core.Message.{vote_message, qc_message}
use svp_blockchain.Core.QuorumCert.{
  QcData, QuorumCert, enough_sigs, check_sigs, check_proposer, check_all, validate,
}
use svp_blockchain.Node.RoleStore.Index.{
  IsIndexed, validator_keys, length-validator_keys, is_validator-contains,
}
use svp_blockchain.Node.RoleStore.{
  RoleStore, is_validator, majority_validator_count, dec_and_get_grace,
}

abbrev pub keys : List Signature → List Bytes
keys [] = []
keys (sig ∷ rest) = sig.signer.key_str ∷ keys rest

pub length-keys : (sigs : List Signature) → length (keys sigs) ≡ length sigs
length-keys [] = refl
length-keys (sig ∷ rest) = ap suc (length-keys rest)

-- No key is among those met before, and none stands twice.
abbrev pub Fresh : List Bytes → List Bytes → Type 0
Fresh met ks = All (λ k. contains k met ≡ false) ks × AllDistinct ks

apart_from_cons :
    (met : List Bytes) (k : Bytes) (ks : List Bytes)
    → All (λ j. contains j met ≡ false) ks
    → contains k ks ≡ false
    → All (λ j. contains j (k ∷ met) ≡ false) ks
unfolding contains
apart_from_cons met k [] a h = tt
apart_from_cons met k (j ∷ ks) a h =
    (ground (arith, same_comm j k), apart_from_cons met k ks a.1 (ground arith))

apart_of_cons :
    (met : List Bytes) (k : Bytes) (ks : List Bytes)
    → All (λ j. contains j (k ∷ met) ≡ false) ks
    → All (λ j. contains j met ≡ false) ks × (contains k ks ≡ false)
unfolding contains
apart_of_cons met k [] a = (tt, refl)
apart_of_cons met k (j ∷ ks) a =
    let (rest, apart) = apart_of_cons met k ks a.1 in
    ((ground arith, rest), ground (arith, same_comm j k))

module _ (scheme : Scheme) where
  -- Each signature is a validator's, and signs the block hash, the view and the quota that stands at
  -- its place.
  abbrev pub AllSigned : RoleStore → QcData → List Signature → List ℕ → Type 0
  AllSigned rs d [] quotas = Unit {0}
  AllSigned rs d (sig ∷ rest) [] = ⊥
  AllSigned rs d (sig ∷ rest) (q ∷ later) =
      (is_validator rs sig.signer.key_str ≡ true)
      × (verify scheme sig (vote_message (contents d.block_hash) d.view q) ≡ true)
      × AllSigned rs d rest later

  check_sigs_sound :
      (rs : RoleStore) (d : QcData) (met : List Bytes) (sigs : List Signature) (quotas : List ℕ)
      → check_sigs scheme rs d met sigs quotas ≡ ok tt
      → Fresh met (keys sigs) × AllSigned rs d sigs quotas
  unfolding check_sigs
  check_sigs_sound rs d met [] quotas h = ((tt, tt), tt)
  check_sigs_sound rs d met (sig ∷ rest) [] h = absurd (ground arith)
  check_sigs_sound rs d met (sig ∷ rest) (q ∷ later) h =
      let k = sig.signer.key_str in
      let (fresh, signed) = check_sigs_sound rs d (k ∷ met) rest later (ground arith) in
      let (old, apart) = apart_of_cons met k (keys rest) fresh.0 in
      (((ground arith, old), (apart, fresh.1)), (ground arith, ground arith, signed))

  check_sigs_complete :
      (rs : RoleStore) (d : QcData) (met : List Bytes) (sigs : List Signature) (quotas : List ℕ)
      → Fresh met (keys sigs)
      → AllSigned rs d sigs quotas
      → check_sigs scheme rs d met sigs quotas ≡ ok tt
  unfolding check_sigs
  check_sigs_complete rs d met [] quotas f s = refl
  check_sigs_complete rs d met (sig ∷ rest) [] f s = absurd s
  check_sigs_complete rs d met (sig ∷ rest) (q ∷ later) f s =
      let k = sig.signer.key_str in
      rw (f.0.0, s.0, s.1)
        (check_sigs_complete rs d (k ∷ met) rest later
          (apart_from_cons met k (keys rest) f.0.1 f.1.0, f.1.1) s.2)

  -- The proposer's signature is there, is a validator's, and signs the block hash and the view.
  abbrev pub SignedBy : RoleStore → QcData → Result Signature → Type 0
  SignedBy rs d (err e) = ⊥
  SignedBy rs d (ok sig) =
      (is_validator rs sig.signer.key_str ≡ true)
      × (verify scheme sig (qc_message (contents d.block_hash) d.view) ≡ true)

  abbrev check_signer : RoleStore → QcData → Result Signature → Result (Unit {0})
  check_signer rs d r = do
    sig ← r
    check (is_validator rs sig.signer.key_str) invalid_validator
    check (verify scheme sig (qc_message (contents d.block_hash) d.view)) invalid_sig

  signer_sound :
      (rs : RoleStore) (d : QcData) (r : Result Signature)
      → check_signer rs d r ≡ ok tt
      → SignedBy rs d r
  signer_sound rs d (err e) h = cc
  signer_sound rs d (ok sig) h = (ground arith, ground arith)

  signer_complete :
      (rs : RoleStore) (d : QcData) (r : Result Signature)
      → SignedBy rs d r
      → check_signer rs d r ≡ ok tt
  signer_complete rs d (err e) h = absurd h
  signer_complete rs d (ok sig) h = rw (h.0, h.1)

  enough_iff :
      (grace : ℕ) (rs : RoleStore) (qc : QuorumCert)
      → (enough_sigs grace rs qc ≡ true)
        ↔ (majority_validator_count rs ≤ length qc.sigs + (if ltb 0 grace then 1 else 0))
  unfolding enough_sigs
  enough_iff grace rs qc = (λ h. ground arith, λ h. ground arith)

  -- A quorum: enough signatures of different validators, each good for its quota, and the signature of a
  -- validator that proposes.
  pub record IsQuorum (grace : ℕ) (rs : RoleStore) (qc : QuorumCert) : Type 0 where
    pub enough : majority_validator_count rs ≤ length qc.sigs + (if ltb 0 grace then 1 else 0)
    pub distinct : AllDistinct (keys qc.sigs)
    pub signed : AllSigned rs qc.qc_data qc.sigs qc.qc_data.quotas
    pub proposed : SignedBy rs qc.qc_data (new_signature scheme qc.qc_data.signature)

  met_none : (ks : List Bytes) → All (λ k. contains k [] ≡ false) ks
  unfolding contains
  met_none [] = tt
  met_none (k ∷ ks) = (refl, met_none ks)

  -- `Validate` accepts the quorums and nothing else.
  pub validate_iff :
      (rs : RoleStore) (qc : QuorumCert)
      → ((validate scheme rs qc).0 ≡ ok tt) ↔ IsQuorum (dec_and_get_grace rs).0 rs qc
  unfolding validate check_all check_proposer
  validate_iff rs qc =
      let g = (dec_and_get_grace rs).0 in
      let d = qc.qc_data in
      (
        λ h.
            let found = check_sigs_sound rs d [] qc.sigs d.quotas (ground arith) in
            record {
              enough = (enough_iff g rs qc).0 (ground arith);
              distinct = found.0.1;
              signed = found.1;
              proposed = signer_sound rs d (new_signature scheme d.signature) (ground arith);
            },
        λ q.
            rw
              (
                (enough_iff g rs qc).1 q.enough,
                check_sigs_complete rs d [] qc.sigs d.quotas (met_none (keys qc.sigs), q.distinct)
                    q.signed,
              )
              (signer_complete rs d (new_signature scheme d.signature) q.proposed),
      )

  signers_are_validators :
      (rs : RoleStore) (d : QcData) (sigs : List Signature) (quotas : List ℕ)
      → IsIndexed rs
      → AllSigned rs d sigs quotas
      → All (λ k. contains k (validator_keys rs.validators) ≡ true) (keys sigs)
  signers_are_validators rs d [] quotas c s = tt
  signers_are_validators rs d (sig ∷ rest) [] c s = absurd s
  signers_are_validators rs d (sig ∷ rest) (q ∷ later) c s = (
    is_validator-contains rs sig.signer.key_str c s.0,
    signers_are_validators rs d rest later c s.2,
  )

  -- On an indexed role store outside the grace period, any two accepted certificates share
  -- validators: of n validators, three times as many as they share is at least n + 2.
  pub quorums_overlap :
      (rs : RoleStore) (a b : QuorumCert)
      → IsIndexed rs
      → (dec_and_get_grace rs).0 ≡ 0
      → (validate scheme rs a).0 ≡ ok tt
      → (validate scheme rs b).0 ≡ ok tt
      → length rs.validators + 2
        ≤ 3 * common (keys a.sigs) (keys b.sigs) (validator_keys rs.validators)
  unfolding majority_validator_count
  quorums_overlap rs a b c g ha hb =
      let qa = (validate_iff rs a).0 ha in
      let qb = (validate_iff rs b).0 hb in
      let ea = rw g at qa.enough in
      let eb = rw g at qb.enough in
      let both =
        overlap (keys a.sigs) (keys b.sigs) (validator_keys rs.validators) c.distinct qa.distinct
          qb.distinct (signers_are_validators rs a.qc_data a.sigs a.qc_data.quotas c qa.signed)
          (signers_are_validators rs b.qc_data b.sigs b.qc_data.quotas c qb.signed) in
      omega (arith, length-keys a.sigs, length-keys b.sigs, length-validator_keys rs.validators)
