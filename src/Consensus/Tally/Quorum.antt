-- ===== src/Consensus/Tally/Quorum.antt =====
-- The votes that a proposal collects make a certificate that is accepted.
use svp_blockchain.Base.{
  ℕ, ◌+◌, ◌%◌, ◌^◌, ◌≤◌, true, false, none, some, List, [], ◌∷◌, length-map, map, sum, ◌==◌, All,
  ◌≡◌, refl, sym, arith, ap, inl, inr, Bool-cases,
}
use mathlib.Core.Path.{subst}
use svp_blockchain.Base.Bytes.{Bytes, Slice, same, contents, eq_of_same}
use svp_blockchain.Base.Assoc.{Assoc, insert, has, Distinct, insert-Distinct}
use svp_blockchain.Base.Keys.{AllDistinct, contains}
use svp_blockchain.Core.Result.{ok}
use svp_blockchain.Core.Crypto.{Scheme, new_signature, public_key}
use svp_blockchain.Core.QuorumCert.{Vote, build, validate, validate_vote}
use svp_blockchain.Core.QuorumCert.Build.{IsVote, voter_keys, build-valid}
use svp_blockchain.Consensus.Tally.{
  Proposal, Status, start_proposal, enter_vote, add_to, add_vote, add_all, get_votes,
  get_vote_count,
}
use svp_blockchain.Node.RoleStore.{RoleStore, is_validator, majority_validator_count}

slice_for :
    (b : ℕ) (bs : Bytes) (slice : Slice)
    → same (b ∷ bs) (contents slice) ≡ true
    → slice ≡ some (b ∷ bs)
unfolding same
slice_for b bs none h = absurd (ground arith)
slice_for b bs (some c) h = ap some (sym (eq_of_same (b ∷ bs) c h))

module _ (scheme : Scheme) (rs : RoleStore) where
  -- A vote as it comes from the network: its signature parses and is good.
  pub record IsSent (vote : Vote) : Type 0 where
    pub parsed : new_signature scheme vote.signature ≡ ok vote.voter
    pub valid : validate_vote scheme rs vote ≡ ok tt

  -- Every vote is for the proposal, under its voter's key.
  abbrev pub IsEntry : Proposal → Bytes × Vote → Type 0
  IsEntry blk (key, vote) =
      (key ≡ vote.voter.signer.key_str) × IsVote scheme rs blk.hash blk.view vote

  pub record IsTally (blk : Proposal) (s : Status) : Type 0 where
    pub proposed : s.proposal ≡ some blk
    pub distinct : Distinct s.votes
    pub entries : All (IsEntry blk) s.votes
    pub counted : s.quota_count ≡ sum (map (λ (key, vote). vote.quota) s.votes) % 2 ^ 64

  insert-entries :
      (blk : Proposal) (vote : Vote) (m : Assoc Vote)
      → IsVote scheme rs blk.hash blk.view vote
      → All (IsEntry blk) m
      → All (IsEntry blk) (insert vote.voter.signer.key_str vote m)
  unfolding insert
  insert-entries blk vote [] v a = ((refl, v), tt)
  insert-entries blk vote ((k, w) ∷ m) v a = elim (Bool-cases (same k vote.voter.signer.key_str)) [
    | inl h ↦ rw h ((refl, v), a.1)
    | inr h ↦ rw h (a.0, insert-entries blk vote m v a.1)
  ]

  insert-sum :
      (vote : Vote) (m : Assoc Vote)
      → has vote.voter.signer.key_str m ≡ false
      → sum (map (λ (key, vote). vote.quota) (insert vote.voter.signer.key_str vote m))
        ≡ sum (map (λ (key, vote). vote.quota) m) + vote.quota
  unfolding insert has
  insert-sum vote [] h = omega arith
  insert-sum vote ((k, w) ∷ m) h =
      let absent : same k vote.voter.signer.key_str ≡ false = ground arith in
      rw absent (omega (arith, insert-sum vote m (ground arith)))

  add_to-IsTally :
      (b : ℕ) (bs : Bytes) (view : ℕ) (vote : Vote) (s : Status)
      → IsSent vote
      → IsTally (record { hash = b ∷ bs; view = view }) s
      → IsTally
          (record { hash = b ∷ bs; view = view })
          (add_to (some (record { hash = b ∷ bs; view = view })) vote s).1
  unfolding add_to enter_vote
  add_to-IsTally b bs view vote s v t =
      let blk : Proposal = record { hash = b ∷ bs; view = view } in
      let key = vote.voter.signer.key_str in
      elim (Bool-cases (same (b ∷ bs) (contents vote.block_hash))) [
        | inr h ↦ rw h t
        | inl h ↦ elim (Bool-cases (view == vote.view)) [
          | inr e ↦ rw (h, e) t
          | inl e ↦ elim (Bool-cases (has key s.votes)) [
            | inl d ↦ rw (h, e, d) t
            | inr d ↦
                rw (h, e, d)
                  (record {
                    proposed = t.proposed;
                    distinct = insert-Distinct key vote s.votes t.distinct;
                    entries =
                        insert-entries blk vote s.votes
                          (record {
                            for_block = slice_for b bs vote.block_hash h;
                            in_view = ground arith;
                            parsed = v.parsed;
                            valid = v.valid;
                          })
                          t.entries;
                    counted = omega (arith, insert-sum vote s.votes d, t.counted);
                  })
          ]
        ]
      ]

  add_vote-IsTally :
      (b : ℕ) (bs : Bytes) (view : ℕ) (vote : Vote) (s : Status)
      → IsSent vote
      → IsTally (record { hash = b ∷ bs; view = view }) s
      → IsTally (record { hash = b ∷ bs; view = view }) (add_vote vote s).1
  unfolding add_vote
  add_vote-IsTally b bs view vote s v t =
      subst (λ p. IsTally (record { hash = b ∷ bs; view = view }) (add_to p vote s).1)
        (sym t.proposed) (add_to-IsTally b bs view vote s v t)

  add_all-IsTally :
      (b : ℕ) (bs : Bytes) (view : ℕ) (votes : List Vote) (s : Status)
      → All IsSent votes
      → IsTally (record { hash = b ∷ bs; view = view }) s
      → IsTally (record { hash = b ∷ bs; view = view }) (add_all votes s)
  unfolding add_all
  add_all-IsTally b bs view [] s a t = t
  add_all-IsTally b bs view (vote ∷ rest) s a t =
      add_all-IsTally b bs view rest (add_vote vote s).1 a.1
        (add_vote-IsTally b bs view vote s a.0 t)

  entries-voters :
      (blk : Proposal) (m : Assoc Vote)
      → Distinct m
      → All (IsEntry blk) m
      → All (IsVote scheme rs blk.hash blk.view) (map (λ (key, vote). vote) m)
        × AllDistinct (voter_keys (map (λ (key, vote). vote) m))
        × ((k : Bytes) → contains k (voter_keys (map (λ (key, vote). vote) m)) ≡ has k m)
  unfolding contains has
  entries-voters blk [] d a = (tt, tt, λ k. refl)
  entries-voters blk ((key, vote) ∷ m) d a =
      let (votes, distinct, same_keys) = entries-voters blk m d.1 a.1 in
      let e = a.0.0 in
      (
        (a.0.1, votes),
        (ground (arith, same_keys vote.voter.signer.key_str), distinct),
        λ k. ground (arith, same_keys k),
      )

  start_proposal-IsTally : (blk : Proposal) (s : Status) → IsTally blk (start_proposal blk s)
  unfolding start_proposal
  start_proposal-IsTally blk s = record {
    proposed = refl;
    distinct = tt;
    entries = tt;
    counted = omega arith;
  }

  -- A proposal is started and votes arrive in any order, copies, votes for other blocks and votes for other
  -- views among them, each with a good signature of a validator. Once `AddVote` has kept as many as the
  -- majority, the certificate that a validator builds of them is accepted.
  pub add_all-quorum :
      (signer : Bytes) (b : ℕ) (bs : Bytes) (view : ℕ) (votes : List Vote) (s : Status)
      → All IsSent votes
      → is_validator rs (public_key scheme signer).key_str ≡ true
      → majority_validator_count rs
        ≤ get_vote_count (add_all votes (start_proposal (record { hash = b ∷ bs; view = view }) s))
      → (validate scheme rs (
          build scheme signer (
            get_votes
              (add_all votes (start_proposal (record { hash = b ∷ bs; view = view }) s))))).0
        ≡ ok tt
  unfolding get_votes get_vote_count
  add_all-quorum signer b bs view votes s a p m =
      let blk : Proposal = record { hash = b ∷ bs; view = view } in
      let final = add_all votes (start_proposal blk s) in
      let t =
        add_all-IsTally b bs view votes (start_proposal blk s) a (start_proposal-IsTally blk s) in
      let (good, distinct, _) = entries-voters blk final.votes t.distinct t.entries in
      build-valid scheme rs (b ∷ bs) view signer (get_votes final) good distinct
        (omega (arith, m, length-map (λ (key, vote). vote) final.votes)) p
