-- ===== src/Consensus/Tests.antt =====
-- A window of four quotas, and the one vote of a committee of one, which arrives twice.
use svp_blockchain.Base.{false, none, [], ◌∷◌, ◌≡◌, refl, arith}
use svp_blockchain.Base.Assoc.{insert}
use svp_blockchain.Core.Result.{ok}
use svp_blockchain.Core.QuorumCert.{build, validate}
use svp_blockchain.Core.Tests.{
  test_scheme, committee, signer, vote, vote-IsVote, signer-is_validator, few, computes,
}
use svp_blockchain.Consensus.Window.{Window, update, random_vote, random_quota}
use svp_blockchain.Consensus.Window.Sums.{IsWindow, Updates, update-IsWindow}
use svp_blockchain.Consensus.Window.Quota.{Between, random_quota-bounds}
use svp_blockchain.Consensus.Tally.{
  Status, start_proposal, add_vote, add_to, add_all, enter_vote, get_votes, get_vote_count,
}
use svp_blockchain.Consensus.Tally.Quorum.{IsSent, add_all-quorum}

abbrev pub quarters : Window
quarters = record {
  qc_quotas = 1 ∷ 2 ∷ 3 ∷ 4 ∷ [];
  qc_acc = 10;
  vote_quotas = 1 ∷ 1 ∷ 2 ∷ 1 ∷ [];
  vote_acc = 5;
  majority = 6;
  limit = 11;
  height = 8;
  size = 4;
  strategy = random_vote;
  recover = false;
}

quarters-IsWindow : IsWindow 4 quarters
quarters-IsWindow = record {
  qcs = record {
    count = refl;
    total = refl;
    words = (omega arith, (omega arith, (omega arith, (omega arith, tt))));
  };
  votes = record {
    count = refl;
    total = refl;
    words = (omega arith, (omega arith, (omega arith, (omega arith, tt))));
  };
}

update-IsWindow_example : Updates 4 9 quarters (update 5 2 9 quarters)
update-IsWindow_example =
    update-IsWindow 4 5 2 9 quarters (omega arith) (omega arith) (omega arith) quarters-IsWindow

random_quota-bounds_example : Between 2 5 (random_quota false 77 quarters 1)
random_quota-bounds_example =
    random_quota-bounds false 77 1 4 quarters refl (omega arith) (omega arith) refl

abbrev idle : Status
idle = record { proposal = none; votes = []; quota_count = 0; window = quarters }

vote-IsSent : IsSent test_scheme committee vote
vote-IsSent = record { parsed = vote-IsVote.parsed; valid = vote-IsVote.valid }

counts_one :
    get_vote_count
      (add_all (vote ∷ vote ∷ []) (start_proposal (record { hash = 9 ∷ []; view = 3 }) idle))
    ≡ 1
unfolding computes get_vote_count add_all start_proposal add_vote add_to enter_vote insert
counts_one = refl

add_all-quorum_example :
    (validate test_scheme committee (
      build test_scheme signer (
        get_votes (
          add_all
            (vote ∷ vote ∷ [])
            (start_proposal (record { hash = 9 ∷ []; view = 3 }) idle))))).0
    ≡ ok tt
add_all-quorum_example =
    add_all-quorum test_scheme committee signer 9 [] 3 (vote ∷ vote ∷ []) idle
      (vote-IsSent, (vote-IsSent, tt)) signer-is_validator (few _ (omega (arith, counts_one)))
