-- ===== src/Consensus/Steps/Tests.antt =====
-- A node of a committee of one that receives a proposal over the certificate that it holds.
use svp_blockchain.Base.{true, false, none, some, [], ◌∷◌, ◌≡◌, refl}
use svp_blockchain.Base.Bytes.{same, contents}
use svp_blockchain.Base.Assoc.{insert, lookup, has}
use svp_blockchain.Core.Result.{ok}
use svp_blockchain.Core.Crypto.{sign, new_signature, new_public_key}
use svp_blockchain.Core.QuorumCert.{
  QuorumCert, Vote, build, add_votes, take_hash, new_quorum_cert, set_vote_data,
}
use svp_blockchain.Core.Message.{vote_message}
use svp_blockchain.Core.Block.{Block, new_block, vote_block}
use svp_blockchain.Core.Tests.{test_scheme, committee, signer, signer_key, vote}
use svp_blockchain.Node.RoleStore.{is_validator, get_validator_index}
use svp_blockchain.Consensus.Pool.{set_block, get_block}
use svp_blockchain.Consensus.Window.{Window, average_vote, share, div64}
use svp_blockchain.Consensus.Window
use svp_blockchain.Consensus.Tests.{quarters}
use svp_blockchain.Consensus.Tally.{get_vote_quota}
use svp_blockchain.Consensus.Node.{Services, Node, success, vote_to}
use svp_blockchain.Consensus.Driver.{proposer_of, is_leader}
use svp_blockchain.Consensus.Validator.{verify_block_to_vote, verify_block_txs, receive_proposal}
use svp_blockchain.Consensus.Validator.Votes.{receive_proposal_votes}
use svp_blockchain.Consensus.Steps.{proposal_step, here, after}
use svp_blockchain.Consensus.Steps.Keeps.{NoLower}
use svp_blockchain.Consensus.Steps.Timeouts.{Steps-NoLower}

abbrev idle_services : Services (Unit {0})
idle_services = record {
  get_block = λ w hash. none;
  store_block = λ blk w. w;
  store_qc = λ qc w. w;
  block_height = λ w. 0;
  merkle_root = λ w. none;
  has_tx = λ w hash. false;
  get_tx = λ w hash. none;
  commit_block = λ blk w. some (0, w);
  remove_txs = λ txs w. w;
  put_txs_to_queue = λ txs w. w;
  set_txs_pending = λ txs w. w;
  pop_txs_from_queue = λ n w. ([], w);
  now = λ w. 0;
  random = λ w. 0;
  stack_room = 100;
}

abbrev held : QuorumCert
held = build test_scheme signer (vote ∷ [])

abbrev certified : Block
certified = record {
  block_data = record (new_block.block_data) { hash = some (9 ∷ []); view = 3; height = 1 };
  quorum_cert = none;
  signature = some (sign test_scheme signer []);
}

abbrev proposed : Block
proposed = record {
  block_data = record (new_block.block_data) {
    hash = some (8 ∷ []);
    view = 3;
    height = 2;
    parent_hash = 9 ∷ [];
  };
  quorum_cert = some held;
  signature = some (sign test_scheme signer []);
}

abbrev waiting : Node (Unit {0})
waiting = record {
  pool = record {
    blocks = (9 ∷ [], certified) ∷ [];
    committed = [];
    qcs = [];
    committed_height = 0;
    committed_tx_count = 0;
  };
  b_exec = certified;
  b_leaf = certified;
  qc_high = held;
  view = 3;
  leader_index = 0;
  view_change = success;
  tally = record {
    proposal = none;
    votes = [];
    quota_count = 0;
    window = record quarters { strategy = average_vote };
  };
  timeout_count = 0;
  high_qc_count = 0;
  old_view = 0;
  roles = committee;
  stopped = false;
  sent = [];
  signals = 0;
  world = tt;
}

abbrev own_vote : Vote
own_vote = record {
  view = 3;
  block_hash = some (8 ∷ []);
  quota = 2;
  signature = some (sign test_scheme signer (vote_message (8 ∷ []) 3 2)).sig_data;
  voter = sign test_scheme signer (vote_message (8 ∷ []) 3 2);
}

by_signer : proposer_of proposed ≡ some signer_key
unfolding proposer_of sign
by_signer = refl

signer_leads : is_leader signer_key.key_str waiting ≡ true
unfolding is_leader is_validator get_validator_index lookup has same
signer_leads = refl

certified_known :
    get_block (contents held.qc_data.block_hash) (set_block proposed waiting.pool) ≡ some certified
unfolding get_block set_block lookup insert same build add_votes take_hash new_quorum_cert
certified_known = refl

no_txs : verify_block_to_vote idle_services proposed waiting ≡ none
unfolding verify_block_to_vote verify_block_txs new_block
no_txs = refl

quota_two : get_vote_quota false 0 waiting.tally ≡ some (some 2)
unfolding get_vote_quota Window.vote share div64
quota_two = refl

votes_two : vote_block test_scheme signer 2 proposed ≡ ok own_vote
unfolding vote_block set_vote_data new_signature new_public_key sign
votes_two = refl

receive_proposal_votes_example :
    (t : Node (Unit {0})) × (receive_proposal idle_services test_scheme signer proposed waiting
      ≡ some (none, t))
    × (t.sent ≡ vote_to signer_key own_vote ∷ [])
receive_proposal_votes_example =
    receive_proposal_votes idle_services test_scheme signer waiting proposed certified signer_key
      by_signer signer_leads refl refl refl certified_known 2 own_vote no_txs quota_two votes_two

receives :
    (t : Node (Unit {0})) × (receive_proposal idle_services test_scheme signer proposed waiting
      ≡ some (none, t))
    × (t.sent ≡ vote_to signer_key own_vote ∷ [])
receives =
    receive_proposal_votes idle_services test_scheme signer waiting proposed certified signer_key
      by_signer signer_leads refl refl refl certified_known 2 own_vote no_txs quota_two votes_two

Steps-NoLower_example : NoLower waiting receives.0
Steps-NoLower_example =
    Steps-NoLower idle_services (λ m. m) test_scheme signer 10 waiting receives.0
      (after (proposal_step proposed receives.1) here)
