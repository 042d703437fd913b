-- ===== src/Core/Block/Tests.antt =====
-- A genesis block and a transaction, under a hash that keeps what is written to it.
use svp_blockchain.Base.{none, [], ◌∷◌, ◌≡◌, refl}
use svp_blockchain.Base.Bytes.{Bytes}
use svp_blockchain.Core.Result.{ok}
use svp_blockchain.Core.QuorumCert.{Vote}
use svp_blockchain.Core.QuorumCert.Build.{IsVote}
use svp_blockchain.Core.Tests.{test_scheme, committee, signer, signer-is_validator}
use svp_blockchain.Core.Transaction.{Transaction, validate_tx, sign_tx, set_tx_data}
use svp_blockchain.Core.Transaction.Signed.{sign_tx-valid, validate_tx_shifted}
use svp_blockchain.Core.Block.{
  Block, new_block, validate_qc, validate_block, sign_block, sum_block, vote_block,
}
use svp_blockchain.Core.Block.Signed.{sign_block-valid, validate_block_joined, vote_block-IsVote}

abbrev keep : Bytes → Bytes
keep b = b

abbrev call : Transaction
call = record {
  nonce = 1;
  hash = [];
  sender = [];
  code_addr = 4 ∷ 5 ∷ [];
  input = 6 ∷ [];
  expiry = 0;
  signature = [];
}

sign_tx-valid_example :
    (validate_tx keep test_scheme (sign_tx keep test_scheme signer call) ≡ ok tt)
    × (set_tx_data test_scheme (sign_tx keep test_scheme signer call)
        ≡ ok (record {
          key = test_scheme.public signer;
          key_str = test_scheme.encode (test_scheme.public signer);
        }))
sign_tx-valid_example = sign_tx-valid keep test_scheme signer call

abbrev signed_call : Transaction
signed_call = sign_tx keep test_scheme signer call

validate_tx_shifted_example :
    validate_tx keep test_scheme (record signed_call { code_addr = 4 ∷ 5 ∷ []; input = 6 ∷ [] })
    ≡ validate_tx keep test_scheme (record signed_call { code_addr = 4 ∷ []; input = 5 ∷ 6 ∷ [] })
validate_tx_shifted_example =
    validate_tx_shifted keep test_scheme signed_call (4 ∷ []) (5 ∷ []) (6 ∷ [])

sign_block-valid_example :
    (validate_block keep test_scheme committee (sign_block keep test_scheme signer new_block)).0
    ≡ ok tt
unfolding new_block validate_qc
sign_block-valid_example =
    sign_block-valid test_scheme keep committee signer new_block refl signer-is_validator

abbrev signed : Block
signed = sign_block keep test_scheme signer new_block

-- a signed block with two transaction hashes joined into one
abbrev joined : Block
joined = sign_block keep test_scheme signer (record new_block {
  block_data = record (new_block.block_data) { transactions = (3 ∷ []) ∷ (1 ∷ 2 ∷ []) ∷ [] };
})

validate_block_joined_example :
    validate_block keep test_scheme committee (record {
      block_data = record (joined.block_data) { transactions = (3 ∷ []) ∷ (1 ∷ 2 ∷ []) ∷ [] };
      quorum_cert = none;
      signature = joined.signature;
    })
    ≡ validate_block keep test_scheme committee (record {
      block_data = record (joined.block_data) {
        transactions = (3 ∷ []) ∷ (1 ∷ []) ∷ (2 ∷ []) ∷ [];
      };
      quorum_cert = none;
      signature = joined.signature;
    })
validate_block_joined_example =
    validate_block_joined test_scheme keep committee none joined.signature joined.block_data
      ((3 ∷ []) ∷ []) (1 ∷ []) (2 ∷ []) []

vote_block-IsVote_example :
    (vote : Vote) × (vote_block test_scheme signer 5 signed ≡ ok vote)
    × (vote.quota ≡ 5)
    × IsVote test_scheme committee (sum_block keep new_block.block_data) 0 vote
unfolding new_block sign_block
vote_block-IsVote_example =
    vote_block-IsVote test_scheme committee signer (sum_block keep new_block.block_data) 5 signed
      refl signer-is_validator
