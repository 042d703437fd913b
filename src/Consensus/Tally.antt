-- ===== src/Consensus/Tally.antt =====
-- The proposal and its votes, of consensus/status.go. Of the block only the hash and the view are read.
pub mod Quorum
use svp_blockchain.Base.{
  ℕ, ◌+◌, Bool, true, false, not, Option, none, some, List, [], ◌∷◌, length, map, leb, ◌==◌, ◌&&◌,
  if◌then◌else◌,
}
use mathlib.Core.Option
use svp_blockchain.Base.Bytes.{Bytes, same, contents}
use svp_blockchain.Base.Assoc.{Assoc, insert, has}
use svp_blockchain.Base.Words.{add64, sub64}
use svp_blockchain.Core.QuorumCert.{Vote}
use svp_blockchain.Consensus.Window.{Window, oldest, update, vote}

pub record Proposal : Type 0 where
  pub hash : Bytes
  pub view : ℕ

-- A nil map of votes reads as an empty one.
pub record Status : Type 0 where
  pub proposal : Option Proposal
  pub votes : Assoc Vote
  pub quota_count : ℕ
  pub window : Window

pub data VoteError : Type 0 where
  no_proposal not_same_block not_same_view duplicate_vote : VoteError

unfoldable pub start_proposal : Proposal → Status → Status
start_proposal blk s = record s { proposal = some blk; votes = []; quota_count = 0 }

unfoldable pub end_proposal : Status → Status
end_proposal s = record s { proposal = none; votes = []; quota_count = 0 }

unfoldable pub enter_vote : Vote → Status → Status
enter_vote vote s = record s {
  votes = insert vote.voter.signer.key_str vote s.votes;
  quota_count = add64 s.quota_count vote.quota;
}

-- `AddVote`, by the proposal in progress
unfoldable pub add_to : Option Proposal → Vote → Status → Option VoteError × Status
unfolding enter_vote
add_to none vote s = (some no_proposal, s)
add_to (some blk) vote s =
    if not (same blk.hash (contents vote.block_hash))
    then (some not_same_block, s)
    else if not (blk.view == vote.view)
    then (some not_same_view, s)
    else if has vote.voter.signer.key_str s.votes
    then (some duplicate_vote, s)
    else (none, enter_vote vote s)

unfoldable pub add_vote : Vote → Status → Option VoteError × Status
unfolding add_to
add_vote vote s = add_to s.proposal vote s

unfoldable pub get_vote_count : Status → ℕ
get_vote_count s = length s.votes

-- In the order of the map, which Go leaves open
unfoldable pub get_votes : Status → List Vote
get_votes s = map (λ (key, vote). vote) s.votes

-- `none` is an index out of range, which panics.
unfoldable pub get_quota_count : Status → Option ℕ
unfolding oldest
get_quota_count s =
    Option.map (λ first. sub64 (add64 s.quota_count s.window.qc_acc) first)
      (oldest s.window.qc_quotas)

unfoldable pub get_qc_window : Status → List ℕ
get_qc_window s = s.window.qc_quotas

unfoldable pub get_vote_window : Status → List ℕ
get_vote_window s = s.window.vote_quotas

-- `none` is the panic of `update`.
unfoldable pub update_window : ℕ → ℕ → ℕ → Status → Option Status
unfolding update
update_window qc vote height s =
    Option.map (λ w. record s { window = w }) (update qc vote height s.window)

unfoldable pub recover_flag : Status → Status
recover_flag s = record s { window = record (s.window) { recover = true } }

abbrev pub or_refused : ℕ × Bool → Option ℕ
or_refused (quota, true) = some quota
or_refused (quota, false) = none

-- The outer `none` is the panic of `vote`, the inner one the error.
unfoldable pub get_vote_quota : Bool → ℕ → Status → Option (Option ℕ)
unfolding vote
get_vote_quota preserve_tx random s = Option.map or_refused (vote preserve_tx random s.window)

-- the votes that arrive, one after the other
unfoldable pub add_all : List Vote → Status → Status
unfolding add_vote
add_all [] s = s
add_all (vote ∷ rest) s = add_all rest (add_vote vote s).1
