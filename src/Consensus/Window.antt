-- ===== src/Consensus/Window.antt =====
-- The window of consensus/status.go: the quotas of the last certificates and of the node's last votes.
-- The random number of `RandomVote` and the flag `PreserveTxFlag` are arguments; the pauses are left out.
pub mod Sums
pub mod Quota
use svp_blockchain.Base.{
  ℕ, ◌+◌, ◌*◌, ◌-◌, ◌/◌, ◌%◌, ◌^◌, Bool, true, false, not, ◌&&◌, Option, none, some, List, [], ◌∷◌,
  ◌++◌, leb, ltb, ◌==◌, if◌then◌else◌,
}
use mathlib.Core.Option
use svp_blockchain.Base.Partial.{◌>>=◌}
use svp_blockchain.Base.Words.{u64_mod, add64, sub64}

pub data Strategy : Type 0 where
  average_vote random_vote ordinary_vote monopoly_vote : Strategy

pub record Window : Type 0 where
  pub qc_quotas : List ℕ
  pub qc_acc : ℕ
  pub vote_quotas : List ℕ
  pub vote_acc : ℕ
  pub majority : ℕ
  pub limit : ℕ
  pub height : ℕ
  pub size : ℕ
  pub strategy : Strategy
  pub recover : Bool

-- one of the two halves of `update`: the oldest quota goes, the new one is appended
unfoldable pub shift : List ℕ → ℕ → ℕ → Option (List ℕ × ℕ)
shift [] acc q = none
shift (oldest ∷ rest) acc q = some (rest ++ q ∷ [], add64 (sub64 acc oldest) q)

-- `none` is an index out of range, which panics.
unfoldable pub slide : ℕ → ℕ → ℕ → Window → Option Window
unfolding shift
slide qc vote height w = do
  qcs ← shift w.qc_quotas w.qc_acc qc
  votes ← shift w.vote_quotas w.vote_acc vote
  some (record w {
    qc_quotas = qcs.0;
    qc_acc = qcs.1;
    vote_quotas = votes.0;
    vote_acc = votes.1;
    height = height;
  })

unfoldable pub update : ℕ → ℕ → ℕ → Window → Option Window
unfolding slide
update qc vote height w = if ltb w.height height then slide qc vote height w else some w

-- `voteQuotas[0]`
unfoldable pub oldest : List ℕ → Option ℕ
oldest [] = none
oldest (q ∷ rest) = some q

-- `a / b`, which panics for a zero `b`
unfoldable pub div64 : ℕ → ℕ → Option ℕ
div64 a b = if b == 0 then none else some (a / b)

-- `a - b` if that is not negative as an int, or else 0
unfoldable pub positive_part : ℕ → ℕ → ℕ
positive_part a b = if leb (2 ^ 63) (sub64 a b) then 0 else sub64 a b

unfoldable pub upper : Window → ℕ → ℕ
unfolding positive_part
upper w pre = positive_part (add64 (3 * w.limit % u64_mod) 3 / 4) pre

unfoldable pub lower : Window → ℕ → ℕ
unfolding positive_part
lower w pre = positive_part (add64 w.limit 1 / 2) pre

-- `random % (max-min+1) + min`, which panics where the divisor wraps to 0
unfoldable pub between : ℕ → ℕ → ℕ → Option ℕ
between random max min =
    let width = add64 (sub64 max min) 1 in
    if width == 0 then none else some (add64 (random % width) min)

-- the quota that fills the window up to the limit
unfoldable pub remainder : Window → ℕ → ℕ
remainder w first = add64 (sub64 w.limit w.vote_acc) first

unfoldable pub random_quota : Bool → ℕ → Window → ℕ → Option ℕ
unfolding remainder upper lower between
random_quota preserve_tx random w first =
    let pre = sub64 w.vote_acc first in
    if not preserve_tx && ltb 50 w.height
    then some (remainder w first)
    else between random (upper w pre) (lower w pre)

unfoldable pub share : Window → Option (ℕ × Bool)
unfolding div64
share w = Option.map (λ q. (q, true)) (div64 w.limit w.size)

-- `vote`: the quota and whether to vote; `none` is a panic.
unfoldable pub vote : Bool → ℕ → Window → Option (ℕ × Bool)
unfolding random_quota share oldest remainder
vote preserve_tx random w = elim w.strategy [
  | average_vote ↦ share w
  | random_vote ↦ do
    first ← oldest w.vote_quotas
    q ← random_quota preserve_tx random w first
    some (q, true)
  | ordinary_vote ↦
      if not w.recover
        && leb 100 w.height
        && leb w.height (add64 99 w.size)
        && leb w.majority w.limit
      then some (0, false)
      else share w
  | monopoly_vote ↦
      if not w.recover && w.height == 100
      then if leb w.majority w.limit
        then Option.map (λ first. (remainder w first, true)) (oldest w.vote_quotas)
        else some (0, false)
      else share w
]
