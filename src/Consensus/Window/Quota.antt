-- ===== src/Consensus/Window/Quota.antt =====
-- How much a node votes: a random vote fills its window between a half and three quarters of its stake.
use svp_blockchain.Base.{
  ℕ, suc, ◌+◌, ◌*◌, ◌-◌, ◌/◌, ◌%◌, ◌^◌, ◌<◌, ◌≤◌, Bool, false, not, ◌&&◌, Option, none, some, ltb,
  ◌==◌, ◌≡◌, arith,
}
use native.Mathlib.Nat.{mod-lt}
use svp_blockchain.Base.Words.{add64, sub64, u64_mod}
use svp_blockchain.Consensus.Window.{Window, random_quota, between, upper, lower, positive_part}

-- the quota is no panic, and lies between
abbrev pub Between : ℕ → ℕ → Option ℕ → Type 0
Between low high none = ⊥
Between low high (some q) = (low ≤ q) × (q ≤ high)

between_lem :
    (random max min : ℕ) → min ≤ max → max + 1 < 2 ^ 64 → Between min max (between random max min)
unfolding between
between_lem random max min h b =
    let width : add64 (sub64 max min) 1 ≡ suc (max - min) = omega (arith, h, b) in
    let rest = mod-lt random {m = suc (max - min)} (omega arith) in
    let nonzero : (suc (max - min) == 0) ≡ false = ground arith in
    rw (width, nonzero) (omega (arith, h, b, rest), omega (arith, h, b, rest))

positive_part_lem : (a b : ℕ) → a < 2 ^ 63 → b < 2 ^ 63 → positive_part a b ≡ a - b
unfolding positive_part
positive_part_lem a b h k = ground arith

-- Where `RandomVote` draws (transactions are preserved, or the height is at most 50), for a limit below 2^61 and other votes in the window that sum below 2^63, it
-- does not panic, and the quota brings the votes of the window to between a half (rounded up) and three
-- quarters (rounded up) of the limit; it is 0 where they are above that already.
pub random_quota-bounds :
    (preserve_tx : Bool) (random first pre : ℕ) (w : Window)
    → (not preserve_tx && ltb 50 w.height) ≡ false
    → w.limit < 2 ^ 61
    → pre < 2 ^ 63
    → sub64 w.vote_acc first ≡ pre
    → Between
        ((w.limit + 1) / 2 - pre)
        ((3 * w.limit + 3) / 4 - pre)
        (random_quota preserve_tx random w first)
unfolding random_quota upper lower
random_quota-bounds preserve_tx random first pre w d h k e =
    let high : add64 (3 * w.limit % u64_mod) 3 ≡ 3 * w.limit + 3 = omega (arith, h) in
    let low : add64 w.limit 1 ≡ w.limit + 1 = omega (arith, h) in
    let max = positive_part_lem ((3 * w.limit + 3) / 4) pre (omega arith) k in
    let min = positive_part_lem ((w.limit + 1) / 2) pre (omega arith) k in
    rw (e, d, high, low, max, min)
      (between_lem random ((3 * w.limit + 3) / 4 - pre) ((w.limit + 1) / 2 - pre) (omega arith)
        (omega (arith, h)))
