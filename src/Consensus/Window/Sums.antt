-- ===== src/Consensus/Window/Sums.antt =====
-- The accumulators of the window are the sums of its quotas, on uint64.
use svp_blockchain.Base.{
  ℕ, ◌+◌, ◌%◌, ◌^◌, ◌<◌, ◌≤◌, Option, none, some, List, [], ◌∷◌, ◌++◌, length, length-append, sum,
  sum-append, ltb, All, ◌≡◌, arith, inl, inr, Bool-cases,
}
use svp_blockchain.Base.Partial.{◌>>=◌}
use svp_blockchain.Base.Words.{add64, sub64}
use svp_blockchain.Consensus.Window.{Window, shift, slide, update}

-- `n` quotas with their sum
pub record IsSummed (n : ℕ) (quotas : List ℕ) (acc : ℕ) : Type 0 where
  pub count : length quotas ≡ n
  pub total : acc ≡ sum quotas % 2 ^ 64
  pub words : All (λ q. q < 2 ^ 64) quotas

pub record IsWindow (n : ℕ) (w : Window) : Type 0 where
  pub qcs : IsSummed n w.qc_quotas w.qc_acc
  pub votes : IsSummed n w.vote_quotas w.vote_acc

-- `shift` on a window that has a quota gives one of the same length, summed again.
abbrev pub Shifts : ℕ → Option (List ℕ × ℕ) → Type 0
Shifts n none = ⊥
Shifts n (some (quotas, acc)) = IsSummed n quotas acc

snoc-All : (P : ℕ → Type 0) (q : ℕ) (xs : List ℕ) → All P xs → P q → All P (xs ++ q ∷ [])
snoc-All P q [] a p = (p, tt)
snoc-All P q (x ∷ xs) a p = (a.0, snoc-All P q xs a.1 p)

moved :
    (b o q acc : ℕ)
    → o < 2 ^ 64
    → acc ≡ (o + b) % 2 ^ 64
    → add64 (sub64 acc o) q ≡ (b + (q + 0)) % 2 ^ 64
moved b o q acc h e = omega (arith, h, e)

shift-Summed :
    (n : ℕ) (quotas : List ℕ) (acc q : ℕ)
    → 0 < n
    → q < 2 ^ 64
    → IsSummed n quotas acc
    → Shifts n (shift quotas acc q)
unfolding shift
shift-Summed n [] acc q h w s = absurd (omega (arith, s.count))
shift-Summed n (o ∷ rest) acc q h w s = record {
  count = omega (arith, s.count, length-append rest (q ∷ []));
  total = rw (sum-append rest (q ∷ [])) (moved (sum rest) o q acc s.words.0 s.total);
  words = snoc-All (λ i. i < 2 ^ 64) q rest s.words.1 w;
}

abbrev pub Updates : ℕ → ℕ → Window → Option Window → Type 0
Updates n height w none = ⊥
Updates n height w (some w') = IsWindow n w' × (w.height ≤ w'.height) × (height ≤ w'.height)

updates :
    (n qc vote height : ℕ) (w : Window) (a b : Option (List ℕ × ℕ))
    → w.height < height
    → Shifts n a
    → Shifts n b
    → Updates n height w (do
      qcs ← a
      votes ← b
      some (record w {
        qc_quotas = qcs.0;
        qc_acc = qcs.1;
        vote_quotas = votes.0;
        vote_acc = votes.1;
        height = height;
      }))
updates n qc vote height w none b h s t = absurd s
updates n qc vote height w (some a) none h s t = absurd t
updates n qc vote height w (some a) (some b) h s t =
    (record { qcs = s; votes = t }, omega arith, omega arith)

-- `update` does not panic on a window of n > 0 quotas whose accumulators are their sums modulo 2^64, and
-- gives such a window again, whose height is at least the old one and the given one.
pub update-IsWindow :
    (n qc vote height : ℕ) (w : Window)
    → 0 < n
    → qc < 2 ^ 64
    → vote < 2 ^ 64
    → IsWindow n w
    → Updates n height w (update qc vote height w)
unfolding update slide
update-IsWindow n qc vote height w h hq hv c = elim (Bool-cases (ltb w.height height)) [
  | inl e ↦ rw e (
      updates n qc vote height w (shift w.qc_quotas w.qc_acc qc)
        (shift w.vote_quotas w.vote_acc vote) (ground arith)
        (shift-Summed n w.qc_quotas w.qc_acc qc h hq c.qcs)
        (shift-Summed n w.vote_quotas w.vote_acc vote h hv c.votes))
  | inr e ↦ rw e (c, omega arith, ground arith)
]
