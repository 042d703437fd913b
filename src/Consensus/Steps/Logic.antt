-- ===== src/Consensus/Steps/Logic.antt =====
-- What holds of a run of the handlers in consensus/, of the state before it and the state after it.
use svp_blockchain.Base.{Bool, true, false, if◌then◌else◌, Option, none, some, ◌≡◌, refl, ◌∙◌}
use svp_blockchain.Consensus.Node.{
  Node, M, run_next, ◌>>=◌, return, read, or_panic, if_nil, if_success, ViewChange, success,
  ongoing, failed,
}

module _ {W : Type 0} where
  -- A relation of the state before to the state after, where a run ends
  abbrev pub After : {A : Type 0} → (Node W → Type 0) → Option (A × Node W) → Type 0
  After Q none = Unit
  After Q (some (a, t)) = Q t

  After-run_next :
      {A B : Type 0} (P Q : Node W → Type 0) (o : Option (A × Node W)) (f : A → M W B)
      → After P o
      → ((a : A) (t : Node W) → P t → After Q (f a t))
      → After Q (run_next o f)
  After-run_next P Q none f p h = tt
  After-run_next P Q (some (a, t)) f p h = h a t p

  -- the rule for a sequence
  pub After-bind :
      {A B : Type 0} (P Q : Node W → Type 0) (m : M W A) (f : A → M W B) (s : Node W)
      → After P (m s)
      → ((a : A) (t : Node W) → P t → After Q (f a t))
      → After Q ((m >>= f) s)
  After-bind P Q m f s p h = After-run_next P Q (m s) f p h

  pub After-mono :
      {A : Type 0} (P Q : Node W → Type 0) (o : Option (A × Node W))
      → ((t : Node W) → P t → Q t)
      → After P o
      → After Q o
  After-mono P Q none h p = tt
  After-mono P Q (some (a, t)) h p = h t p

  module _ (R : Node W → Node W → Type 0) (R_refl : (s : Node W) → R s s)
      (R_trans : (s t u : Node W) → R s t → R t u → R s u) where
    -- From every state the run leads along the relation.
    abbrev pub Along : {A : Type 0} → M W A → Type 0
    Along m = (s : Node W) → After (R s) (m s)

    pub Along-bind :
        {A B : Type 0} (m : M W A) (f : A → M W B)
        → Along m
        → ((a : A) → Along (f a))
        → Along (m >>= f)
    Along-bind m f g h s =
        After-bind (R s) (R s) m f s (g s)
          (λ a t r. After-mono (R t) (R s) (f a t) (λ u q. R_trans s t u r q) (h a t))

    pub Along-read : {A : Type 0} (f : Node W → A) → Along (read f)
    Along-read f s = R_refl s

    pub Along-return : {A : Type 0} (a : A) → Along (return a)
    Along-return a s = R_refl s

    pub Along-or_panic : {A : Type 0} (o : Option A) → Along (or_panic o)
    Along-or_panic none s = tt
    Along-or_panic (some a) s = R_refl s

    pub Along-if :
        {A : Type 0} (b : Bool) (m n : M W A) → Along m → Along n → Along (if b then m else n)
    Along-if true m n g h = g
    Along-if false m n g h = h

    pub Along-if_nil :
        {A B : Type 0} (o : Option A) (m : M W B) (f : A → M W B)
        → Along m
        → ((a : A) → Along (f a))
        → Along (if_nil o m f)
    Along-if_nil none m f g h = g
    Along-if_nil (some a) m f g h = h a

    pub Along-if_success :
        {B : Type 0} (v : ViewChange) (m n : M W B) → Along m → Along n → Along (if_success v m n)
    Along-if_success success m n g h = g
    Along-if_success ongoing m n g h = h
    Along-if_success failed m n g h = h

  -- The highest certificate and the last executed block are the same.
  abbrev pub Same : Node W → Node W → Type 0
  Same s t = (s.qc_high ≡ t.qc_high) × (s.b_exec ≡ t.b_exec)

  pub Same-refl : (s : Node W) → Same s s
  Same-refl s = (refl, refl)

  pub Same-trans : (s t u : Node W) → Same s t → Same t u → Same s u
  Same-trans s t u a b = (a.0 ∙ b.0, a.1 ∙ b.1)
