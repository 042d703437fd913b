-- ===== src/Consensus/Validator/Ends.antt =====
-- What holds of the value and the state that a run of a handler in consensus/ ends with.
use svp_blockchain.Base.{Bool, true, false, if◌then◌else◌, Option, none, some, ◌≡◌, refl}
use svp_blockchain.Consensus.Node.{Node, M, run_next, ◌>>=◌, or_panic, if_nil}
use svp_blockchain.Consensus.Steps.Logic.{After}

module _ {W : Type 0} where
  -- A relation of the value and the state that a run ends with
  abbrev pub Ends : {A : Type 0} → (A → Node W → Type 0) → Option (A × Node W) → Type 0
  Ends Q none = Unit
  Ends Q (some (a, t)) = Q a t

  pub Ends-mono :
      {A : Type 0} (P Q : A → Node W → Type 0) (o : Option (A × Node W))
      → ((a : A) (t : Node W) → P a t → Q a t)
      → Ends P o
      → Ends Q o
  Ends-mono P Q none h p = tt
  Ends-mono P Q (some (a, t)) h p = h a t p

  pub Ends-run_next :
      {A B : Type 0} (P : Node W → Type 0) (Q : B → Node W → Type 0) (o : Option (A × Node W))
      (f : A → M W B)
      → After P o
      → ((a : A) (t : Node W) → P t → Ends Q (f a t))
      → Ends Q (run_next o f)
  Ends-run_next P Q none f p h = tt
  Ends-run_next P Q (some (a, t)) f p h = h a t p

  pub Ends-bind :
      {A B : Type 0} (P : Node W → Type 0) (Q : B → Node W → Type 0) (m : M W A) (f : A → M W B)
      (s : Node W)
      → After P (m s)
      → ((a : A) (t : Node W) → P t → Ends Q (f a t))
      → Ends Q ((m >>= f) s)
  Ends-bind P Q m f s = Ends-run_next P Q (m s) f

  pub Ends-if :
      {B : Type 0} (Q : B → Node W → Type 0) (b : Bool) (m n : M W B) (s : Node W)
      → (b ≡ true → Ends Q (m s))
      → (b ≡ false → Ends Q (n s))
      → Ends Q ((if b then m else n) s)
  Ends-if Q true m n s g h = g refl
  Ends-if Q false m n s g h = h refl

  pub Ends-if_nil :
      {A B : Type 0} (Q : B → Node W → Type 0) (o : Option A) (m : M W B) (f : A → M W B)
      (s : Node W)
      → (o ≡ none → Ends Q (m s))
      → ((a : A) → o ≡ some a → Ends Q (f a s))
      → Ends Q (if_nil o m f s)
  Ends-if_nil Q none m f s g h = g refl
  Ends-if_nil Q (some a) m f s g h = h a refl

  pub Ends-value :
      {A B : Type 0} (Q : B → Node W → Type 0) (o : Option A) (f : A → M W B) (s : Node W)
      → ((a : A) → o ≡ some a → Ends Q (f a s))
      → Ends Q ((or_panic o >>= f) s)
  Ends-value Q none f s h = tt
  Ends-value Q (some a) f s h = h a refl

  pub Ends-any :
      {A : Type 0} (Q : A → Node W → Type 0) (o : Option (A × Node W))
      → ((a : A) (t : Node W) → Q a t)
      → Ends Q o
  Ends-any Q none h = tt
  Ends-any Q (some (a, t)) h = h a t

  pub Ends-both :
      {A : Type 0} (P : Node W → Type 0) (Q : A → Node W → Type 0) (o : Option (A × Node W))
      → After P o
      → Ends Q o
      → Ends (λ a t. P t × Q a t) o
  Ends-both P Q none p q = tt
  Ends-both P Q (some (a, t)) p q = (p, q)

  -- the state that a run ends in is the one that it gives
  pub Ends-given :
      {A : Type 0} (P : Node W → Type 0) (o : Option (A × Node W))
      → After P o
      → Ends (λ a t. P t × (o ≡ some (a, t))) o
  Ends-given P none p = tt
  Ends-given P (some (a, t)) p = (p, refl)

  Ends-next_run :
      {A B : Type 0} (P : A → Node W → Type 0) (Q : B → Node W → Type 0) (o : Option (A × Node W))
      (f : A → M W B)
      → Ends P o
      → ((a : A) (t : Node W) → P a t → Ends Q (f a t))
      → Ends Q (run_next o f)
  Ends-next_run P Q none f p h = tt
  Ends-next_run P Q (some (a, t)) f p h = h a t p

  pub Ends-next :
      {A B : Type 0} (P : A → Node W → Type 0) (Q : B → Node W → Type 0) (m : M W A) (f : A → M W B)
      (s : Node W)
      → Ends P (m s)
      → ((a : A) (t : Node W) → P a t → Ends Q (f a t))
      → Ends Q ((m >>= f) s)
  Ends-next P Q m f s = Ends-next_run P Q (m s) f
