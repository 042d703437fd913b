-- ===== src/Execution/Tracker/Laws.antt =====
-- What a tracker shows of its writes, and what a merge shows of the child
-- (execution/common/state_tracker.go).
use svp_blockchain.Base.{Option, none, some, [], ◌∷◌, ◌++◌, if◌then◌else◌, ◌≡◌, refl, arith}
use svp_blockchain.Base.Bytes.{Bytes, Slice, same, same_iff, same-append}
use svp_blockchain.Base.Assoc.{Assoc, lookup, lookup-insert, Distinct, lookup_absent}
use svp_blockchain.Execution.Tracker.{Tracker, Stack, get_state, set_state, merge, merge_changes}

module _ (store : Bytes → Slice) (base : Stack) where
  -- A read after a write returns what was written at that key, and the old value at any other.
  pub get_state-set_state :
      (trk : Tracker) (key other : Bytes) (value : Slice)
      → (get_state store (set_state key value trk ∷ base) other).0
        ≡ (if same key other then value else (get_state store (trk ∷ base) other).0)
  unfolding get_state set_state
  get_state-set_state trk key other value = ground (
    arith,
    lookup-insert (trk.key_prefix ++ key) (trk.key_prefix ++ other) value trk.changes,
    same-append trk.key_prefix key other,
  )

abbrev or_else : Option Slice → Option Slice → Option Slice
or_else (some v) o = some v
or_else none o = o

pub lookup-merge_changes :
    (changes : Assoc Slice) (trk : Tracker) (key : Bytes)
    → Distinct changes
    → lookup (trk.key_prefix ++ key) (merge_changes trk changes).changes
      ≡ or_else (lookup key changes) (lookup (trk.key_prefix ++ key) trk.changes)
unfolding merge_changes set_state lookup
lookup-merge_changes [] trk key d = refl
lookup-merge_changes ((j, v) ∷ rest) trk key d = ground (
  arith,
  lookup-merge_changes rest (set_state j v trk) key d.1,
  lookup-insert (trk.key_prefix ++ j) (trk.key_prefix ++ key) v trk.changes,
  same-append trk.key_prefix j key,
  same_iff j key,
  lookup_absent j rest,
)

pub key_prefix-merge_changes :
    (changes : Assoc Slice) (trk : Tracker)
    → (merge_changes trk changes).key_prefix ≡ trk.key_prefix
unfolding merge_changes set_state
key_prefix-merge_changes [] trk = refl
key_prefix-merge_changes ((j, v) ∷ rest) trk = key_prefix-merge_changes rest (set_state j v trk)

module _ (store : Bytes → Slice) (base : Stack) where
  -- After the merge of a child whose changed keys are distinct, the parent shows at a
  -- key what the child showed before it.
  pub get_state-merge :
      (trk child : Tracker) (key : Bytes)
      → Distinct child.changes
      → (get_state store (merge trk child ∷ base) (child.key_prefix ++ key)).0
        ≡ (get_state store (child ∷ trk ∷ base) key).0
  unfolding get_state merge
  get_state-merge trk child key d = ground (
    arith,
    lookup-merge_changes child.changes trk (child.key_prefix ++ key) d,
    key_prefix-merge_changes child.changes trk,
  )
