-- ===== src/Execution/Tracker.antt =====
-- execution/common/state_tracker.go: the record of what is read and written, over a base state.
pub mod Laws
use svp_blockchain.Base.{
  Bool, true, false, ◌||◌, Option, none, some, List, [], ◌∷◌, ◌++◌, if◌then◌else◌, ◌≡◌, refl, arith,
  map,
}
use svp_blockchain.Base.Bytes.{Bytes, Slice, same, same_iff}
use svp_blockchain.Base.Assoc.{Assoc, lookup, insert, has, lookup-insert, has-insert}

pub record Tracker : Type 0 where
  pub key_prefix : Bytes
  pub track_dep : Bool
  pub dependencies : List Bytes
  pub changes : Assoc Slice

unfoldable pub new_state_tracker : Bytes → Tracker
new_state_tracker key_prefix = record {
  key_prefix = key_prefix;
  track_dep = false;
  dependencies = [];
  changes = [];
}

-- The base of the child is the tracker that spawns it: it stands below the child on the stack.
unfoldable pub spawn : Bytes → Tracker
unfolding new_state_tracker
spawn key_prefix = record (new_state_tracker key_prefix) { track_dep = true }

unfoldable pub set_dependency : Bytes → Tracker → Tracker
set_dependency key trk =
    if trk.track_dep then record trk { dependencies = key ∷ trk.dependencies } else trk

-- A tracker with its bases, innermost first; the last one's base is the state store.
abbrev pub Stack : Type 0
Stack = List Tracker

-- A read goes down the stack until a tracker has a change of the key. It marks dependencies.
unfoldable pub get_state : (Bytes → Slice) → Stack → Bytes → Slice × Stack
unfolding set_dependency
get_state store [] key = (store key, [])
get_state store (trk ∷ base) key =
    let full = trk.key_prefix ++ key in
    let below = get_state store base full in
    let trk' = set_dependency full trk in
    elim (lookup full trk.changes) [
      | some value ↦ (value, trk' ∷ base)
      | none ↦ (below.0, trk' ∷ below.1)
    ]

unfoldable pub set_state : Bytes → Slice → Tracker → Tracker
set_state key value trk = record trk { changes = insert (trk.key_prefix ++ key) value trk.changes }

unfoldable pub merge_changes : Tracker → Assoc Slice → Tracker
unfolding set_state
merge_changes trk [] = trk
merge_changes trk ((key, value) ∷ rest) = merge_changes (set_state key value trk) rest

unfoldable pub merge : Tracker → Tracker → Tracker
unfolding merge_changes
merge trk child = merge_changes trk child.changes

unfoldable pub any_changed : Bytes → Assoc Slice → List Bytes → Bool
any_changed key_prefix changes [] = false
any_changed key_prefix changes (key ∷ rest) =
    has (key_prefix ++ key) changes || any_changed key_prefix changes rest

unfoldable pub has_dependency_changes : Tracker → Tracker → Bool
unfolding any_changed
has_dependency_changes trk child = any_changed trk.key_prefix trk.changes child.dependencies

unfoldable pub get_state_changes : Tracker → List (Bytes × Slice)
get_state_changes trk = trk.changes

-- The tracker that a call runs on, as the call leaves it.
unfoldable pub top : Stack → Tracker
unfolding new_state_tracker
top [] = new_state_tracker []
top (trk ∷ base) = trk

-- A chaincode that runs on the innermost tracker of a stack
unfoldable pub write : Bytes → Slice → Stack → Stack
unfolding set_state
write key value [] = []
write key value (trk ∷ base) = set_state key value trk ∷ base
