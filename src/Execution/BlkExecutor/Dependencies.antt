-- ===== src/Execution/BlkExecutor/Dependencies.antt =====
-- Why `HasDependencyChanges` is enough: a transaction whose reads the root tracker has no change of
-- runs as it does over the bare store.
use svp_blockchain.Base.{true, false, List, [], ◌∷◌, ◌++◌, ◌≡◌, refl, arith}
use svp_blockchain.Base.Bytes.{Bytes, Slice}
use svp_blockchain.Base.Assoc.{Assoc, lookup, has, has-insert, lookup_absent}
use svp_blockchain.Execution.Prog.{Prog, pure, raise}
use svp_blockchain.Execution.Tracker.{
  Tracker, new_state_tracker, get_state, set_state, set_dependency, any_changed,
  has_dependency_changes, merge, merge_changes,
}
use svp_blockchain.Execution.Tracker.Laws.{key_prefix-merge_changes}
use svp_blockchain.Execution.BlkExecutor.Defs.{read, finish}

-- the root tracker before any merge
abbrev pub bare : Tracker
unfolding new_state_tracker
bare = new_state_tracker []

module _ (store : Bytes → Slice) where
  pub read-tracker :
      (root trk : Tracker) (key : Bytes)
      → (read store root trk key).1 ≡ set_dependency (trk.key_prefix ++ key) trk
  unfolding read get_state
  read-tracker root trk key = ground arith

  pub read-unchanged :
      (root trk : Tracker) (key : Bytes)
      → root.key_prefix ≡ []
      → has (trk.key_prefix ++ key) root.changes ≡ false
      → read store root trk key ≡ read store bare trk key
  unfolding read get_state lookup new_state_tracker
  read-unchanged root trk key e h =
      ground (arith, lookup_absent (trk.key_prefix ++ key) root.changes)

pub dependency_unchanged :
    (root trk : Tracker) (key : Bytes)
    → trk.track_dep ≡ true
    → has_dependency_changes root (set_dependency key trk) ≡ false
    → has (root.key_prefix ++ key) root.changes ≡ false
unfolding has_dependency_changes set_dependency
dependency_unchanged root trk key t h = ground arith

pub dependencies_unchanged :
    (root trk : Tracker) (key : Bytes)
    → has_dependency_changes root (set_dependency key trk) ≡ false
    → has_dependency_changes root trk ≡ false
unfolding has_dependency_changes set_dependency
dependencies_unchanged root trk key h = ground arith

pub set_state-dependencies :
    (root trk : Tracker) (key : Bytes) (value : Slice)
    → has_dependency_changes root (set_state key value trk) ≡ has_dependency_changes root trk
unfolding has_dependency_changes set_state
set_state-dependencies root trk key value = refl

pub set_state-track_dep :
    (trk : Tracker) (key : Bytes) (value : Slice)
    → (set_state key value trk).track_dep ≡ trk.track_dep
unfolding set_state
set_state-track_dep trk key value = refl

pub set_dependency-track_dep :
    (trk : Tracker) (key : Bytes) → (set_dependency key trk).track_dep ≡ trk.track_dep
unfolding set_dependency
set_dependency-track_dep trk key = ground arith

module _ (store : Bytes → Slice) where
  -- A transaction never forgets a dependency.
  pub finish-dependencies :
      (root other : Tracker) (p : Prog (Unit {0})) (trk : Tracker)
      → has_dependency_changes root (finish store other p trk).1 ≡ false
      → has_dependency_changes root trk ≡ false
  unfolding finish
  finish-dependencies root other (pure a) trk h = h
  finish-dependencies root other (raise e) trk h = h
  finish-dependencies root other (Prog.get_state key go) trk h =
      let r = read store other trk key in
      dependencies_unchanged root trk (trk.key_prefix ++ key)
        (rw (← read-tracker store other trk key) (finish-dependencies root other (go r.0) r.1 h))
  finish-dependencies root other (Prog.set_state key value go) trk h =
      rw (← set_state-dependencies root trk key value)
        (finish-dependencies root other go (set_state key value trk) h)

  -- If the root tracker has no change of a dependency, it does not matter to the transaction.
  pub finish_unchanged :
      (root : Tracker) (p : Prog (Unit {0})) (trk : Tracker)
      → root.key_prefix ≡ []
      → trk.track_dep ≡ true
      → has_dependency_changes root (finish store bare p trk).1 ≡ false
      → finish store root p trk ≡ finish store bare p trk
  unfolding finish
  finish_unchanged root (pure a) trk e t h = refl
  finish_unchanged root (raise x) trk e t h = refl
  finish_unchanged root (Prog.get_state key go) trk e t h =
      let r = read store bare trk key in
      let tracked = read-tracker store bare trk key in
      let safe = rw tracked at (finish-dependencies root bare (go r.0) r.1 h) in
      let absent = dependency_unchanged root trk (trk.key_prefix ++ key) t safe in
      let same_read = read-unchanged store root trk key e (rw e at absent) in
      rw same_read
        (finish_unchanged root (go r.0) r.1 e (rw (tracked, set_dependency-track_dep) t) h)
  finish_unchanged root (Prog.set_state key value go) trk e t h =
      finish_unchanged root go (set_state key value trk) e (rw set_state-track_dep t) h

has-merge_changes :
    (changes : Assoc Slice) (trk : Tracker) (key : Bytes)
    → has key (merge_changes trk changes).changes ≡ false
    → has key trk.changes ≡ false
unfolding merge_changes set_state
has-merge_changes [] trk key h = h
has-merge_changes ((j, v) ∷ rest) trk key h = ground (
  arith,
  has-merge_changes rest (set_state j v trk) key h,
  has-insert (trk.key_prefix ++ j) key v trk.changes,
)

any_changed-merge :
    (changes : Assoc Slice) (trk : Tracker) (key_prefix : Bytes) (keys : List Bytes)
    → any_changed key_prefix (merge_changes trk changes).changes keys ≡ false
    → any_changed key_prefix trk.changes keys ≡ false
unfolding any_changed
any_changed-merge changes trk key_prefix [] h = refl
any_changed-merge changes trk key_prefix (k ∷ keys) h = ground (
  arith,
  has-merge_changes changes trk (key_prefix ++ k),
  any_changed-merge changes trk key_prefix keys,
)

pub dependencies-merge :
    (root child trk : Tracker)
    → has_dependency_changes (merge root child) trk ≡ false
    → has_dependency_changes root trk ≡ false
unfolding merge has_dependency_changes
dependencies-merge root child trk h =
    any_changed-merge child.changes root root.key_prefix trk.dependencies
      (rw (key_prefix-merge_changes child.changes root) at h)
