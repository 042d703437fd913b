-- ===== src/Native/SRole/Members.antt =====
-- Who is a validator after `Init` of native/srole/srole.go.
use svp_blockchain.Base.{
  ℕ, zero, suc, Bool, true, false, not, ◌&&◌, ◌||◌, Option, none, some, List, [], ◌∷◌,
  if◌then◌else◌, ◌≡◌, refl, sym, ap, ◌∙◌, get_elem?, Option-cases, ◌==◌, length, arith, All, inl,
  inr, Bool-cases,
}
use svp_blockchain.Base.Bytes.{Bytes, same, same_iff}
use svp_blockchain.Base.Assoc.{has, has-insert, has-delete}
use svp_blockchain.Base.Keys.{contains}
use svp_blockchain.Core.Crypto.{Scheme, PublicKey}
use svp_blockchain.Node.RoleStore.{
  RoleStore, is_validator, position, remove_at, delete_at, delete_validator, add_validator, enter,
  add_peer, set_window_size, validator_not_found, validator_repeated, panics, process_ends,
  string_to_pub_key,
}
use svp_blockchain.Node.RoleStore.Index.{IsIndexed, validator_keys}
use svp_blockchain.Node.RoleStore.Members.{add_validator-IsIndexed}
use svp_blockchain.Node.RoleStore
use svp_blockchain.Execution.Context.{CallContext, block_height}
use svp_blockchain.Native.SRole.{
  init, as_error, not_genesis, Outcome, Peer, InitInput, to_delete, delete_all, and_then,
  address_to_string, listed, enter_peer, enter_peers, init_roles,
}

-- Every key of the map is that of a validator.
abbrev pub Stands : RoleStore → Type 0
Stands store =
    (k : Bytes)
    → has k store.validator_map ≡ true
    → contains k (validator_keys store.validators) ≡ true

at_zero :
    (met : Bool) (later : Option ℕ)
    → (if met then some 0 else elim later [ none ↦ none | some j ↦ some (suc j) ]) ≡ some 0
    → met ≡ true
at_zero true later e = refl
at_zero false none e = absurd (ground arith)
at_zero false (some j) e = absurd (ground arith)

at_suc :
    (met : Bool) (later : Option ℕ) (i : ℕ)
    → (if met then some 0 else elim later [ none ↦ none | some j ↦ some (suc j) ]) ≡ some (suc i)
    → (met ≡ false) × (later ≡ some i)
at_suc true later i e = absurd (ground arith)
at_suc false none i e = absurd (ground arith)
at_suc false (some j) i e = (refl, ground arith)

remove_at-others :
    (j k : Bytes) (vs : List PublicKey) (i : ℕ)
    → position j vs ≡ some i
    → same j k ≡ false
    → contains k (validator_keys vs) ≡ true
    → contains k (validator_keys (remove_at i vs)) ≡ true
unfolding position remove_at contains
remove_at-others j k [] i p d c = absurd (cc)
remove_at-others j k (v ∷ vs) zero p d c =
    let met = at_zero (same v.key_str j) (position j vs) p in
    ground (arith, same_iff v.key_str j, same_iff v.key_str k, same_iff j k)
remove_at-others j k (v ∷ vs) (suc i) p d c =
    let later = at_suc (same v.key_str j) (position j vs) i p in
    ground (arith, remove_at-others j k vs i later.1 d)

position-contains :
    (k : Bytes) (vs : List PublicKey)
    → contains k (validator_keys vs) ≡ true
    → (i : ℕ) × (position k vs ≡ some i)
unfolding position contains
position-contains k [] c = absurd (cc)
position-contains k (v ∷ vs) c = elim (Bool-cases (same v.key_str k)) [
  | inl h ↦ (0, rw h refl)
  | inr h ↦ let found = position-contains k vs (ground arith) in (suc found.0, rw (h, found.1) refl)
]

to_delete-contains :
    (k : Bytes) (ks : List Bytes) (vs : List PublicKey)
    → contains k (to_delete ks vs) ≡ (contains k (validator_keys vs) && not (contains k ks))
unfolding to_delete contains
to_delete-contains k ks [] = refl
to_delete-contains k ks (v ∷ vs) = ground (arith, to_delete-contains k ks vs, same_iff v.key_str k)

-- deleting a key that stands
delete_validator-has :
    (j k : Bytes) (store : RoleStore)
    → Stands store
    → (delete_validator j store).0 ≡ none
    → Stands (delete_validator j store).1
      × (has k (delete_validator j store).1.validator_map
          ≡ (not (same j k) && has k store.validator_map))
unfolding delete_validator delete_at
delete_validator-has j k store st e = elim (Bool-cases (has j store.validator_map)) [
  | inl h ↦
      let found = position-contains j store.validators (st j h) in
      elim (Option-cases (get_elem? store.stake_quotas found.0)) [
        | inl g ↦ absurd (let x : some panics ≡ none = rw (h, found.1, g) at e in cc)
        | inr (quota, g) ↦
            rw (h, found.1, g)
              (
                (λ l q.
                    let c = has-delete j l store.validator_map in
                    remove_at-others j l store.validators found.0 found.1 (ground arith)
                      (st l (ground arith))),
                ground (arith, has-delete j k store.validator_map),
              )
      ]
  | inr h ↦ absurd (let x : some validator_not_found ≡ none = rw h at e in cc)
]

and_then-none :
    {E : Type 0} (o : Outcome E) (f : RoleStore → Outcome E)
    → (and_then o f).0 ≡ none
    → (o.0 ≡ none) × (and_then o f ≡ f o.1)
and_then-none (none, store) f e = (refl, refl)
and_then-none (some x, store) f e = absurd (cc)

as_error-none :
    (o : Outcome RoleStore.Error) → (as_error o).0 ≡ none → (o.0 ≡ none) × ((as_error o).1 ≡ o.1)
as_error-none (none, store) e = (refl, refl)
as_error-none (some x, store) e = absurd (cc)

delete_all-has :
    (k : Bytes) (ks : List Bytes) (store : RoleStore)
    → Stands store
    → (delete_all ks store).0 ≡ none
    → has k (delete_all ks store).1.validator_map
      ≡ (not (contains k ks) && has k store.validator_map)
unfolding delete_all contains
delete_all-has k [] store st e = ground arith
delete_all-has k (j ∷ ks) store st e =
    let both = and_then-none (delete_validator j store) (λ t. delete_all ks t) e in
    let one = delete_validator-has j k store st both.0 in
    let rest =
      delete_all-has k ks (delete_validator j store).1 one.0 (ap (λ o. o.0) (sym both.1) ∙ e) in
    rw both.1 (ground (arith, rest, one.1))

is_validator-has :
    (k : Bytes) (store : RoleStore) → is_validator store k ≡ true → has k store.validator_map ≡ true
unfolding is_validator
is_validator-has [] store h = absurd (cc)
is_validator-has (b ∷ bs) store h = h

module _ (scheme : Scheme) (decode : Bytes → Bytes) (parse_addr : Bytes → Option Bytes) where
  add_peer-has :
      (pub_key : PublicKey) (point topic : Option Bytes) (store : RoleStore)
      → (add_peer scheme decode parse_addr pub_key point topic store).1.validator_map
        ≡ store.validator_map
  unfolding add_peer
  add_peer-has pub_key none topic store = refl
  add_peer-has pub_key (some p) none store = refl
  add_peer-has pub_key (some p) (some t) store = refl

  add_validator-has :
      (key_str point topic : Bytes) (quota : ℕ) (store : RoleStore) (k : Bytes)
      → (add_validator scheme decode parse_addr key_str point topic quota store).0 ≡ none
      → has k
          (add_validator scheme decode parse_addr key_str point topic quota store).1.validator_map
        ≡ (same key_str k || has k store.validator_map)
  unfolding add_validator enter
  add_validator-has key_str point topic quota store k e =
      elim (Bool-cases (has key_str store.validator_map)) [
        | inl h ↦ absurd (let x : some validator_repeated ≡ none = rw h at e in cc)
        | inr h ↦ elim (Option-cases (string_to_pub_key scheme decode parse_addr key_str)) [
          | inl g ↦ absurd (let x : some process_ends ≡ none = rw (h, g) at e in cc)
          | inr (pub_key, g) ↦
              rw
                (
                  h,
                  g,
                  add_peer-has pub_key (parse_addr point) (parse_addr topic)
                      (enter scheme decode parse_addr key_str pub_key quota store),
                )
                (has-insert key_str k (length store.validators) store.validator_map)
        ]
      ]

  module _ (hex : Bytes → Bytes) where
    -- What it is for the role store to take in the peers of the input
    abbrev Enters : List Bytes → RoleStore → RoleStore → Type 0
    Enters keys store after =
        IsIndexed after
        × ((k : Bytes) → has k after.validator_map ≡ (contains k keys || has k store.validator_map))

    enter_peer-Enters :
        (p : Peer) (store : RoleStore)
        → scheme.encode (decode (address_to_string scheme hex p.addr))
          ≡ address_to_string scheme hex p.addr
        → IsIndexed store
        → (enter_peer scheme hex decode parse_addr p store).0 ≡ none
        → Enters
            (address_to_string scheme hex p.addr ∷ [])
            store
            (enter_peer scheme hex decode parse_addr p store).1
    unfolding enter_peer contains
    enter_peer-Enters p store law c e =
        let key = address_to_string scheme hex p.addr in
        elim (Bool-cases (is_validator store key)) [
          | inl h ↦ rw h (c, λ k. ground (arith, is_validator-has key store h, same_iff key k))
          | inr h ↦
              let e' : (add_validator scheme decode parse_addr key p.point p.topic p.quota store).0
                  ≡ none =
                rw h at e in
              rw h (
                add_validator-IsIndexed scheme decode parse_addr key p.point p.topic p.quota store
                    law c,
                λ k. ground (arith, add_validator-has key p.point p.topic p.quota store k e'),
              )
        ]

    enter_peers-Enters :
        (ps : List Peer) (store : RoleStore)
        → All (λ k. scheme.encode (decode k) ≡ k) (listed scheme hex ps)
        → IsIndexed store
        → (enter_peers scheme hex decode parse_addr ps store).0 ≡ none
        → Enters (listed scheme hex ps) store (enter_peers scheme hex decode parse_addr ps store).1
    unfolding enter_peers listed contains
    enter_peers-Enters [] store law c e = (c, λ k. refl)
    enter_peers-Enters (p ∷ ps) store law c e =
        let both =
          and_then-none (enter_peer scheme hex decode parse_addr p store)
            (λ t. enter_peers scheme hex decode parse_addr ps t) e in
        let one = enter_peer-Enters p store law.0 c both.0 in
        let rest =
          enter_peers-Enters ps (enter_peer scheme hex decode parse_addr p store).1 law.1 one.0
            (ap (λ o. o.0) (sym both.1) ∙ e) in
        rw both.1 (rest.0, λ k. ground (arith, rest.1 k, one.1 k))

    init_roles-listed :
        (input : InitInput) (store : RoleStore)
        → All (λ k. scheme.encode (decode k) ≡ k) (listed scheme hex input.peers)
        → IsIndexed store
        → (init_roles scheme hex decode parse_addr input store).0 ≡ none
        → (k : Bytes)
        → has k (init_roles scheme hex decode parse_addr input store).1.validator_map
          ≡ contains k (listed scheme hex input.peers)
    unfolding init_roles set_window_size
    init_roles-listed input store law c e k =
        let entered =
          enter_peers scheme hex decode parse_addr input.peers (set_window_size input.size store) in
        let both =
          and_then-none entered
            (λ t. delete_all (to_delete (listed scheme hex input.peers) t.validators) t) e in
        let sized : IsIndexed (set_window_size input.size store) = record {
          distinct = c.distinct;
          mapped = c.mapped;
          stakes = c.stakes;
          counted = c.counted;
        } in
        let enters =
          enter_peers-Enters input.peers (set_window_size input.size store) law sized both.0 in
        let left =
          delete_all-has k (to_delete (listed scheme hex input.peers) entered.1.validators)
            entered.1 (λ j h. sym (enters.0.mapped j) ∙ h) (ap (λ o. o.0) (sym both.1) ∙ e) in
        rw both.1 (
          ground (
            arith,
            left,
            enters.0.mapped k,
            enters.1 k,
            to_delete-contains k (listed scheme hex input.peers) entered.1.validators,
          ))

    -- When `Init` of SRole ends without an error on an indexed role store, the validators are exactly the
    -- addresses that the input lists, whoever was one before, if the key string of each listed address
    -- decodes to bytes that encode to it.
    pub init-listed :
        (parse_init : Bytes → Option InitInput) (ctx : CallContext) (input : InitInput)
        (store : RoleStore)
        → parse_init ctx.raw_input ≡ some input
        → All (λ k. scheme.encode (decode k) ≡ k) (listed scheme hex input.peers)
        → IsIndexed store
        → (init scheme hex decode parse_addr parse_init ctx store).0 ≡ none
        → (b : ℕ) (bs : Bytes)
        → is_validator (init scheme hex decode parse_addr parse_init ctx store).1 (b ∷ bs)
          ≡ contains (b ∷ bs) (listed scheme hex input.peers)
    unfolding init is_validator
    init-listed parse_init ctx input store given law c e b bs =
        elim (Bool-cases (block_height ctx == 0)) [
          | inl h ↦
              let e' : (as_error (init_roles scheme hex decode parse_addr input store)).0 ≡ none =
                rw (h, given) at e in
              let done = as_error-none (init_roles scheme hex decode parse_addr input store) e' in
              rw (h, given, done.1) (init_roles-listed input store law c done.0 (b ∷ bs))
          | inr h ↦ absurd (let x : some not_genesis ≡ none = rw h at e in cc)
        ]
