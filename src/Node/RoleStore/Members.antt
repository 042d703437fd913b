-- ===== src/Node/RoleStore/Members.antt =====
-- Adding and deleting validators: what `AddValidator` keeps, and what `DeleteValidator` leaves behind.
use svp_blockchain.Base.{
  ℕ, zero, suc, ◌+◌, ◌-◌, ◌<◌, ◌≤◌, Bool, true, false, ◌||◌, Option, none, some, List, [], ◌∷◌,
  ◌++◌, length, length-append, get_elem?, sum, sum-append, if◌then◌else◌, ◌≡◌, refl, sym, ◌∙◌,
  arith, ap, Option-cases, ◌==◌, inl, inr, Bool-cases, ◌%◌, ◌^◌,
}
use mathlib.Core.Option.{some-injective}
use svp_blockchain.Base.Bytes.{Bytes, same, same_comm}
use svp_blockchain.Base.Assoc.{lookup, has, has-insert, lookup-delete}
use svp_blockchain.Base.Keys.{contains, AllDistinct}
use svp_blockchain.Base.Words.{add64}
use svp_blockchain.Core.Crypto.{Scheme, PublicKey, new_public_key}
use svp_blockchain.Node.RoleStore.{
  RoleStore, string_to_pub_key, enter, add_peer, add_validator, delete_at, delete_validator,
  remove_at, position, get_validator_index, get_validator_quota,
}
use svp_blockchain.Node.RoleStore.Index.{IsIndexed, validator_keys}

contains-snoc :
    (k j : Bytes) (ks : List Bytes) → contains k (ks ++ j ∷ []) ≡ (contains k ks || same j k)
unfolding contains
contains-snoc k j [] = ground arith
contains-snoc k j (i ∷ ks) = ground (arith, contains-snoc k j ks)

snoc-AllDistinct :
    (k : Bytes) (ks : List Bytes)
    → AllDistinct ks
    → contains k ks ≡ false
    → AllDistinct (ks ++ k ∷ [])
unfolding contains
snoc-AllDistinct k [] d h = (refl, tt)
snoc-AllDistinct k (j ∷ ks) d h =
    (ground (arith, contains-snoc j k ks, same_comm j k), snoc-AllDistinct k ks d.1 (ground arith))

validator_keys-append :
    (vs ws : List PublicKey) → validator_keys (vs ++ ws) ≡ validator_keys vs ++ validator_keys ws
validator_keys-append [] ws = refl
validator_keys-append (v ∷ vs) ws = ap (λ ks. v.key_str ∷ ks) (validator_keys-append vs ws)

sum_mod : (a b q : ℕ) → a ≡ b % 2 ^ 64 → add64 a q ≡ (b + (q + 0)) % 2 ^ 64
sum_mod a b q e = omega (arith, e)

module _ (scheme : Scheme) (decode : Bytes → Bytes) (parse_addr : Bytes → Option Bytes) where
  enter-IsIndexed :
      (key_str : Bytes) (pub_key : PublicKey) (quota : ℕ) (store : RoleStore)
      → pub_key.key_str ≡ key_str
      → has key_str store.validator_map ≡ false
      → IsIndexed store
      → IsIndexed (enter scheme decode parse_addr key_str pub_key quota store)
  unfolding enter
  enter-IsIndexed key_str pub_key quota store e h c =
      let old = validator_keys-append store.validators (pub_key ∷ []) in
      record {
        distinct =
            rw (old, e)
              (snoc-AllDistinct key_str (validator_keys store.validators) c.distinct
                (ground (arith, c.mapped key_str)));
        mapped = λ k.
            rw (old, e)
              (ground (
                arith,
                has-insert key_str k (length store.validators) store.validator_map,
                c.mapped k,
                contains-snoc k key_str (validator_keys store.validators),
              ));
        stakes = omega (
          arith,
          c.stakes,
          length-append store.stake_quotas (quota ∷ []),
          length-append store.validators (pub_key ∷ []),
        );
        counted =
            rw (sum-append store.stake_quotas (quota ∷ []))
              (sum_mod store.quota_count (sum store.stake_quotas) quota c.counted);
      }

  add_peer-kept :
      (pub_key : PublicKey) (point topic : Option Bytes) (store : RoleStore)
      → IsIndexed store
      → IsIndexed (add_peer scheme decode parse_addr pub_key point topic store).1
  unfolding add_peer
  add_peer-kept pub_key none topic store c = c
  add_peer-kept pub_key (some p) none store c = c
  add_peer-kept pub_key (some p) (some t) store c = record {
    distinct = c.distinct;
    mapped = c.mapped;
    stakes = c.stakes;
    counted = c.counted;
  }

  -- The key string of a parsed key is what its bytes encode to.
  pub string_to_pub_key-key_str :
      (v : Bytes) (pub_key : PublicKey)
      → string_to_pub_key scheme decode parse_addr v ≡ some pub_key
      → scheme.encode (decode v) ≡ v
      → pub_key.key_str ≡ v
  unfolding string_to_pub_key new_public_key
  string_to_pub_key-key_str v pub_key e law = elim (Bool-cases (length (decode v) == 32)) [
    | inl h ↦
        let parsed : some (record { key = decode v; key_str = scheme.encode (decode v) })
            ≡ some pub_key =
          rw h at e in
        sym (ap (λ (p : PublicKey). p.key_str) (some-injective _ pub_key parsed)) ∙ law
    | inr h ↦ absurd (let x : none ≡ some pub_key = rw h at e in cc)
  ]

  -- `AddValidator` keeps the index of the role store, whether it succeeds or returns an error: keys distinct
  -- and as in the map, one stake per validator, and the quota count the sum of the stakes modulo 2^64. The
  -- key string is one that decodes to bytes that encode to it; where these are no key, the process ends.
  pub add_validator-IsIndexed :
      (key_str point topic : Bytes) (quota : ℕ) (store : RoleStore)
      → scheme.encode (decode key_str) ≡ key_str
      → IsIndexed store
      → IsIndexed (add_validator scheme decode parse_addr key_str point topic quota store).1
  unfolding add_validator
  add_validator-IsIndexed key_str point topic quota store law c =
      elim (Bool-cases (has key_str store.validator_map)) [
        | inl h ↦ rw h c
        | inr h ↦ elim (Option-cases (string_to_pub_key scheme decode parse_addr key_str)) [
          | inl k ↦ rw (h, k) c
          | inr (pub_key, k) ↦
              rw (h, k)
                (add_peer-kept pub_key (parse_addr point) (parse_addr topic)
                  (enter scheme decode parse_addr key_str pub_key quota store)
                  (enter-IsIndexed key_str pub_key quota store
                    (string_to_pub_key-key_str key_str pub_key k law) h c))
        ]
      ]

length-remove_at {ℓ} :
    {A : Type ℓ} (i : ℕ) (xs : List A) → i < length xs → suc (length (remove_at i xs)) ≡ length xs
unfolding remove_at
length-remove_at i [] h = absurd (omega arith)
length-remove_at zero (x ∷ xs) h = refl
length-remove_at (suc i) (x ∷ xs) h = ap suc (length-remove_at i xs (omega arith))

next_below :
    (met : Bool) (later : Option ℕ) (i n : ℕ)
    → ((j : ℕ) → later ≡ some j → j < n)
    → (if met then some 0 else elim later [ none ↦ none | some j ↦ some (suc j) ]) ≡ some i
    → i < suc n
next_below true later i n below h = ground arith
next_below false none i n below h = absurd (ground arith)
next_below false (some j) i n below h = ground (arith, below j refl)

position-below : (k : Bytes) (vs : List PublicKey) (i : ℕ) → position k vs ≡ some i → i < length vs
unfolding position
position-below k [] i h = absurd (ground arith)
position-below k (v ∷ vs) i h =
    next_below (same v.key_str k) (position k vs) i (length vs) (position-below k vs) h

get_elem?-none {ℓ} : {A : Type ℓ} (xs : List A) (i : ℕ) → length xs ≤ i → get_elem? xs i ≡ none
get_elem?-none [] i h = refl
get_elem?-none (x ∷ xs) zero h = absurd (omega arith)
get_elem?-none (x ∷ xs) (suc i) h = get_elem?-none xs i (omega arith)

get_elem?-some {ℓ} :
    {A : Type ℓ} (xs : List A) (i : ℕ) → i < length xs → (x : A) × (get_elem? xs i ≡ some x)
get_elem?-some [] i h = absurd (omega arith)
get_elem?-some (x ∷ xs) zero h = (x, refl)
get_elem?-some (x ∷ xs) (suc i) h = get_elem?-some xs i (omega arith)

-- `DeleteValidator` does not move the indices of the map: when it deletes another validator, the key that
-- stood last reads its stake out of range, where Go panics.
pub delete_validator-stale :
    (store : RoleStore) (key_str : Bytes) (i b : ℕ) (bs : Bytes)
    → length store.stake_quotas ≡ length store.validators
    → has key_str store.validator_map ≡ true
    → position key_str store.validators ≡ some i
    → same key_str (b ∷ bs) ≡ false
    → lookup (b ∷ bs) store.validator_map ≡ some (length store.validators - 1)
    → get_validator_quota (delete_validator key_str store).1 (b ∷ bs) ≡ none
unfolding delete_validator get_validator_quota get_validator_index delete_at
delete_validator-stale store key_str i b bs e h p d l =
    let stake =
      get_elem?-some store.stake_quotas i
        (omega (arith, e, position-below key_str store.validators i p)) in
    rw (h, p, stake.1, lookup-delete key_str (b ∷ bs) store.validator_map, d, l)
      (get_elem?-none (remove_at i store.stake_quotas) (length store.validators - 1) (
        omega (
          arith,
          e,
          length-remove_at i store.stake_quotas,
          position-below key_str store.validators i p,
        )))
