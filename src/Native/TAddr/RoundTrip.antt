-- ===== src/Native/TAddr/RoundTrip.antt =====
-- What is stored under either form of an address is found under the other.
use mathlib.Core.Path.{subst}
use svp_blockchain.Base.{
  ◌+◌, some, [], ◌++◌, length, length-append, length-take, take, take-append, replicate, ◌≡◌, ◌≢◌,
  refl, ◌∙◌, arith, ◌⊎◌, inl, inr, ap, true, false, Bool-cases,
}
use svp_blockchain.Base.Bytes.{Bytes, contents, same, same_iff, same_refl}
use svp_blockchain.Execution.Prog.{ok}
use svp_blockchain.Execution.Context.{CallContext, sender}
use svp_blockchain.Execution.Spec.{State, update, exec}
use svp_blockchain.Native.Balance.{valid_length}
use svp_blockchain.Native.TAddr.{
  Input, to_addr20, to_addr32, dest_addr, store_addr, query_addr, suffix,
}

same_of_length : (a b : Bytes) → length a ≢ length b → same a b ≡ false
same_of_length a b h = elim (Bool-cases (same a b)) [
  | inl e ↦ absurd (h (ap length ((same_iff a b).0 e)))
  | inr e ↦ e
]

-- An address of either length is paired with one of the other.
dest_addr-length :
    (addr : Bytes)
    → (length addr ≡ 20) ⊎ (length addr ≡ 32)
    → length addr + length (dest_addr addr) ≡ 52
unfolding dest_addr to_addr20 to_addr32
dest_addr-length addr (inl e) = rw e (
    omega (
      arith,
      length-append {0} (take 20 (addr ++ replicate 32 0)) suffix,
      length-take {0} 20 (addr ++ replicate 32 0),
      length-append {0} addr (replicate 32 0),
    ))
dest_addr-length addr (inr e) = rw e (omega (arith, length-take {0} 20 addr))

take-append_exact : (a b : Bytes) → length a ≡ 20 → take 20 (a ++ b) ≡ a
take-append_exact a b h = subst (λ n. take n (a ++ b) ≡ a) h (take-append a b)

-- Shortening undoes lengthening.
pub to_addr20-to_addr32 : (addr : Bytes) → length addr ≡ 20 → to_addr20 (to_addr32 addr) ≡ addr
unfolding to_addr20 to_addr32
to_addr20-to_addr32 addr h =
    ap (λ (x : Bytes). take 20 (x ++ suffix)) (take-append_exact addr (replicate 32 0) h)
    ∙ take-append_exact addr suffix h

query_found :
    (input : Input) (st : State) (found : Bytes)
    → (length input.addr ≡ 20) ⊎ (length input.addr ≡ 32)
    → st input.addr ≡ some found
    → length found ≢ 0
    → (exec (query_addr input) st).0 ≡ ok (some found)
unfolding query_addr valid_length exec
query_found input st found h e n = ground arith

module _ (ctx : CallContext) (addr : Bytes) (st : State)
    (internal : same [] (contents (sender ctx)) ≡ true)
    (valid : (length addr ≡ 20) ⊎ (length addr ≡ 32)) where
  abbrev stored : State
  stored = update (update st addr (some (dest_addr addr))) (dest_addr addr) (some addr)

  lengths_differ :
      length addr + length (dest_addr addr) ≡ 52 → length (dest_addr addr) ≢ length addr
  lengths_differ h = omega arith

  store_lem :
      (m : Bytes) → exec (store_addr ctx (record { method = m; addr = addr })) st ≡ (ok tt, stored)
  unfolding store_addr valid_length exec
  store_lem m = ground arith

  -- After an internal store of an address of 20 or 32 bytes, a query of it returns the address that it is
  -- paired with, and a query of that one returns it.
  pub query-store :
      (m : Bytes)
      → let after = exec (store_addr ctx (record { method = m; addr = addr })) st in
        (after.0 ≡ ok tt)
        × ((exec (query_addr (record { method = m; addr = addr })) after.1).0
            ≡ ok (some (dest_addr addr)))
        × ((exec (query_addr (record { method = m; addr = dest_addr addr })) after.1).0
            ≡ ok (some addr))
  query-store m =
      let lengths = dest_addr-length addr valid in
      let at_addr : stored addr ≡ some (dest_addr addr) =
        rw (same_of_length (dest_addr addr) addr (lengths_differ lengths), same_refl addr) in
      let at_dest : stored (dest_addr addr) ≡ some addr = rw (same_refl (dest_addr addr)) in
      rw (store_lem m) (
        refl,
        query_found (record { method = m; addr = addr }) stored (dest_addr addr) valid at_addr
            (omega arith),
        query_found (record { method = m; addr = dest_addr addr }) stored addr (omega arith) at_dest
            (omega arith),
      )
