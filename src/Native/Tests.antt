-- ===== src/Native/Tests.antt =====
-- Two accounts of 32 bytes, the first of which is the minter and pays.
use svp_blockchain.Base.{
  ◌+◌, ◌-◌, ◌^◌, none, some, List, [], ◌∷◌, replicate, if◌then◌else◌, inr, ◌≡◌, refl, arith,
}
use svp_blockchain.Base.Bytes.{Bytes, same, ascii}
use svp_blockchain.Base.Keys.{contains}
use svp_blockchain.Base.Words.{le_bytes, le_value, be_bytes, be_value}
use svp_blockchain.Execution.Prog.{ok}
use svp_blockchain.Execution.Context.{CallContext, sender}
use svp_blockchain.Execution.Spec.{State, exec}
use svp_blockchain.Native.Balance.{amount, encode_balance}
use svp_blockchain.Native.Accounts.{supply}
use svp_blockchain.Native.PCoin
use svp_blockchain.Native.PCoin.Supply.{Solvent, invoke-Solvent, mint_wraps}
use svp_blockchain.Native.XCoin
use svp_blockchain.Native.XCoin.Conservation.{invoke-supply}
use svp_blockchain.Native.Kvdb
use svp_blockchain.Native.Kvdb.{invoke_by_other, get-set}
use svp_blockchain.Native.TAddr
use svp_blockchain.Native.TAddr.RoundTrip.{query-store}

abbrev first : Bytes
first = replicate 32 1

abbrev second : Bytes
second = replicate 32 2

abbrev accounts : List Bytes
accounts = first ∷ second ∷ []

abbrev ledger : State
ledger key =
    if same key (ascii "minter")
    then some first
    else if same key (ascii "total")
    then encode_balance 10
    else if same key first
    then encode_balance 10
    else none

-- a call by the first account
abbrev ctx : CallContext
ctx = record { transaction = none; raw_sender = some first; raw_input = []; height = some 1 }

abbrev pay : PCoin.Input
pay = record { method = ascii "transfer"; dest = second; value = 4 }

abbrev mint_much : PCoin.Input
mint_much = record { method = ascii "mint"; dest = second; value = 2 ^ 64 - 5 }

abbrev give : XCoin.Input
give = record { method = ascii "transfer"; dest = second; value = 4 }

computes : Unit {0}
unfolding same contains le_bytes le_value be_bytes be_value amount encode_balance supply sender
computes = tt

ledger-Solvent : Solvent accounts ledger
unfolding computes
ledger-Solvent = record {
  distinct = (refl, (refl, tt));
  total_apart = refl;
  decodes = (omega arith, (tt, tt));
  total_decodes = omega arith;
  balanced = refl;
  bounded = omega arith;
}

invoke-Solvent_example : Solvent accounts (exec (PCoin.invoke (λ b. some pay) ctx) ledger).1
unfolding computes
invoke-Solvent_example =
    invoke-Solvent (λ b. some pay) accounts ctx pay ledger refl ledger-Solvent refl refl
      (omega arith)

mint_wraps_example :
    ((exec (PCoin.invoke_mint ctx mint_much) ledger).0 ≡ ok tt)
    × (amount ((exec (PCoin.invoke_mint ctx mint_much) ledger).1 PCoin.key_total) + 2 ^ 64
        ≡ supply ledger accounts + mint_much.value)
unfolding computes
mint_wraps_example =
    mint_wraps accounts ctx mint_much ledger ledger-Solvent refl refl (omega arith) (omega arith)

invoke-supply_example :
    supply (exec (XCoin.invoke (λ b. some give) ctx) ledger).1 accounts ≡ supply ledger accounts
unfolding computes
invoke-supply_example =
    invoke-supply (λ b. some give) accounts ctx give ledger (refl, (refl, tt))
      (omega arith, (tt, tt)) refl refl (omega arith) refl refl

abbrev owned : State
owned key = if same key (ascii "owner") then some first else none

abbrev set_one : Kvdb.Input
set_one = record { method = ascii "set"; key = 1 ∷ []; value = 7 ∷ [] }

abbrev get_one : Kvdb.Input
get_one = record { method = ascii "get"; key = 1 ∷ []; value = [] }

get-set_example :
    (exec (Kvdb.query_get get_one) (exec (Kvdb.invoke_set ctx set_one) owned).1).0
    ≡ ok (some (7 ∷ []))
unfolding computes
get-set_example =
    get-set ctx set_one get_one owned refl (λ e. omega (arith, e)) (λ e. omega (arith, e))

invoke_by_other_example :
    (exec (Kvdb.invoke (λ b. some set_one) ctx) (λ key. none)).1 ≡ (λ key. none)
unfolding computes
invoke_by_other_example = invoke_by_other (λ b. some set_one) ctx (λ key. none) refl

abbrev internal : CallContext
internal = record { transaction = none; raw_sender = none; raw_input = []; height = none }

query-store_example :
    let after =
      exec (TAddr.store_addr internal (record { method = []; addr = first })) (λ key. none) in
    (after.0 ≡ ok tt)
    × ((exec (TAddr.query_addr (record { method = []; addr = first })) after.1).0
        ≡ ok (some (TAddr.dest_addr first)))
    × ((exec (TAddr.query_addr (record { method = []; addr = TAddr.dest_addr first })) after.1).0
        ≡ ok (some first))
unfolding computes
query-store_example = query-store internal first (λ key. none) refl (inr refl) []
