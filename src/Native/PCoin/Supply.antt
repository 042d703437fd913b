-- ===== src/Native/PCoin/Supply.antt =====
-- The coins of all accounts always sum to the total.
use svp_blockchain.Base.{
  length, ◌==◌, ◌||◌, ◌+◌, ◌≤◌, ◌<◌, ◌^◌, true, false, List, some, Option, ◌≡◌, refl, ltb, arith,
  inl, inr, Bool-cases, ap, sym, ◌∙◌,
}
use svp_blockchain.Base.Bytes.{Bytes, contents, ascii, same, same_refl, same_comm}
use svp_blockchain.Base.Words.{add64, sub64}
use svp_blockchain.Base.Keys.{contains, AllDistinct}
use svp_blockchain.Execution.Prog.{Prog, ok}
use svp_blockchain.Execution.Context.{CallContext, sender}
use svp_blockchain.Execution.Spec.{State, update, exec}
use svp_blockchain.Native.Balance.{
  assert_length, amount, IsBalance, encode_balance, amount-encode_balance, encode_balance-IsBalance,
}
use svp_blockchain.Native.Accounts.{
  supply, Decodes, supply-update, supply-update_absent, amount-le-supply, amounts-le-supply,
  supply-update_two, contains_apart, Decodes-at, Decodes-update,
}
use svp_blockchain.Native.PCoin.{
  Input, key_minter, key_total, invoke_mint, invoke_transfer, invoke_method, invoke, parse_input,
}
use svp_blockchain.Native.PCoin.Methods.{payer, paid, minted, transfer_lem, mint_lem}

-- The accounts hold balances that sum to the stored total, which fits in a word.
pub record Solvent (accounts : List Bytes) (st : State) : Type 0 where
  pub distinct : AllDistinct accounts
  pub total_apart : contains key_total accounts ≡ false
  pub decodes : Decodes st accounts
  pub total_decodes : IsBalance (st key_total)
  pub balanced : amount (st key_total) ≡ supply st accounts
  pub bounded : supply st accounts < 2 ^ 64

module _ (accounts : List Bytes) (ctx : CallContext) (input : Input) (st : State)
    (s : Solvent accounts st) (to : contains input.dest accounts ≡ true) where
  dest_decodes : IsBalance (st input.dest)
  dest_decodes = Decodes-at st input.dest accounts s.decodes to

  minted_total : amount (minted ctx input st key_total) ≡ add64 (amount (st key_total)) input.value
  minted_total =
      let new_total = add64 (amount (st key_total)) input.value in
      let now : minted ctx input st key_total ≡ encode_balance new_total =
        rw (contains_apart input.dest key_total accounts to s.total_apart, same_refl key_total) in
      ap amount now ∙ amount-encode_balance new_total (omega arith)

  minted-Solvent :
      supply st accounts + input.value < 2 ^ 64 → Solvent accounts (minted ctx input st)
  minted-Solvent fits =
      let apart = contains_apart input.dest key_total accounts to s.total_apart in
      let old_total = amount (st key_total) in
      let to_amount = amount (st input.dest) in
      let total_is = s.balanced in
      let held = amount-le-supply st input.dest accounts to in
      let new_total = amount-encode_balance (add64 old_total input.value) (omega arith) in
      let given = amount-encode_balance (add64 to_amount input.value) (omega arith) in
      let with_total = update st key_total (encode_balance (add64 old_total input.value)) in
      let before =
        supply-update_absent st key_total (encode_balance (add64 old_total input.value)) accounts
          s.total_apart in
      let moved =
        supply-update with_total input.dest (encode_balance (add64 to_amount input.value)) accounts
          s.distinct to in
      let dest_kept : with_total input.dest ≡ st input.dest =
        rw (same_comm key_total input.dest ∙ apart) in
      let dest_amount = ap amount dest_kept in
      let total_now : minted ctx input st key_total ≡ encode_balance (add64 old_total input.value) =
        rw (apart, same_refl key_total) in
      let new_supply : supply (minted ctx input st) accounts ≡ supply st accounts + input.value =
        omega arith in
      record {
        distinct = s.distinct;
        total_apart = s.total_apart;
        decodes =
            Decodes-update _ input.dest _ accounts (encode_balance-IsBalance _)
              (Decodes-update st key_total _ accounts (encode_balance-IsBalance _) s.decodes);
        total_decodes = rw total_now (encode_balance-IsBalance _);
        balanced = let seen = ap amount total_now in omega arith;
        bounded = omega arith;
      }

  module _ (from : contains (payer ctx input st) accounts ≡ true) where
    paid-Solvent :
        same (payer ctx input st) input.dest ≡ false
        → input.value ≤ amount (st (payer ctx input st))
        → Solvent accounts (paid ctx input st)
    paid-Solvent apart covered =
        let from_amount = amount (st (payer ctx input st)) in
        let to_amount = amount (st input.dest) in
        let fits = amounts-le-supply st (payer ctx input st) input.dest accounts from to apart in
        let bound = s.bounded in
        let taken = amount-encode_balance (sub64 from_amount input.value) (omega arith) in
        let given = amount-encode_balance (add64 to_amount input.value) (omega arith) in
        let moved =
          supply-update_two st (payer ctx input st) input.dest
            (encode_balance (sub64 from_amount input.value))
            (encode_balance (add64 to_amount input.value)) accounts s.distinct from to apart in
        let same_supply : supply (paid ctx input st) accounts ≡ supply st accounts = omega arith in
        let total_kept : paid ctx input st key_total ≡ st key_total = rw (
          contains_apart input.dest key_total accounts to s.total_apart,
          contains_apart (payer ctx input st) key_total accounts from s.total_apart,
        ) in
        record {
          distinct = s.distinct;
          total_apart = s.total_apart;
          decodes = Decodes-update _ input.dest _ accounts (encode_balance-IsBalance _) (
              Decodes-update st (payer ctx input st) _ accounts (encode_balance-IsBalance _)
                s.decodes);
          total_decodes = rw total_kept s.total_decodes;
          balanced = ap amount total_kept ∙ s.balanced ∙ sym same_supply;
          bounded = rw same_supply bound;
        }

    -- A transfer between two of the accounts keeps the ledger solvent, whether it succeeds or not.
    pub transfer-Solvent : Solvent accounts (exec (invoke_transfer ctx input) st).1
    transfer-Solvent =
        rw
          (transfer_lem ctx input st (Decodes-at st (payer ctx input st) accounts s.decodes from)
            dest_decodes)
          (elim (Bool-cases (same (payer ctx input st) input.dest)) [
            | inl e ↦ rw e s
            | inr e ↦ elim (Bool-cases (ltb (amount (st (payer ctx input st))) input.value)) [
              | inl low ↦ rw (e, low) s
              | inr covered ↦ rw (e, covered) (paid-Solvent e (ground arith))
            ]
          ])

  -- A mint to one of the accounts keeps the ledger solvent, as long as the new total fits in a word.
  pub mint-Solvent :
      supply st accounts + input.value < 2 ^ 64
      → Solvent accounts (exec (invoke_mint ctx input) st).1
  mint-Solvent fits =
      rw (mint_lem ctx input st s.total_decodes dest_decodes)
        (elim (Bool-cases (same (contents (st key_minter)) (payer ctx input st))) [
          | inl e ↦ rw e (minted-Solvent fits)
          | inr e ↦ rw e s
        ])

-- `Invoke` on a decoded input keeps the ledger solvent.
module _ (parse : Bytes → Option Input) (accounts : List Bytes) (ctx : CallContext) (input : Input)
    (st : State) where
  abbrev Kept : Prog (Unit {0}) → Type 0
  Kept p = Solvent accounts (exec p st).1

  invoke_method-Solvent :
      Solvent accounts st
      → contains input.dest accounts ≡ true
      → contains (payer ctx input st) accounts ≡ true
      → supply st accounts + input.value < 2 ^ 64
      → Kept (invoke_method ctx input)
  unfolding invoke_method exec
  invoke_method-Solvent s to from fits = elim (Bool-cases (same input.method (ascii "mint"))) [
    | inl e ↦ rw e (mint-Solvent accounts ctx input st s to fits)
    | inr e ↦ elim (Bool-cases (same input.method (ascii "transfer"))) [
      | inl f ↦ rw (e, f) (transfer-Solvent accounts ctx input st s to from)
      | inr f ↦ rw (e, f) s
    ]
  ]

  -- Every call between the accounts, whatever its method and whether it succeeds, keeps the ledger
  -- solvent, as long as the total could take its value.
  pub invoke-Solvent :
      parse ctx.raw_input ≡ some input
      → Solvent accounts st
      → contains input.dest accounts ≡ true
      → contains (payer ctx input st) accounts ≡ true
      → supply st accounts + input.value < 2 ^ 64
      → Solvent accounts (exec (invoke parse ctx) st).1
  unfolding invoke exec parse_input assert_length
  invoke-Solvent parsed s to from fits =
      rw parsed (elim (Bool-cases (length input.dest == 0 || length input.dest == 32)) [
        | inl e ↦ rw e (invoke_method-Solvent s to from fits)
        | inr e ↦ rw e s
      ])

-- The mint has no overflow test: a mint by the minter that passes the word wraps the stored total, which
-- then falls short of what the total should be by a whole word.
pub mint_wraps :
    (accounts : List Bytes) (ctx : CallContext) (input : Input) (st : State)
    → Solvent accounts st
    → contains input.dest accounts ≡ true
    → same (contents (st key_minter)) (contents (sender ctx)) ≡ true
    → input.value < 2 ^ 64
    → 2 ^ 64 ≤ supply st accounts + input.value
    → ((exec (invoke_mint ctx input) st).0 ≡ ok tt)
      × (amount ((exec (invoke_mint ctx input) st).1 key_total) + 2 ^ 64
          ≡ supply st accounts + input.value)
mint_wraps accounts ctx input st s to minter word over =
    rw (mint_lem ctx input st s.total_decodes (dest_decodes accounts ctx input st s to), minter)
      (
        refl,
        let total = minted_total accounts ctx input st s to in
            let e = s.balanced in let b = s.bounded in omega arith,
      )
