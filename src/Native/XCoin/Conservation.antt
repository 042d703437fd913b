-- ===== src/Native/XCoin/Conservation.antt =====
-- No call that a transaction can make creates or destroys coins.
use svp_blockchain.Base.{
  ◌≤◌, ◌<◌, ◌^◌, true, false, ◌||◌, ◌==◌, length, List, [], some, Option, ◌≡◌, ltb, if◌then◌else◌,
  arith, inl, inr, Bool-cases,
}
use svp_blockchain.Base.Bytes.{Bytes, contents, same, ascii}
use svp_blockchain.Base.Words.{add64, sub64}
use svp_blockchain.Base.Keys.{contains, AllDistinct}
use svp_blockchain.Execution.Prog.{Prog, Outcome, ok, err, self_transfer, no_balance}
use svp_blockchain.Execution.Context.{CallContext, sender}
use svp_blockchain.Execution.Spec.{State, update, exec}
use svp_blockchain.Native.Balance.{
  assert_length, amount, IsBalance, encode_balance, decode_balance-amount, amount-encode_balance,
}
use svp_blockchain.Native.Accounts.{
  supply, Decodes, supply-update_two, amounts-le-supply, Decodes-at,
}
use svp_blockchain.Native.XCoin.{Input, invoke_set, invoke_transfer, invoke_method, invoke, decoded}

module _ (ctx : CallContext) (input : Input) (st : State) where
  abbrev payer : Bytes
  payer = contents (sender ctx)

  abbrev paid : State
  paid =
      update (update st payer (encode_balance (sub64 (amount (st payer)) input.value))) input.dest
        (encode_balance (add64 (amount (st input.dest)) input.value))

  abbrev after_transfer : Outcome (Unit {0}) × State
  after_transfer =
      if same payer input.dest
      then (err self_transfer, st)
      else if ltb (amount (st payer)) input.value
      then (err no_balance, st)
      else (ok tt, paid)

  transfer_lem :
      IsBalance (st payer)
      → IsBalance (st input.dest)
      → exec (invoke_transfer ctx input) st ≡ after_transfer
  unfolding invoke_transfer exec
  transfer_lem hp hd =
      ground (arith, decode_balance-amount (st payer) hp, decode_balance-amount (st input.dest) hd)

module _ (parse : Bytes → Option Input) (accounts : List Bytes) (ctx : CallContext) (input : Input)
    (st : State) (distinct : AllDistinct accounts) (decodes : Decodes st accounts)
    (from : contains (contents (sender ctx)) accounts ≡ true)
    (to : contains input.dest accounts ≡ true) (bounded : supply st accounts < 2 ^ 64) where
  abbrev Conserves : Prog (Unit {0}) → Type 0
  Conserves p = supply (exec p st).1 accounts ≡ supply st accounts

  paid-supply :
      same (payer ctx input st) input.dest ≡ false
      → input.value ≤ amount (st (payer ctx input st))
      → supply (paid ctx input st) accounts ≡ supply st accounts
  paid-supply apart covered =
      let from_amount = amount (st (payer ctx input st)) in
      let to_amount = amount (st input.dest) in
      let fits = amounts-le-supply st (payer ctx input st) input.dest accounts from to apart in
      let taken = amount-encode_balance (sub64 from_amount input.value) (omega arith) in
      let given = amount-encode_balance (add64 to_amount input.value) (omega arith) in
      let moved =
        supply-update_two st (payer ctx input st) input.dest
          (encode_balance (sub64 from_amount input.value))
          (encode_balance (add64 to_amount input.value)) accounts distinct from to apart in
      omega arith

  transfer-supply : Conserves (invoke_transfer ctx input)
  transfer-supply =
      rw
        (transfer_lem ctx input st (Decodes-at st (payer ctx input st) accounts decodes from)
          (Decodes-at st input.dest accounts decodes to))
        (elim (Bool-cases (same (payer ctx input st) input.dest)) [
          | inl e ↦ rw e
          | inr e ↦ elim (Bool-cases (ltb (amount (st (payer ctx input st))) input.value)) [
            | inl low ↦ rw (e, low)
            | inr covered ↦ rw (e, covered) (paid-supply e (ground arith))
          ]
        ])

  invoke_method-supply :
      same [] (contents (sender ctx)) ≡ false → Conserves (invoke_method ctx input)
  unfolding invoke_method invoke_set exec
  invoke_method-supply external = elim (Bool-cases (same input.method (ascii "set"))) [
    | inl e ↦ rw (e, external)
    | inr e ↦ elim (Bool-cases (same input.method (ascii "transfer"))) [
      | inl f ↦ rw (e, f) transfer-supply
      | inr f ↦ rw (e, f)
    ]
  ]

  -- A call by a sender that is not empty, between distinct accounts whose balances decode and sum to less
  -- than a word, keeps that sum, whatever the method.
  pub invoke-supply :
      parse ctx.raw_input ≡ some input
      → same [] (contents (sender ctx)) ≡ false
      → supply (exec (invoke parse ctx) st).1 accounts ≡ supply st accounts
  unfolding invoke exec decoded assert_length
  invoke-supply parsed external =
      rw parsed (elim (Bool-cases (length input.dest == 0 || length input.dest == 32)) [
        | inl e ↦ rw e (invoke_method-supply external)
        | inr e ↦ rw e
      ])
