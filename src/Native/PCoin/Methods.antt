-- ===== src/Native/PCoin/Methods.antt =====
-- What the two methods do to the accounts (native/pcoin/pcoin.go).
use svp_blockchain.Base.{◌≡◌, ltb, if◌then◌else◌, arith}
use svp_blockchain.Base.Bytes.{Bytes, contents, same}
use svp_blockchain.Base.Words.{add64, sub64}
use svp_blockchain.Execution.Prog.{Outcome, ok, err, self_transfer, no_balance, not_minter}
use svp_blockchain.Execution.Context.{CallContext, sender}
use svp_blockchain.Execution.Spec.{State, update, exec}
use svp_blockchain.Native.Balance.{amount, IsBalance, encode_balance, decode_balance-amount}
use svp_blockchain.Native.Accounts.{}
use svp_blockchain.Native.PCoin.{Input, key_minter, key_total, invoke_mint, invoke_transfer}

module _ (ctx : CallContext) (input : Input) (st : State) where
  abbrev pub payer : Bytes
  payer = contents (sender ctx)

  abbrev pub paid : State
  paid =
      update (update st payer (encode_balance (sub64 (amount (st payer)) input.value))) input.dest
        (encode_balance (add64 (amount (st input.dest)) input.value))

  abbrev pub after_transfer : Outcome (Unit {0}) × State
  after_transfer =
      if same payer input.dest
      then (err self_transfer, st)
      else if ltb (amount (st payer)) input.value
      then (err no_balance, st)
      else (ok tt, paid)

  pub transfer_lem :
      IsBalance (st payer)
      → IsBalance (st input.dest)
      → exec (invoke_transfer ctx input) st ≡ after_transfer
  unfolding invoke_transfer exec
  transfer_lem hp hd =
      ground (arith, decode_balance-amount (st payer) hp, decode_balance-amount (st input.dest) hd)

  abbrev pub minted : State
  minted =
      update (update st key_total (encode_balance (add64 (amount (st key_total)) input.value)))
        input.dest (encode_balance (add64 (amount (st input.dest)) input.value))

  abbrev pub after_mint : Outcome (Unit {0}) × State
  after_mint =
      if same (contents (st key_minter)) payer then (ok tt, minted) else (err not_minter, st)

  -- Where the total and the destination's balance decode, only the minter mints, and a mint adds the
  -- value to both.
  pub mint_lem :
      IsBalance (st key_total)
      → IsBalance (st input.dest)
      → exec (invoke_mint ctx input) st ≡ after_mint
  unfolding invoke_mint exec
  mint_lem ht hd =
      ground
        (arith, decode_balance-amount (st key_total) ht, decode_balance-amount (st input.dest) hd)
