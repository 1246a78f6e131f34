-- ===== src/Tests/Chains.antt =====
-- Payments on a concrete chain.
use veri_proof_hackerton.Prelude.{String, Option, none, some, ◌≡◌, refl, ℤ, pos}
use veri_proof_hackerton.Json.{Json, number, text, array, object, Fields, end, field, nil, item}
use veri_proof_hackerton.Solana.{get_transaction, slot_of, has_memo}
use veri_proof_hackerton.Solana.Verify.{
  UsdcPayment, SolPayment, verify_sol_payment_transaction, instruction_transfer,
}
use veri_proof_hackerton.Solana.Verify.Soundness.{
  SolEvidence, answering, verify_sol_payment_transaction_sound, verify_sol_payment_transaction-meta,
}
use veri_proof_hackerton.Tests.{whole}

abbrev pub no_text : String → Option ℤ
no_text digits = none

abbrev two_millions : String → Option ℤ
two_millions digits = some (pos 2000000)

abbrev sol_transfer : Json
sol_transfer = object (
    field "program" (text "system") (
      field "parsed"
        (object (
          field "type" (text "transfer") (
            field "info"
              (object (
                field "destination" (text "seller")
                  (field "source" (text "buyer") (field "lamports" (number (pos 5)) end))))
              end)))
        end))

abbrev with_instructions : Json → Fields
with_instructions instructions =
    field "transaction"
      (object (field "message" (object (field "instructions" instructions end)) end)) end

abbrev pub sol_transaction : Fields
sol_transaction = with_instructions (array (item sol_transfer nil))

abbrev sol_payment : SolPayment
sol_payment = record { signature = "sig"; recipient = "seller"; lamports = 5; memo = none }

verify_sol_payment_transaction_sound_example :
    SolEvidence (answering no_text sol_transaction) sol_payment
unfolding verify_sol_payment_transaction get_transaction slot_of has_memo instruction_transfer
verify_sol_payment_transaction_sound_example =
    verify_sol_payment_transaction_sound (answering no_text sol_transaction) sol_payment refl

-- A transfer that the chain reports as failed.
verify_sol_payment_transaction-meta_example :
    verify_sol_payment_transaction
      (answering no_text
        (field "meta" (object (field "err" (text "InstructionError") end)) sol_transaction))
      sol_payment
    ≡ verify_sol_payment_transaction (answering no_text sol_transaction) sol_payment
verify_sol_payment_transaction-meta_example =
    verify_sol_payment_transaction-meta no_text sol_payment
      (object (field "err" (text "InstructionError") end)) sol_transaction

abbrev balance : Json
balance = object (
    field "mint" (text "usdc") (
      field "owner" (text "seller")
        (field "uiTokenAmount" (object (field "amount" (text "2000000") end)) end)))

abbrev usdc_transaction : Fields
usdc_transaction =
    field "meta"
      (object (
        field "preTokenBalances" (array nil)
          (field "postTokenBalances" (array (item balance nil)) end)))
      (with_instructions (array nil))

abbrev usdc_payment : UsdcPayment
usdc_payment = record {
  tx_sig = "sig";
  recipient = "seller";
  amount = whole 2;
  mint = "usdc";
  memo = none;
}
