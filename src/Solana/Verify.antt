-- ===== src/Solana/Verify.antt =====
-- veriproof/services/solana_service.py: `verify_usdc_payment` and `verify_sol_payment_transaction`.
pub mod Soundness
pub mod Usdc
use veri_proof_hackerton.Prelude.{
  ℕ, String, Bool, true, false, not, Option, none, some, List, [], ◌∷◌, ◌==◌, ◌&&◌, ◌||◌, ◌*◌,
  if◌then◌else◌, ℤ, pos, eqb_ℤ,
}
use veri_proof_hackerton.Money.{Decimal, usdc_to_min_units, sol_quantum}
use veri_proof_hackerton.Json.{Json, text, Fields, get, as_object, as_text, is_text, truthy, to_int}
use veri_proof_hackerton.Solana.{
  SolanaService, PaymentVerification, invalid_payment, valid_payment, get_transaction,
  instructions_of, transaction_instructions, has_memo, slot_of, verify_token_balance_delta,
  verify_token_instruction,
}

-- What a caller asks of a USDC payment.
pub record UsdcPayment : Type 0 where
  pub tx_sig : String
  pub recipient : String
  pub amount : Decimal
  pub mint : String
  pub memo : Option String

abbrev pub refuse : ℤ → Option PaymentVerification
refuse slot = some (invalid_payment slot (some "confirmed"))

abbrev pub by_instruction : UsdcPayment → ℤ → Option (Option Json) → Option PaymentVerification
by_instruction p slot none = none
by_instruction p slot (some none) = refuse slot
by_instruction p slot (some (some sender)) = some (valid_payment p.amount sender slot p.tx_sig)

-- The balances decide; where they do not match, the instructions are read.
abbrev pub by_balances :
    UsdcPayment → ℤ → Option (Option Json) → Option (Option String) → Option PaymentVerification
by_balances p slot instruction none = none
by_balances p slot instruction (some none) = by_instruction p slot instruction
by_balances p slot instruction (some (some sender)) =
    some (valid_payment p.amount (text sender) slot p.tx_sig)

abbrev pub with_units :
    SolanaService → UsdcPayment → Fields → Fields → ℤ → Option ℕ → Option PaymentVerification
with_units s p result meta slot none = none
with_units s p result meta slot (some units) =
    by_balances p slot (verify_token_instruction s result p.recipient (pos units) p.mint)
      (verify_token_balance_delta s meta p.recipient (pos units) p.mint)

abbrev pub with_meta :
    SolanaService → UsdcPayment → Fields → ℤ → Option Fields → Option PaymentVerification
with_meta s p result slot none = refuse slot
with_meta s p result slot (some meta) =
    if truthy (get "err" meta)
    then refuse slot
    else if has_memo p.memo (transaction_instructions result)
    then with_units s p result meta slot (usdc_to_min_units p.amount)
    else refuse slot

abbrev pub with_slot : SolanaService → UsdcPayment → Fields → Option ℤ → Option PaymentVerification
with_slot s p result none = none
with_slot s p result (some slot) = with_meta s p result slot (as_object (get "meta" result))

abbrev pub with_result : SolanaService → UsdcPayment → Option Fields → Option PaymentVerification
with_result s p none = some (invalid_payment (pos 0) none)
with_result s p (some result) = with_slot s p result (slot_of s result)

abbrev pub with_payload : SolanaService → UsdcPayment → Option Fields → Option PaymentVerification
with_payload s p none = none
with_payload s p (some payload) = with_result s p (as_object (get "result" payload))

unfoldable pub verify_usdc_payment : SolanaService → UsdcPayment → Option PaymentVerification
verify_usdc_payment s p =
    if p.tx_sig == "" || (p.recipient == "" || p.mint == "")
    then some (invalid_payment (pos 0) none)
    else with_payload s p (get_transaction s p.tx_sig)

-- A parsed transfer of the system program.
pub record SolTransfer : Type 0 where
  pub destination : String
  pub source : String
  pub lamports : ℤ

abbrev pub read_sol : Option String → Option String → Option ℤ → Option SolTransfer
read_sol none source lamports = none
read_sol (some destination) none lamports = none
read_sol (some destination) (some source) none = none
read_sol (some destination) (some source) (some lamports) =
    some record { destination = destination; source = source; lamports = lamports }

abbrev pub sol_info : SolanaService → Option Fields → Option SolTransfer
sol_info s none = none
sol_info s (some info) =
    read_sol (as_text (get "destination" info)) (as_text (get "source" info))
      (to_int s.int_of_text (get "lamports" info))

unfoldable pub instruction_transfer : SolanaService → Fields → Option SolTransfer
instruction_transfer s instruction =
    if is_text "system" (get "program" instruction)
    then elim (as_object (get "parsed" instruction)) [
      | none ↦ none
      | some parsed ↦
          if is_text "transfer" (get "type" parsed)
          then sol_info s (as_object (get "info" parsed))
          else none
    ]
    else none

-- What a caller asks of a SOL payment.
pub record SolPayment : Type 0 where
  pub signature : String
  pub recipient : String
  pub lamports : ℕ
  pub memo : Option String

abbrev pub pays_sol : SolPayment → SolTransfer → Bool
pays_sol p t = t.destination == p.recipient && eqb_ℤ t.lamports (pos p.lamports)

abbrev pub first_sol : SolanaService → SolPayment → List Fields → Option SolTransfer
first_sol s p [] = none
first_sol s p (instruction ∷ rest) = elim (instruction_transfer s instruction) [
  | none ↦ first_sol s p rest
  | some t ↦ if pays_sol p t then some t else first_sol s p rest
]

abbrev pub by_transfer : SolPayment → ℤ → Option SolTransfer → PaymentVerification
by_transfer p slot none = invalid_payment slot (some "confirmed")
by_transfer p slot (some t) =
    valid_payment (pos (p.lamports * sol_quantum)) (text t.source) slot p.signature

abbrev pub sol_instructions :
    SolanaService → SolPayment → ℤ → Option (List Fields) → PaymentVerification
sol_instructions s p slot none = invalid_payment slot (some "confirmed")
sol_instructions s p slot (some instructions) =
    if has_memo p.memo instructions
    then by_transfer p slot (first_sol s p instructions)
    else invalid_payment slot (some "confirmed")

abbrev pub sol_slot : SolanaService → SolPayment → Fields → Option ℤ → Option PaymentVerification
sol_slot s p result none = none
sol_slot s p result (some slot) = some (sol_instructions s p slot (instructions_of result))

abbrev pub sol_result : SolanaService → SolPayment → Option Fields → Option PaymentVerification
sol_result s p none = some (invalid_payment (pos 0) none)
sol_result s p (some result) = sol_slot s p result (slot_of s result)

abbrev pub sol_payload : SolanaService → SolPayment → Option Fields → Option PaymentVerification
sol_payload s p none = none
sol_payload s p (some payload) = sol_result s p (as_object (get "result" payload))

unfoldable pub verify_sol_payment_transaction :
    SolanaService → SolPayment → Option PaymentVerification
verify_sol_payment_transaction s p = sol_payload s p (get_transaction s p.signature)

-- Whether the answer says that the payment is valid.
abbrev pub says_valid : Option PaymentVerification → Bool
says_valid none = false
says_valid (some v) = v.is_valid
