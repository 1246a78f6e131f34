-- ===== src/Solana/Reference.antt =====
-- `verify_sol_payment_by_reference` and `get_signatures_for_address` of
-- veriproof/services/solana_service.py.
pub mod Soundness
use veri_proof_hackerton.Prelude.{
  ℕ, String, Bool, true, false, Option, none, some, List, [], ◌∷◌, any, ◌==◌, if◌then◌else◌, ◌≡◌,
  refl, arith, ℤ, pos, eq_iff, ap, ◌∙◌,
}
use mathlib.Core.Path.{subst}
use veri_proof_hackerton.Money.{Decimal, amount_to_lamports}
use veri_proof_hackerton.Json.{Fields, get, truthy, as_text, as_list, as_object, only_objects}
use veri_proof_hackerton.Solana.{
  SolanaService, PaymentVerification, invalid_payment, get_transaction, instructions_of, has_memo,
  slot_of,
}
use veri_proof_hackerton.Solana.Verify.{
  SolPayment, SolTransfer, verify_sol_payment_transaction, says_valid, by_transfer,
  sol_instructions, sol_slot, sol_result, sol_payload, first_sol,
}
use veri_proof_hackerton.Solana.Verify.Soundness.{SolEvidence, verify_sol_payment_transaction_sound}

-- The payload of the RPC's `getSignaturesForAddress` for an address and a limit.
abbrev pub Signatures : Type 0
Signatures = String → ℕ → Option Fields

abbrev pub listed_signatures : List Fields → List String
listed_signatures [] = []
listed_signatures (entry ∷ rest) = elim (as_text (get "signature" entry)) [
  | none ↦ listed_signatures rest
  | some signature ↦
      if truthy (get "err" entry)
      then listed_signatures rest
      else signature ∷ listed_signatures rest
]

-- A failure of the RPC is `none`; an answer that is no list has no signatures.
unfoldable pub get_signatures_for_address : Signatures → String → Option (List String)
get_signatures_for_address rpc address = elim (rpc address 10) [
  | none ↦ none
  | some payload ↦ elim (as_list (get "result" payload)) [
    | none ↦ some []
    | some entries ↦ some (listed_signatures (only_objects entries))
  ]
]

-- A verdict; a CertificateIssueError or a failure of the RPC, by what was asked for; or a price below
-- one lamport.
pub data Verdict : Type 0 where
  answered : PaymentVerification → Verdict
  failed : String → Verdict
  no_lamports : Verdict

abbrev pub payment_under : String → String → ℕ → Option String → SolPayment
payment_under signature recipient lamports memo = record {
  signature = signature;
  recipient = recipient;
  lamports = lamports;
  memo = memo;
}

abbrev pub unpaid : Verdict
unpaid = answered (invalid_payment (pos 0) none)

abbrev pub or_later : String → Option PaymentVerification → Verdict → Verdict
or_later signature none later = failed signature
or_later signature (some v) later = if v.is_valid then answered v else later

-- The first valid one of the transactions.
abbrev pub first_valid : SolanaService → String → ℕ → Option String → List String → Verdict
first_valid s recipient lamports memo [] = unpaid
first_valid s recipient lamports memo (signature ∷ rest) =
    let later : Verdict = first_valid s recipient lamports memo rest in
    or_later signature
      (verify_sol_payment_transaction s (payment_under signature recipient lamports memo)) later

abbrev pub for_lamports : SolanaService → String → Option String → List String → Option ℕ → Verdict
for_lamports s recipient memo signatures none = no_lamports
for_lamports s recipient memo signatures (some lamports) =
    first_valid s recipient lamports memo signatures

abbrev pub among :
    SolanaService → String → String → Decimal → Option String → Option (List String) → Verdict
among s reference recipient amount memo none = failed reference
among s reference recipient amount memo (some signatures) =
    for_lamports s recipient memo signatures (amount_to_lamports amount)

unfoldable pub verify_sol_payment_by_reference :
    SolanaService → Signatures → String → String → Decimal → Option String → Verdict
unfolding get_signatures_for_address
verify_sol_payment_by_reference s rpc reference recipient amount memo =
    if reference == ""
    then unpaid
    else among s reference recipient amount memo (get_signatures_for_address rpc reference)

abbrev pub is_valid_verdict : Verdict → Bool
is_valid_verdict (answered v) = v.is_valid
is_valid_verdict (failed asked) = false
is_valid_verdict no_lamports = false
