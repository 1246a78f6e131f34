-- ===== src/Solana/Verify/Soundness.antt =====
-- What a verified payment of veriproof/services/solana_service.py is evidence of.
use veri_proof_hackerton.Prelude.{
  Any, inl, inr, if-split, String, Bool, true, false, Option, none, some, List, [], ◌∷◌, ◌==◌,
  if◌then◌else◌, ℤ, ◌≡◌, refl,
}
use veri_proof_hackerton.Json.{Json, object, Fields, field, end, get, as_object}
use veri_proof_hackerton.Solana.{
  SolanaService, get_transaction, instructions_of, has_memo, slot_of, invalid_payment,
}
use veri_proof_hackerton.Solana.Evidence.{
  IsMarked, has_memo-IsMarked, IsSolTransfer, pays_by-IsSolTransfer,
}
use veri_proof_hackerton.Solana.Verify.{
  SolPayment, SolTransfer, instruction_transfer, pays_sol, first_sol, by_transfer, sol_instructions,
  sol_slot, sol_result, sol_payload, says_valid, verify_sol_payment_transaction,
}

first_sol-Any :
    (s : SolanaService) (p : SolPayment) (instructions : List Fields) (t : SolTransfer)
    → first_sol s p instructions ≡ some t
    → Any (IsSolTransfer s p) instructions
first_sol-Any s p [] t h = absurd cc
first_sol-Any s p (x ∷ rest) t h = go (first_sol-Any s p rest t) (instruction_transfer s x) refl h
  where
    go :
        (first_sol s p rest ≡ some t → Any (IsSolTransfer s p) rest)
        → (o : Option SolTransfer) → instruction_transfer s x ≡ o
        → (elim o [
          | none ↦ first_sol s p rest
          | some u ↦ if pays_sol p u then some u else first_sol s p rest
        ])
          ≡ some t
        → Any (IsSolTransfer s p) (x ∷ rest)
    go later none e k = inr (later k)
    go later (some u) e k =
        if-split (λ (r : Option SolTransfer). r ≡ some t → Any (IsSolTransfer s p) (x ∷ rest))
          (pays_sol p u) (some u) (first_sol s p rest)
          (λ pays _. inl (pays_by-IsSolTransfer s p x u e pays)) (λ _ k'. inr (later k')) k

-- What stands on the chain for a SOL payment.
pub record SolEvidence (s : SolanaService) (p : SolPayment) : Type 0 where
  pub payload : Fields
  pub result : Fields
  pub instructions : List Fields
  pub fetched : get_transaction s p.signature ≡ some payload
  pub found : as_object (get "result" payload) ≡ some result
  pub parsed : instructions_of result ≡ some instructions
  pub memo : IsMarked p.memo instructions
  pub paid : Any (IsSolTransfer s p) instructions

by_transfer-valid :
    (s : SolanaService) (p : SolPayment) (slot : ℤ) (instructions : List Fields)
    (r : Option SolTransfer)
    → first_sol s p instructions ≡ r
    → (by_transfer p slot r).is_valid ≡ true
    → Any (IsSolTransfer s p) instructions
by_transfer-valid s p slot instructions none e h = absurd cc
by_transfer-valid s p slot instructions (some t) e h = first_sol-Any s p instructions t e

sol_instructions-valid :
    (s : SolanaService) (p : SolPayment) (slot : ℤ) (payload result : Fields)
    (r : Option (List Fields))
    → get_transaction s p.signature ≡ some payload
    → as_object (get "result" payload) ≡ some result
    → instructions_of result ≡ r
    → (sol_instructions s p slot r).is_valid ≡ true
    → SolEvidence s p
sol_instructions-valid s p slot payload result none fetched found e h = absurd (cc)
sol_instructions-valid s p slot payload result (some instructions) fetched found e h =
    go (has_memo p.memo instructions) refl h
  where
    go :
        (b : Bool)
        → has_memo p.memo instructions ≡ b
        → (if b
            then by_transfer p slot (first_sol s p instructions)
            else invalid_payment slot (some "confirmed")).is_valid
          ≡ true
        → SolEvidence s p
    go false m k = absurd (cc)
    go true m k = record {
      payload = payload;
      result = result;
      instructions = instructions;
      fetched = fetched;
      found = found;
      parsed = e;
      memo = has_memo-IsMarked p.memo instructions m;
      paid = by_transfer-valid s p slot instructions _ refl k;
    }

sol_slot-valid :
    (s : SolanaService) (p : SolPayment) (payload result : Fields) (slot : Option ℤ)
    → get_transaction s p.signature ≡ some payload
    → as_object (get "result" payload) ≡ some result
    → says_valid (sol_slot s p result slot) ≡ true
    → SolEvidence s p
sol_slot-valid s p payload result none fetched found h = absurd (cc)
sol_slot-valid s p payload result (some slot) fetched found h =
    sol_instructions-valid s p slot payload result _ fetched found refl h

sol_result-valid :
    (s : SolanaService) (p : SolPayment) (payload : Fields) (r : Option Fields)
    → get_transaction s p.signature ≡ some payload
    → as_object (get "result" payload) ≡ r
    → says_valid (sol_result s p r) ≡ true
    → SolEvidence s p
sol_result-valid s p payload none fetched found h = absurd (cc)
sol_result-valid s p payload (some result) fetched found h =
    sol_slot-valid s p payload result (slot_of s result) fetched found h

sol_payload-valid :
    (s : SolanaService) (p : SolPayment) (r : Option Fields)
    → get_transaction s p.signature ≡ r
    → says_valid (sol_payload s p r) ≡ true
    → SolEvidence s p
sol_payload-valid s p none fetched h = absurd (cc)
sol_payload-valid s p (some payload) fetched h = sol_result-valid s p payload _ fetched refl h

-- A SOL payment that is called valid stands in a parsed transaction of that signature: one of its
-- instructions is a system transfer of exactly the lamports to the recipient, and the expected memo,
-- if there is one, is among its instructions.
pub verify_sol_payment_transaction_sound :
    (s : SolanaService) (p : SolPayment)
    → says_valid (verify_sol_payment_transaction s p) ≡ true
    → SolEvidence s p
unfolding verify_sol_payment_transaction
verify_sol_payment_transaction_sound s p h = sol_payload-valid s p _ refl h

-- A service whose node answers with this transaction.
abbrev pub answering : (String → Option ℤ) → Fields → SolanaService
answering int_of_text result = record {
  post_rpc = λ _. some (field "result" (object result) end);
  int_of_text = int_of_text;
}

-- The verdict on a SOL payment does not depend on the transaction's `meta`, where the chain reports
-- whether the transaction failed: with any other `meta`, the answer is the same.
pub verify_sol_payment_transaction-meta :
    (int_of_text : String → Option ℤ) (p : SolPayment) (meta : Json) (result : Fields)
    → verify_sol_payment_transaction (answering int_of_text (field "meta" meta result)) p
      ≡ verify_sol_payment_transaction (answering int_of_text result) p
unfolding verify_sol_payment_transaction slot_of get_transaction instruction_transfer
verify_sol_payment_transaction-meta int_of_text p meta result = go (p.signature == "")
  where
    go :
        (b : Bool)
        → sol_payload
            (answering int_of_text (field "meta" meta result))
            p
            (if b then none else some (field "result" (object (field "meta" meta result)) end))
          ≡ sol_payload
              (answering int_of_text result)
              p
              (if b then none else some (field "result" (object result) end))
    go true = refl
    go false = refl
