-- ===== src/Solana/Reference/Soundness.antt =====
-- What an answer of `verify_sol_payment_by_reference` of veriproof/services/solana_service.py says.
use veri_proof_hackerton.Prelude.{
  ℕ, String, Bool, true, false, Option, none, some, List, [], ◌∷◌, any, ◌==◌, if◌then◌else◌, ◌≡◌,
  refl, arith, ℤ, eq_iff, ap, ◌∙◌,
}
use mathlib.Core.Path.{subst}
use veri_proof_hackerton.Money.{Decimal, amount_to_lamports}
use veri_proof_hackerton.Json.{Fields, get, as_object}
use veri_proof_hackerton.Solana.{
  SolanaService, PaymentVerification, invalid_payment, get_transaction, instructions_of, has_memo,
  slot_of,
}
use veri_proof_hackerton.Solana.Verify.{
  SolPayment, SolTransfer, verify_sol_payment_transaction, says_valid, by_transfer,
  sol_instructions, sol_slot, sol_result, sol_payload, first_sol,
}
use veri_proof_hackerton.Solana.Verify.Soundness.{SolEvidence, verify_sol_payment_transaction_sound}
use veri_proof_hackerton.Solana.Reference.{
  Signatures, get_signatures_for_address, Verdict, answered, failed, no_lamports, payment_under,
  unpaid, or_later, first_valid, for_lamports, among, verify_sol_payment_by_reference,
  is_valid_verdict,
}

by_transfer-signature :
    (p : SolPayment) (slot : ℤ) (t : Option SolTransfer)
    → (by_transfer p slot t).is_valid ≡ true
    → (by_transfer p slot t).tx_signature ≡ some p.signature
by_transfer-signature p slot none h = absurd cc
by_transfer-signature p slot (some t) h = refl

sol_instructions-signature :
    (s : SolanaService) (p : SolPayment) (slot : ℤ) (r : Option (List Fields))
    → (sol_instructions s p slot r).is_valid ≡ true
    → (sol_instructions s p slot r).tx_signature ≡ some p.signature
sol_instructions-signature s p slot none h = absurd cc
sol_instructions-signature s p slot (some instructions) h = go (has_memo p.memo instructions) h
  where
    go :
        (b : Bool)
        → (if b
            then by_transfer p slot (first_sol s p instructions)
            else invalid_payment slot (some "confirmed")).is_valid
          ≡ true
        → (if b
            then by_transfer p slot (first_sol s p instructions)
            else invalid_payment slot (some "confirmed")).tx_signature
          ≡ some p.signature
    go true k = by_transfer-signature p slot (first_sol s p instructions) k
    go false k = absurd cc

-- A valid answer carries the signature that was asked about.
abbrev Carries : SolPayment → Option PaymentVerification → Type 0
Carries p none = Unit
Carries p (some v) = v.is_valid ≡ true → v.tx_signature ≡ some p.signature

verify_sol_payment_transaction-Carries :
    (s : SolanaService) (p : SolPayment) → Carries p (verify_sol_payment_transaction s p)
unfolding verify_sol_payment_transaction
verify_sol_payment_transaction-Carries s p = payload (get_transaction s p.signature)
  where
    at_slot : (result : Fields) (o : Option ℤ) → Carries p (sol_slot s p result o)
    at_slot result none = tt
    at_slot result (some slot) = sol_instructions-signature s p slot (instructions_of result)

    in_result : (o : Option Fields) → Carries p (sol_result s p o)
    in_result none = λ h. absurd cc
    in_result (some result) = at_slot result (slot_of s result)

    payload : (o : Option Fields) → Carries p (sol_payload s p o)
    payload none = tt
    payload (some fields) = in_result (as_object (get "result" fields))

abbrev pub verdict_signature : Verdict → Option String
verdict_signature (answered v) = v.tx_signature
verdict_signature (failed asked) = none
verdict_signature no_lamports = none

-- The chain lists the signature that came back for the reference, and its transaction pays the amount.
pub record ReferenceEvidence (s : SolanaService) (rpc : Signatures) (reference recipient : String)
    (amount : Decimal) (memo tx : Option String) : Type 0 where
  pub signatures : List String
  pub signature : String
  pub lamports : ℕ
  pub carried : tx ≡ some signature
  pub found : get_signatures_for_address rpc reference ≡ some signatures
  pub listed : any (λ t. t == signature) signatures ≡ true
  pub whole_price : amount_to_lamports amount ≡ some lamports
  pub evidence : SolEvidence s (payment_under signature recipient lamports memo)

-- One of these signatures is that of a transaction that pays.
abbrev Paid : SolanaService → String → ℕ → Option String → List String → Option String → Type 0
Paid s recipient lamports memo signatures tx =
    (signature : String) × (tx ≡ some signature)
    × (any (λ t. t == signature) signatures ≡ true)
    × SolEvidence s (payment_under signature recipient lamports memo)

Paid-later :
    (s : SolanaService) (recipient : String) (lamports : ℕ) (memo : Option String)
    (signature : String) (rest : List String) (tx : Option String)
    → Paid s recipient lamports memo rest tx
    → Paid s recipient lamports memo (signature ∷ rest) tx
Paid-later s recipient lamports memo signature rest tx (t, carried, listed, evidence) =
    (t, carried, ground (arith, listed), evidence)

or_later-Paid :
    (s : SolanaService) (recipient : String) (lamports : ℕ) (memo : Option String)
    (signature : String) (rest : List String) (later : Verdict) (o : Option PaymentVerification)
    → verify_sol_payment_transaction s (payment_under signature recipient lamports memo) ≡ o
    → (is_valid_verdict later ≡ true
        → Paid s recipient lamports memo rest (verdict_signature later))
    → is_valid_verdict (or_later signature o later) ≡ true
    → Paid s recipient lamports memo
        (signature ∷ rest)
        (verdict_signature (or_later signature o later))
or_later-Paid s recipient lamports memo signature rest later none e found k = absurd cc
or_later-Paid s recipient lamports memo signature rest later (some v) e found k =
    decide v.is_valid refl k
  where
    decide :
        (b : Bool)
        → v.is_valid ≡ b
        → is_valid_verdict (if b then answered v else later) ≡ true
        → Paid s recipient lamports memo
            (signature ∷ rest)
            (verdict_signature (if b then answered v else later))
    decide true valid k = (
      signature,
      subst (Carries (payment_under signature recipient lamports memo)) e
          (verify_sol_payment_transaction-Carries s
            (payment_under signature recipient lamports memo))
          valid,
      ground (arith, eq_iff signature signature),
      verify_sol_payment_transaction_sound s (payment_under signature recipient lamports memo)
          (ap says_valid e ∙ valid),
    )
    decide false valid k = Paid-later s recipient lamports memo signature rest _ (found k)

first_valid-Paid :
    (s : SolanaService) (recipient : String) (lamports : ℕ) (memo : Option String)
    (signatures : List String)
    → is_valid_verdict (first_valid s recipient lamports memo signatures) ≡ true
    → Paid s recipient lamports memo signatures
        (verdict_signature (first_valid s recipient lamports memo signatures))
first_valid-Paid s recipient lamports memo [] h = absurd cc
first_valid-Paid s recipient lamports memo (signature ∷ rest) h =
    or_later-Paid s recipient lamports memo signature rest _ _ refl
      (first_valid-Paid s recipient lamports memo rest) h

-- A payment that is found valid by its reference stands in a transaction that the chain lists
-- without an error for the reference, under the signature that comes back: a system transfer of the whole amount in lamports to the
-- recipient, with the expected memo.
pub verify_sol_payment_by_reference_sound :
    (s : SolanaService) (rpc : Signatures) (reference recipient : String) (amount : Decimal)
    (memo : Option String)
    → is_valid_verdict (verify_sol_payment_by_reference s rpc reference recipient amount memo)
      ≡ true
    → ReferenceEvidence s rpc reference recipient amount memo
        (verdict_signature (verify_sol_payment_by_reference s rpc reference recipient amount memo))
unfolding verify_sol_payment_by_reference
verify_sol_payment_by_reference_sound s rpc reference recipient amount memo h =
    go (reference == "") h
  where
    priced :
        (signatures : List String) (o : Option ℕ)
        → get_signatures_for_address rpc reference ≡ some signatures
        → amount_to_lamports amount ≡ o
        → is_valid_verdict (for_lamports s recipient memo signatures o) ≡ true
        → ReferenceEvidence s rpc reference recipient amount memo
            (verdict_signature (for_lamports s recipient memo signatures o))
    priced signatures none f e k = absurd cc
    priced signatures (some lamports) f e k =
        let (signature, carried, listed, evidence) =
          first_valid-Paid s recipient lamports memo signatures k in
        record {
          signatures = signatures;
          signature = signature;
          lamports = lamports;
          carried = carried;
          found = f;
          listed = listed;
          whole_price = e;
          evidence = evidence;
        }

    found :
        (o : Option (List String))
        → get_signatures_for_address rpc reference ≡ o
        → is_valid_verdict (among s reference recipient amount memo o) ≡ true
        → ReferenceEvidence s rpc reference recipient amount memo
            (verdict_signature (among s reference recipient amount memo o))
    found none f k = absurd cc
    found (some signatures) f k = priced signatures _ f refl k

    go :
        (b : Bool)
        → is_valid_verdict (
            if b
            then unpaid
            else among s reference recipient amount memo (get_signatures_for_address rpc reference))
          ≡ true
        → ReferenceEvidence s rpc reference recipient amount memo (
            verdict_signature (
              if b
              then unpaid
              else among s reference recipient amount memo
                  (get_signatures_for_address rpc reference)))
    go true k = absurd cc
    go false k = found _ refl k
