-- ===== src/Royalty/Ledger.antt =====
-- The royalty rows of veriproof/services/royalty_service.py against the escrow's transfers.
use veri_proof_hackerton.Prelude.{
  String, Option, none, some, List, [], ◌∷◌, ◌++◌, ◌≡◌, refl, sym, ap, ◌∙◌, inl, inr,
}
use mathlib.Core.Path.{subst, ap₂}
use veri_proof_hackerton.Models.{
  License, RoyaltyDistribution, LegStatus, pending, settled, failed, World, Transfer,
}
use veri_proof_hackerton.Royalty.{
  TransferUsdc, Leg, new_distribution, settle_leg, settle_legs, attempt,
}
use veri_proof_hackerton.Royalty.Legs.{settle_leg_cases}

-- A transfer that the escrow has sent has a signature.
abbrev add_sent : Transfer → Option String → List Transfer → List Transfer
add_sent t none rest = rest
add_sent t (some _) rest = t ∷ rest

unfoldable pub delivered : List Transfer → List Transfer
delivered [] = []
delivered (t ∷ ts) = add_sent t t.signature (delivered ts)

-- What a settled row says was paid out: its amount to its wallet, under its signature.
abbrev add_booked : RoyaltyDistribution → LegStatus → List Transfer → List Transfer
add_booked d settled rest =
    record { to_pubkey = d.recipient_wallet; amount = d.amount_usdc; signature = d.transfer_tx_sig }
    ∷ rest
add_booked d pending rest = rest
add_booked d failed rest = rest

unfoldable pub booked : List RoyaltyDistribution → List Transfer
booked [] = []
booked (d ∷ ds) = add_booked d d.status (booked ds)

add_sent-append :
    (t : Transfer) (signature : Option String) (xs ys : List Transfer)
    → add_sent t signature (xs ++ ys) ≡ add_sent t signature xs ++ ys
add_sent-append t none xs ys = refl
add_sent-append t (some s) xs ys = refl

add_booked-append :
    (d : RoyaltyDistribution) (status : LegStatus) (xs ys : List Transfer)
    → add_booked d status (xs ++ ys) ≡ add_booked d status xs ++ ys
add_booked-append d settled xs ys = refl
add_booked-append d pending xs ys = refl
add_booked-append d failed xs ys = refl

delivered-append : (xs ys : List Transfer) → delivered (xs ++ ys) ≡ delivered xs ++ delivered ys
unfolding delivered
delivered-append [] ys = refl
delivered-append (x ∷ xs) ys =
    ap (add_sent x x.signature) (delivered-append xs ys)
    ∙ add_sent-append x x.signature (delivered xs) (delivered ys)

booked-append : (xs ys : List RoyaltyDistribution) → booked (xs ++ ys) ≡ booked xs ++ booked ys
unfolding booked
booked-append [] ys = refl
booked-append (x ∷ xs) ys =
    ap (add_booked x x.status) (booked-append xs ys)
    ∙ add_booked-append x x.status (booked xs) (booked ys)

-- The settled rows are the transfers that were sent, one for one and in their order: the same
-- wallets, amounts and signatures.
abbrev pub IsBalanced : World → Type 0
IsBalanced w = booked w.distributions ≡ delivered w.transfers

one_leg :
    (license : License) (leg : Leg) (signature : Option String)
    → booked (new_distribution license leg signature ∷ [])
      ≡ delivered
          (record { to_pubkey = leg.wallet; amount = leg.amount; signature = signature } ∷ [])
unfolding new_distribution delivered booked
one_leg license leg none = refl
one_leg license leg (some s) = refl

no_leg : (license : License) (leg : Leg) → booked (new_distribution license leg none ∷ []) ≡ []
unfolding new_distribution booked
no_leg license leg = refl

append_nil : (xs : List Transfer) → xs ++ [] ≡ xs
append_nil [] = refl
append_nil (x ∷ xs) = ap (λ rest. x ∷ rest) (append_nil xs)

attempt-IsBalanced :
    (solana : Option TransferUsdc) (license : License) (leg : Leg) (w : World)
    → IsBalanced w
    → IsBalanced (attempt solana license leg w).1
attempt-IsBalanced none license leg w h =
    booked-append w.distributions _
    ∙ ap (λ rest. booked w.distributions ++ rest) (no_leg license leg)
    ∙ append_nil (booked w.distributions)
    ∙ h
attempt-IsBalanced (some transfer) license leg w h =
    booked-append w.distributions _
    ∙ ap₂ (λ xs ys. xs ++ ys) h (one_leg license leg (transfer w.transfers leg.wallet leg.amount))
    ∙ sym (delivered-append w.transfers _)

settle_leg-IsBalanced :
    (solana : Option TransferUsdc) (license : License) (leg : Leg) (w : World)
    → IsBalanced w
    → IsBalanced (settle_leg solana license leg w).1
settle_leg-IsBalanced solana license leg w h = elim (settle_leg_cases solana license leg w) [
  | inl (rec, done, same) ↦ subst (λ x. IsBalanced x.1) (sym same) h
  | inr (open_leg, tried) ↦
      subst (λ x. IsBalanced x.1) (sym tried) (attempt-IsBalanced solana license leg w h)
]

-- However the transfers of the legs succeed or fail, and whatever was settled before: the settled
-- rows go on being exactly the transfers that the escrow has sent.
pub settle_legs-IsBalanced :
    (solana : Option TransferUsdc) (license : License) (legs : List Leg) (w : World)
    → IsBalanced w
    → IsBalanced (settle_legs solana license legs w).1
unfolding settle_legs
settle_legs-IsBalanced solana license [] w h = h
settle_legs-IsBalanced solana license (leg ∷ legs) w h =
    settle_legs-IsBalanced solana license legs (settle_leg solana license leg w).1
      (settle_leg-IsBalanced solana license leg w h)
