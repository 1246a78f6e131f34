-- ===== src/Settlement/Verified.antt =====
-- Which payment `settle_pipeline` of veriproof/apps/settlement/services.py has had verified: what
-- the chain was asked, said without `verify_payment`.
use veri_proof_hackerton.Prelude.{
  ℕ, String, Bool, true, false, Option, none, some, ◌==◌, ◌⊎◌, inl, inr, if◌then◌else◌, ◌≡◌, refl,
  sym, eq_iff, append_text,
}
use mathlib.Core.Path.{subst}
use veri_proof_hackerton.Money.{Decimal, amount_to_lamports}
use veri_proof_hackerton.Models.{IpAsset, NegotiationSession}
use veri_proof_hackerton.Payment.{resolve_pay_to}
use veri_proof_hackerton.Settlement.{
  SettlementService, Settlement, verify_payment, verify_lamports, lamports_of, resolve_amount,
  resolve_mint, sol_memo, first_amount, final_price_of,
}

-- A work is paid to its creator, and a derivative to the escrow.
abbrev pub IsPayee : String → Option String → IpAsset → String → Type 0
IsPayee escrow none asset payee = payee ≡ asset.creator.wallet_address
IsPayee escrow (some parent) asset payee = payee ≡ escrow

abbrev pub HasNoFinalPrice : Option NegotiationSession → Type 0
HasNoFinalPrice none = Unit
HasNoFinalPrice (some s) = s.final_price_usdc ≡ none

-- The expected amount; without one the negotiated price; without that the list price.
pub data IsPrice (x : Settlement) : Option Decimal → Type 0 where
  expected : (a : Decimal) → x.expected_amount ≡ some a → IsPrice x (some a)
  negotiated :
      (session : NegotiationSession) (a : Decimal)
      → x.expected_amount ≡ none
      → x.session ≡ some session
      → session.final_price_usdc ≡ some a
      → IsPrice x (some a)
  listed :
      x.expected_amount ≡ none → HasNoFinalPrice x.session → IsPrice x x.asset.target_price_usdc

-- The mint of the service, or of the settings where it has none.
abbrev pub IsMint : SettlementService → String → Type 0
IsMint s mint = ((s.usdc_mint ≡ "") × (mint ≡ s.env.usdc_mint_address)) ⊎ (mint ≡ s.usdc_mint)

-- Marked as verified by the caller, or held valid by the chain: of the signature, to the payee, of
-- the price; in SOL with the memo of the asset, in USDC in the mint.
pub data IsVerified (s : SettlementService) (x : Settlement) : Type 0 where
  already : x.payment_already_verified ≡ true → IsVerified s x
  in_sol :
      (payee : String) (price : Decimal) (lamports : ℕ)
      → x.payment_currency ≡ "SOL"
      → IsPayee s.env.platform_escrow_pubkey x.asset.parent_asset_id x.asset payee
      → IsPrice x (some price)
      → amount_to_lamports price ≡ some lamports
      → s.chain.verify_sol x.tx_signature payee lamports
          (append_text "VERIPROOF:" (append_text x.asset.id ":SOL"))
        ≡ some true
      → IsVerified s x
  in_usdc :
      (payee mint : String) (price : Option Decimal)
      → IsPayee s.env.platform_escrow_pubkey x.asset.parent_asset_id x.asset payee
      → IsPrice x price
      → IsMint s mint
      → s.chain.verify_usdc x.tx_signature payee price mint ≡ some true
      → IsVerified s x

pub resolve_pay_to-IsPayee :
    (escrow : String) (asset : IpAsset)
    → IsPayee escrow asset.parent_asset_id asset (resolve_pay_to escrow asset none)
unfolding resolve_pay_to
resolve_pay_to-IsPayee escrow asset = go asset.parent_asset_id
  where
    go :
        (parent : Option String)
        → IsPayee escrow parent asset
            (elim parent [ none ↦ asset.creator.wallet_address | some _ ↦ escrow ])
    go none = refl
    go (some id) = refl

resolve_amount-IsPrice : (x : Settlement) → IsPrice x (resolve_amount x)
unfolding resolve_amount
resolve_amount-IsPrice x = go x.expected_amount refl
  where
    unpriced :
        (session : NegotiationSession) (final : Option Decimal)
        → x.expected_amount ≡ none
        → x.session ≡ some session
        → session.final_price_usdc ≡ final
        → IsPrice x (first_amount final x.asset.target_price_usdc)
    unpriced session none e es ef = listed e (subst HasNoFinalPrice (sym es) ef)
    unpriced session (some a) e es ef = negotiated session a e es ef

    agreed :
        (session : Option NegotiationSession)
        → x.expected_amount ≡ none
        → x.session ≡ session
        → IsPrice x (first_amount (final_price_of session) x.asset.target_price_usdc)
    agreed none e es = listed e (subst HasNoFinalPrice (sym es) tt)
    agreed (some session) e es = unpriced session session.final_price_usdc e es refl

    go :
        (amount : Option Decimal)
        → x.expected_amount ≡ amount
        → IsPrice x (
            first_amount amount (first_amount (final_price_of x.session) x.asset.target_price_usdc))
    go none e = agreed x.session e refl
    go (some a) e = expected a e

resolve_mint-IsMint : (s : SettlementService) → IsMint s (resolve_mint s)
unfolding resolve_mint
resolve_mint-IsMint s = go (s.usdc_mint == "") refl
  where
    go :
        (b : Bool)
        → (s.usdc_mint == "") ≡ b
        → IsMint s (if b then s.env.usdc_mint_address else s.usdc_mint)
    go true e = inl ((eq_iff s.usdc_mint "").0 e, refl)
    go false e = inr refl

pub verify_payment-IsVerified :
    (s : SettlementService) (x : Settlement) → verify_payment s x ≡ some true → IsVerified s x
unfolding verify_payment sol_memo
verify_payment-IsVerified s x h =
    go x.payment_already_verified (x.payment_currency == "SOL") refl refl h
  where
    payee : String
    payee = resolve_pay_to s.env.platform_escrow_pubkey x.asset none

    sol :
        (price : Option Decimal)
        → x.payment_currency ≡ "SOL"
        → IsPrice x price
        → verify_lamports s x payee (lamports_of price) ≡ some true
        → IsVerified s x
    sol none currency of_price k = absurd cc
    sol (some price) currency of_price k = lamports (amount_to_lamports price) refl k
      where
        lamports :
            (n : Option ℕ)
            → amount_to_lamports price ≡ n
            → verify_lamports s x payee n ≡ some true
            → IsVerified s x
        lamports none e k' = absurd cc
        lamports (some n) e k' =
            in_sol payee price n currency
              (resolve_pay_to-IsPayee s.env.platform_escrow_pubkey x.asset) of_price e k'

    go :
        (marked in_sol : Bool)
        → x.payment_already_verified ≡ marked
        → (x.payment_currency == "SOL") ≡ in_sol
        → (if marked
            then some true
            else if in_sol
            then verify_lamports s x payee (lamports_of (resolve_amount x))
            else s.chain.verify_usdc x.tx_signature payee (resolve_amount x) (resolve_mint s))
          ≡ some true
        → IsVerified s x
    go true b em eb k = already em
    go false true em eb k =
        sol (resolve_amount x) ((eq_iff x.payment_currency "SOL").0 eb) (resolve_amount-IsPrice x) k
    go false false em eb k =
        in_usdc payee (resolve_mint s) (resolve_amount x)
          (resolve_pay_to-IsPayee s.env.platform_escrow_pubkey x.asset) (resolve_amount-IsPrice x)
          (resolve_mint-IsMint s) k
