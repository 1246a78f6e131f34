-- ===== src/X402.antt =====
-- veriproof/services/x402_service.py and veriproof/services/x402_protocol_service.py, and the
-- endpoint that sells by x402, GET /api/v1/ip/{asset_id} of veriproof/apps/ip/views_api.py.
pub mod Base58
pub mod Facilitator
pub mod Access
use veri_proof_hackerton.Prelude.{
  ℕ, String, Bool, true, false, not, Option, none, some, List, [], ◌∷◌, find, pos, leb_ℤ, ◌==◌,
  ◌&&◌, ◌||◌, if◌then◌else◌, append_text,
}
use text.Mathlib.Text.{find?}
use veri_proof_hackerton.Money.{Decimal, to_atomic_usdc}
use veri_proof_hackerton.Models.{IpAsset, NegotiationSession, World}
use veri_proof_hackerton.Env.{Env}
use veri_proof_hackerton.Payment.{resolve_pay_to}
use veri_proof_hackerton.Sponsored.{is_accepted}
use veri_proof_hackerton.X402.Base58.{base58_encode}

pub data Client : Type 0 where
  agent browser : Client

-- `part in text`
abbrev contains : String → String → Bool
contains t part = elim (find? t part) [ none ↦ false | some _ ↦ true ]

abbrev text_or_empty : Option String → String
text_or_empty none = ""
text_or_empty (some t) = t

-- `classify_client`. Headers are read without regard to case, as `_get` and Django do; `lower` is
-- `str.lower`.
unfoldable pub classify_client : (String → String) → (String → Option String) → Client
classify_client lower header =
    let accept : String = lower (text_or_empty (header "Accept")) in
    if contains (lower (text_or_empty (header "X-Agent-Protocol"))) "x402"
    then agent
    else if contains accept "application/json"
    then agent
    else if contains accept "text/html"
    then browser
    else agent

-- The body for a browser: the payee, the price, the reference and the URI.
pub record SolanaPay : Type 0 where
  pub address : String
  pub amount_sol : Option Decimal
  pub reference : List ℕ
  pub memo : String

-- `build_solana_pay_fallback`, with the bytes that `secrets.token_bytes(32)` draws.
unfoldable pub build_solana_pay_fallback : Env → List ℕ → IpAsset → SolanaPay
build_solana_pay_fallback env key asset = record {
  address = resolve_pay_to env.platform_escrow_pubkey asset (some env.platform_escrow_pubkey);
  amount_sol = asset.target_amount;
  reference = base58_encode key;
  memo = append_text "VERIPROOF:" asset.id;
}

-- `_accepted_x402_session`: `none` is the ValidationError of a text that is no UUID.
abbrev has_price : Option Decimal → Bool
has_price none = false
has_price (some _) = true

unfoldable pub accepted_x402_session :
    Env → String → IpAsset → World → Option (Option NegotiationSession)
accepted_x402_session env session_id asset w =
    if session_id == "" then some none else elim (env.parse_uuid session_id) [
      | none ↦ none
      | some id ↦ some (
          find
            (λ s.
              s.id == id
              && (s.asset == asset.id && (is_accepted s.status && has_price s.final_price_usdc)))
            w.sessions)
    ]

abbrev list_price : IpAsset → Option Decimal → Option Decimal
list_price asset (some legacy) = some legacy
list_price asset none = if asset.currency == "USDC" then asset.target_amount else none

-- `_x402_usdc_amount`
unfoldable pub x402_usdc_amount : IpAsset → Option NegotiationSession → Option Decimal
x402_usdc_amount asset none = list_price asset asset.target_price_usdc
x402_usdc_amount asset (some s) = s.final_price_usdc
