-- ===== src/License.antt =====
-- veriproof/services/license_service.py: granting licenses, and whether a payment still holds one.
pub mod Idempotence
pub mod Registry
pub mod Access
use veri_proof_hackerton.Prelude.{
  ℕ, suc, String, Bool, true, false, Option, none, some, List, [], ◌∷◌, ◌++◌, ltb, nat_eq, find,
  not, map, ◌==◌, ◌&&◌, ◌+◌, if◌then◌else◌,
}
use veri_proof_hackerton.Money.{Decimal}
use veri_proof_hackerton.Models.{IpAsset, NegotiationSession, License, Payload, Value, text, World}
use veri_proof_hackerton.Env.{Env}
use veri_proof_hackerton.Events.{best_effort, session_id_of}
use veri_proof_hackerton.Payment.{resolve_pay_to}

-- `LicenseService`, with the setting that it falls back to in `Env`. A service without a recorder
-- records nothing.
pub record LicenseService : Type 0 where
  pub ttl_seconds : Option ℕ
  pub has_recorder : Bool

-- `License.objects.filter(payment_tx_sig=payment_tx).first()`
abbrev pub license_by_tx : String → List License → Option License
license_by_tx tx rows = find (λ l. l.payment_tx_sig == tx) rows

unfoldable pub effective_ttl_seconds : LicenseService → Env → ℕ
effective_ttl_seconds service env = elim service.ttl_seconds [
  | none ↦ env.download_token_ttl_seconds
  | some n ↦ n
]

abbrev or_commercial : String → String
or_commercial usage = if usage == "" then "commercial" else usage

abbrev price_in : String → String → Option Decimal → Option Decimal
price_in currency payment_currency price = if payment_currency == currency then price else none

-- What a caller asks for: the arguments of `grant` but the asset.
pub record Purchase : Type 0 where
  pub buyer_wallet : String
  pub price : Option Decimal
  pub usage_type : String
  pub payment_tx : String
  pub session : Option NegotiationSession
  pub buyer_user : Option String
  pub payment_currency : String

-- The row that a first grant creates; the id and the token are the next draws.
unfoldable pub new_license : LicenseService → Env → IpAsset → Purchase → ℕ → License
unfolding effective_ttl_seconds
new_license service env asset p draws = record {
  id = env.uuid4 draws;
  asset = asset.id;
  buyer_user = p.buyer_user;
  session = session_id_of p.session;
  buyer_wallet = p.buyer_wallet;
  price_usdc = price_in "USDC" p.payment_currency p.price;
  price_sol = price_in "SOL" p.payment_currency p.price;
  payment_currency = p.payment_currency;
  usage_type = or_commercial p.usage_type;
  payment_tx_sig = p.payment_tx;
  certificate_tx_sig = none;
  download_token = some (env.token_urlsafe (suc draws));
  download_expires_at = some (env.now + effective_ttl_seconds service env);
}

unfoldable pub record_payment_verified :
    LicenseService → Env → IpAsset → License → Option NegotiationSession → World → World
record_payment_verified service env asset license session w =
    best_effort service.has_recorder env "PAYMENT_VERIFIED"
      (("asset_id", text asset.id)
        ∷ ("license_id", text license.id)
        ∷ ("payment_tx_sig", text license.payment_tx_sig)
        ∷ ("buyer_wallet", text license.buyer_wallet)
        ∷ [])
      (some asset) session w

unfoldable pub record_license_issued :
    LicenseService → Env → IpAsset → License → Option NegotiationSession → World → World
record_license_issued service env asset license session w =
    best_effort service.has_recorder env "LICENSE_ISSUED"
      (("asset_id", text asset.id)
        ∷ ("license_id", text license.id)
        ∷ ("payment_currency", text license.payment_currency)
        ∷ ("usage_type", text license.usage_type)
        ∷ [])
      (some asset) session w

unfoldable pub add_license : License → World → World
add_license license w = record w {
  licenses = w.licenses ++ license ∷ [];
  draws = suc (suc w.draws);
}

abbrev grant_new : LicenseService → Env → IpAsset → Purchase → World → License × World
grant_new service env asset p w =
    let license : License = new_license service env asset p w.draws in
    (
      license,
      record_license_issued service env asset license p.session
          (record_payment_verified service env asset license p.session (add_license license w)),
    )

abbrev pub grant_found :
    LicenseService → Env → IpAsset → Purchase → World → Option License → License × World
grant_found service env asset p w none = grant_new service env asset p w
grant_found service env asset p w (some existing) = (existing, w)

unfoldable pub grant : LicenseService → Env → IpAsset → Purchase → World → License × World
unfolding record_payment_verified record_license_issued add_license new_license
grant service env asset p w =
    grant_found service env asset p w (license_by_tx p.payment_tx w.licenses)

-- `is_download_active`
unfoldable pub is_download_active : ℕ → License → Bool
is_download_active now license = elim license.download_expires_at [
  | none ↦ false
  | some expires_at ↦ ltb now expires_at
]

-- `SolanaService.verify_usdc_payment` as a caller sees it: its arguments are the signature, the
-- recipient, the amount and the mint; `none` is an exception.
abbrev pub VerifyUsdc : Type 0
VerifyUsdc = String → String → Option Decimal → String → Option Bool

abbrev pub license_for : IpAsset → String → List License → Option License
license_for asset tx rows = find (λ l. l.asset == asset.id && l.payment_tx_sig == tx) rows

abbrev held : Env → VerifyUsdc → IpAsset → String → Option License → Option Bool
held env verify asset tx (some license) = some (is_download_active env.now license)
held env verify asset tx none =
    verify tx (resolve_pay_to env.platform_escrow_pubkey asset none) asset.target_price_usdc
      env.usdc_mint_address

-- `is_licensed`: the database decides where it has a row; else the chain is asked.
unfoldable pub is_licensed : Env → VerifyUsdc → World → IpAsset → String → Option Bool
is_licensed env verify w asset tx_sig =
    if tx_sig == ""
    then some false
    else held env verify asset tx_sig (license_for asset tx_sig w.licenses)
