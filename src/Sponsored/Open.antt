-- ===== src/Sponsored/Open.antt =====
-- `_create_sponsored_usdc_intent` of veriproof/apps/ip/views_api.py.
use veri_proof_hackerton.Prelude.{
  suc, String, Bool, true, false, not, Option, none, some, List, [], ◌∷◌, ◌++◌, ◌==◌, ◌||◌, ◌&&◌,
  if◌then◌else◌,
}
use veri_proof_hackerton.Money.{Decimal}
use veri_proof_hackerton.Models.{IpAsset, NegotiationSession, World, asset_by_id}
use veri_proof_hackerton.Json.{Json, truthy}
use veri_proof_hackerton.Payment.{resolve_pay_to}
use veri_proof_hackerton.Web.{failure}
use veri_proof_hackerton.Sponsored.{
  SponsoredPaymentIntent, Channel, Sponsored, transaction, misconfigured, Checkout, IntentReply,
  opened, error, crashed, build_transaction, is_for_sale, positive, accepted_usdc_session,
  expire_stale, amount_for, intent_for,
}

-- The tables after the handler: the intents, and the rest.
abbrev pub Tables : Type 0
Tables = List SponsoredPaymentIntent × World

abbrev pub store_intent :
    SponsoredPaymentIntent → List SponsoredPaymentIntent → World → Sponsored → IntentReply × Tables
store_intent intent intents w misconfigured =
    (error (failure "payment_unavailable" 503), (intents, record w { draws = suc w.draws }))
store_intent intent intents w (transaction serialized payer) =
    (opened intent serialized, (intents ++ intent ∷ [], record w { draws = suc w.draws }))

abbrev pub with_amount :
    Checkout
    → IpAsset
    → Option NegotiationSession
    → Option String
    → String
    → Channel
    → Tables
    → Option Decimal
    → IntentReply × Tables
with_amount c asset session user wallet channel (intents, w) none = (crashed, (intents, w))
with_amount c asset session user wallet channel (intents, w) (some amount) =
    let recipient : String = resolve_pay_to c.env.platform_escrow_pubkey asset none in
    let intent : SponsoredPaymentIntent =
      intent_for c asset session user wallet recipient amount channel w.draws in
    if not (c.is_valid_pubkey recipient)
    then (error (failure "payment_unavailable" 503), (intents, w))
    else store_intent intent (expire_stale c.env.now user asset.id wallet intents) w
        (build_transaction c.env c.sponsor wallet recipient amount intent.memo)

abbrev pub is_missing : Option NegotiationSession → Bool
is_missing none = true
is_missing (some s) = false

abbrev pub with_session :
    Checkout
    → IpAsset
    → Option String
    → String
    → Channel
    → Json
    → Tables
    → Option (Option NegotiationSession)
    → IntentReply × Tables
with_session c asset user wallet channel session_id t none = (crashed, t)
with_session c asset user wallet channel session_id t (some session) =
    if truthy session_id && is_missing session
    then (error (failure "invalid_negotiation_session" 409), t)
    else with_amount c asset session user wallet channel t (amount_for asset.target_amount session)

abbrev pub with_asset :
    Checkout
    → Option String
    → String
    → Channel
    → Json
    → Tables
    → Option IpAsset
    → IntentReply × Tables
with_asset c user wallet channel session_id t none = (error (failure "not_found" 404), t)
with_asset c user wallet channel session_id t (some asset) =
    if not (is_for_sale asset)
    then (error (failure "not_found" 404), t)
    else if not (asset.currency == "USDC") || not (positive asset.target_amount)
    then (error (failure "usdc_price_not_configured" 409), t)
    else with_session c asset user wallet channel session_id t
        (accepted_usdc_session c.lib c.env asset session_id t.1)

unfoldable pub create_sponsored_usdc_intent :
    Checkout → String → Option String → String → Channel → Json → Tables → IntentReply × Tables
create_sponsored_usdc_intent c asset_id user wallet channel session_id t =
    with_asset c user wallet channel session_id t (asset_by_id asset_id t.1)
