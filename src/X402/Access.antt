-- ===== src/X402/Access.antt =====
-- `get_asset`, `_settle_x402_request`, `_payment_required_response` and `_licensed_response` of
-- veriproof/apps/ip/views_api.py.
pub mod Justified
use veri_proof_hackerton.Prelude.{
  ℕ, String, Bool, true, false, not, Option, none, some, List, [], ◌∷◌, pos, leb_ℤ, ◌==◌, ◌&&◌,
  if◌then◌else◌, append_text,
}
use veri_proof_hackerton.Money.{Decimal, to_atomic_usdc}
use veri_proof_hackerton.Models.{
  IpAsset, License, NegotiationSession, World, asset_by_id, Payload, Value, text, null,
}
use veri_proof_hackerton.Events.{EventContext, no_context, record_event, correlation_id_for}
use veri_proof_hackerton.Payment.{resolve_pay_to}
use veri_proof_hackerton.License.{license_for, is_download_active}
use veri_proof_hackerton.Settlement.{
  SettlementService, Settlement, Receipt, Outcome, success, invalid, raised, settle_pipeline,
}
use veri_proof_hackerton.Web.{Failure, failure}
use veri_proof_hackerton.Sponsored.{is_for_sale}
use veri_proof_hackerton.X402.{
  Client, agent, browser, classify_client, SolanaPay, build_solana_pay_fallback,
  accepted_x402_session, x402_usdc_amount,
}
use veri_proof_hackerton.X402.Facilitator.{
  Server, X402Settlement, Settling, settled, payment_invalid, protocol_error, Call,
  verify_and_settle,
}

-- A request: its headers, its `session_id` parameter and its address, empty where missing.
pub record Visit : Type 0 where
  pub header : String → Option String
  pub session_id : String
  pub uri : String

-- What the endpoint is built from. `challenge` is what the SDK makes of a payee, an amount in micro
-- USDC, a mint, a memo and an address; `none` of it is an X402ProtocolError of the initialization.
pub record Shop : Type 1 where
  pub settlement : SettlementService
  pub server : Server
  pub lower : String → String
  pub random_key : List ℕ
  pub challenge : String → ℕ → String → String → String → Option server.Challenge

-- 200 with a license; 402; 200 with Solana Pay; an error; or an exception.
pub data AccessReply : Type 0 where
  licensed : License → AccessReply
  payment_required : AccessReply
  solana_pay : SolanaPay → AccessReply
  error : Failure → AccessReply
  crashed : AccessReply

abbrev pub header_or_empty : Visit → String → String
header_or_empty visit name = elim (visit.header name) [ none ↦ "" | some t ↦ t ]

module _ (shop : Shop) where
  -- The challenge, or what `build_challenge` raises: ValueError for an amount that is no positive
  -- number of micro USDC, or X402ProtocolError.
  pub data Terms : Type 0 where
    offered : shop.server.Challenge → Terms
    no_amount unavailable : Terms

  abbrev as_terms : Option shop.server.Challenge → Terms
  as_terms none = unavailable
  as_terms (some challenge) = offered challenge

  unfoldable pub build_challenge : IpAsset → Visit → Decimal → Terms
  build_challenge asset visit amount = elim (to_atomic_usdc amount) [
    | none ↦ no_amount
    | some units ↦ as_terms (
        shop.challenge
          (resolve_pay_to shop.settlement.env.platform_escrow_pubkey asset
            (some shop.settlement.env.platform_escrow_pubkey))
          units shop.settlement.env.usdc_mint_address (append_text "veriproof:" asset.id) visit.uri)
  ]

  -- Each event is recorded or the request crashes.
  abbrev pub recorded :
      String
      → Payload
      → IpAsset
      → Option NegotiationSession
      → EventContext
      → World
      → (World → AccessReply × World)
      → AccessReply × World
  recorded type payload asset session context w next =
      elim (record_event shop.settlement.env type payload (some asset) session context w) [
        | none ↦ (crashed, w)
        | some w' ↦ next w'
      ]

  abbrev pub payment_payload : IpAsset → Payload
  payment_payload asset = ("asset_id", text asset.id) ∷ ("payment_currency", text "USDC") ∷ []

  abbrev flow : IpAsset → Option NegotiationSession → String → EventContext
  flow asset session hint = record {
    account_owner = none;
    asset_id = none;
    correlation_id = correlation_id_for shop.settlement.env (some asset) session hint;
  }

  abbrev pub with_terms :
      IpAsset → Visit → Option NegotiationSession → World → Terms → AccessReply × World
  with_terms asset visit session w no_amount = (crashed, w)
  with_terms asset visit session w unavailable = (error (failure "x402_unavailable" 503), w)
  with_terms asset visit session w (offered challenge) =
      let hint : String = header_or_empty visit "X-Buyer-Agent-Id" in
      recorded "ASSET_DISCOVERED"
        (("asset_id", text asset.id)
          ∷ ("title", elim asset.title [ none ↦ null | some t ↦ text t ])
          ∷ [])
        asset none (flow asset session hint) w
        (λ w'.
          recorded "HTTP_402" (("asset_id", text asset.id) ∷ ("buyer_hint", text hint) ∷ []) asset
            none (flow asset session hint) w' (λ w''. (payment_required, w'')))

  unfoldable pub payment_required_response :
      IpAsset → Visit → Option NegotiationSession → Decimal → World → AccessReply × World
  payment_required_response asset visit session amount w =
      with_terms asset visit session w (build_challenge asset visit amount)

  unfoldable pub x402_settlement :
      IpAsset → Option NegotiationSession → Decimal → X402Settlement → Settlement
  x402_settlement asset session amount x = record {
    asset = asset;
    session = session;
    tx_signature = x.transaction;
    buyer_wallet = x.payer;
    expected_amount = some amount;
    usage_type = elim session [ none ↦ some "commercial" | some s ↦ some s.usage_type ];
    payment_already_verified = true;
    buyer_user = none;
    payment_currency = "USDC";
  }

  abbrev pub reply_to : Outcome × World → AccessReply × World
  reply_to (success r, w) = (licensed r.license, w)
  reply_to (invalid, w) = (error (failure "license_issue_failed" 503), w)
  reply_to (raised, w) = (crashed, w)

  abbrev pub failed_payload : IpAsset → String → Payload
  failed_payload asset reason =
      ("asset_id", text asset.id) ∷ ("payment_currency", text "USDC") ∷ ("reason", text reason) ∷ []

  abbrev pub after_facilitator :
      IpAsset → Visit → Option NegotiationSession → Decimal → World → Settling → AccessReply × World
  after_facilitator asset visit session amount w payment_invalid =
      recorded "PAYMENT_FAILED" (failed_payload asset "verification failed") asset session
        no_context w (payment_required_response asset visit session amount)
  after_facilitator asset visit session amount w protocol_error =
      recorded "PAYMENT_FAILED" (failed_payload asset "settlement unavailable") asset session
        no_context w (λ w'. (error (failure "x402_unavailable" 503), w'))
  after_facilitator asset visit session amount w (settled x) =
      reply_to (settle_pipeline shop.settlement (x402_settlement asset session amount x) w)

  abbrev pub with_challenge :
      IpAsset
      → Visit
      → Option NegotiationSession
      → Decimal
      → String
      → World
      → Terms
      → AccessReply × World
  with_challenge asset visit session amount signature w no_amount = (crashed, w)
  with_challenge asset visit session amount signature w unavailable =
      after_facilitator asset visit session amount w protocol_error
  with_challenge asset visit session amount signature w (offered challenge) =
      after_facilitator asset visit session amount w
        (verify_and_settle shop.server signature challenge).0

  unfoldable pub settle_x402_request :
      IpAsset → Visit → Option NegotiationSession → Decimal → String → World → AccessReply × World
  settle_x402_request asset visit session amount signature w =
      recorded "PAYMENT_SUBMITTED" (payment_payload asset) asset session no_context w (λ w'.
        with_challenge asset visit session amount signature w' (build_challenge asset visit amount))

  abbrev pub with_amount :
      IpAsset → Visit → Option NegotiationSession → World → Option Decimal → AccessReply × World
  with_amount asset visit session w none = (error (failure "usdc_price_not_configured" 409), w)
  with_amount asset visit session w (some amount) =
      let signature : String = header_or_empty visit "PAYMENT-SIGNATURE" in
      if leb_ℤ amount (pos 0)
      then (error (failure "usdc_price_not_configured" 409), w)
      else if signature == ""
      then payment_required_response asset visit session amount w
      else settle_x402_request asset visit session amount signature w

  abbrev pub is_missing : Option NegotiationSession → Bool
  is_missing none = true
  is_missing (some s) = false

  abbrev pub with_session :
      IpAsset → Visit → World → Option (Option NegotiationSession) → AccessReply × World
  with_session asset visit w none = (crashed, w)
  with_session asset visit w (some session) =
      if not (visit.session_id == "") && is_missing session
      then (error (failure "invalid_negotiation_session" 409), w)
      else with_amount asset visit session w (x402_usdc_amount asset session)

  abbrev pub for_client : IpAsset → Visit → World → Client → AccessReply × World
  for_client asset visit w browser =
      (solana_pay (build_solana_pay_fallback shop.settlement.env shop.random_key asset), w)
  for_client asset visit w agent =
      with_session asset visit w
        (accepted_x402_session shop.settlement.env visit.session_id asset w)

  abbrev pub unlicensed : IpAsset → Visit → World → AccessReply × World
  unlicensed asset visit w =
      if not (is_for_sale asset)
      then (error (failure "not_found" 404), w)
      else for_client asset visit w (classify_client shop.lower visit.header)

  abbrev pub with_license : IpAsset → Visit → World → Option License → AccessReply × World
  with_license asset visit w none = unlicensed asset visit w
  with_license asset visit w (some license) =
      if is_download_active shop.settlement.env.now license
      then (licensed license, w)
      else unlicensed asset visit w

  abbrev pub license_under : IpAsset → String → World → Option License
  license_under asset tx w = if tx == "" then none else license_for asset tx w.licenses

  abbrev pub with_asset : Visit → World → Option IpAsset → AccessReply × World
  with_asset visit w none = (error (failure "not_found" 404), w)
  with_asset visit w (some asset) =
      with_license asset visit w (license_under asset (header_or_empty visit "X-Solana-Tx-Sig") w)

  unfoldable pub get_asset : Visit → String → World → AccessReply × World
  get_asset visit asset_id w = with_asset visit w (asset_by_id asset_id w)
