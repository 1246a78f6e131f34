-- ===== src/SolPay.antt =====
-- The payment of a browser by Solana Pay: `verify_solpay` of veriproof/apps/ip/views_api.py, and
-- veriproof/apps/ip/browser_license_session.py.
pub mod Evidence
use veri_proof_hackerton.Prelude.{
  ℕ, String, Bool, true, false, not, Option, none, some, List, [], ◌∷◌, ◌++◌, leb, ◌==◌, ◌+◌, ◌||◌,
  ◌&&◌, if◌then◌else◌, append_text, ◌≡◌, refl, sym, ap, ◌∙◌, arith, if-both, if-split,
}
use mathlib.Core.Path.{subst}
use veri_proof_hackerton.Money.{Decimal}
use veri_proof_hackerton.Models.{IpAsset, World, asset_by_id}
use veri_proof_hackerton.Payment.{resolve_pay_to}
use veri_proof_hackerton.Json.{Json, Fields, get, truthy, as_text, as_object, object, end}
use veri_proof_hackerton.License.{license_by_tx}
use veri_proof_hackerton.Settlement.{
  SettlementService, Settlement, Receipt, Outcome, success, invalid, raised, settle_pipeline,
}
use veri_proof_hackerton.Settlement.Pipeline.{IsConsistent, Settled, settle_pipeline-Settled}
use veri_proof_hackerton.Solana.{SolanaService, PaymentVerification}
use veri_proof_hackerton.Solana.Reference.{
  Signatures, Verdict, answered, failed, no_lamports, verify_sol_payment_by_reference,
  is_valid_verdict,
}
use veri_proof_hackerton.Solana.Reference.Soundness.{
  ReferenceEvidence, verify_sol_payment_by_reference_sound,
}
use veri_proof_hackerton.Web.{Request, Library, Failure, failure}
use veri_proof_hackerton.Sponsored.{is_for_sale}

-- The requests that a browser session remembers, in seconds.
pub record PaymentRequest : Type 0 where
  pub reference : String
  pub asset_id : String
  pub created_at : ℕ

abbrev pub BrowserSession : Type 0
BrowserSession = List PaymentRequest

-- 30 minutes
abbrev pub payment_request_ttl : ℕ
payment_request_ttl = 1800

unfoldable pub active_payment_requests : ℕ → BrowserSession → BrowserSession
active_payment_requests now [] = []
active_payment_requests now (r ∷ rest) =
    let later : BrowserSession = active_payment_requests now rest in
    if leb now (r.created_at + payment_request_ttl) then r ∷ later else later

abbrev without : String → BrowserSession → BrowserSession
without reference [] = []
without reference (r ∷ rest) =
    let later : BrowserSession = without reference rest in
    if r.reference == reference then later else r ∷ later

unfoldable pub remember_browser_payment_request :
    ℕ → IpAsset → String → BrowserSession → BrowserSession
unfolding active_payment_requests
remember_browser_payment_request now asset reference session =
    without reference (active_payment_requests now session)
    ++ record { reference = reference; asset_id = asset.id; created_at = now } ∷ []

abbrev pub requested : String → String → BrowserSession → Bool
requested reference asset_id [] = false
requested reference asset_id (r ∷ rest) =
    if r.reference == reference then r.asset_id == asset_id else requested reference asset_id rest

unfoldable pub has_browser_payment_request :
    ℕ → IpAsset → String → BrowserSession → Bool × BrowserSession
unfolding active_payment_requests
has_browser_payment_request now asset reference session =
    let active : BrowserSession = active_payment_requests now session in
    (requested reference asset.id active, active)

-- What the endpoint is built from; `is_rpc_error` says whether the RPC's failure for a reference or a
-- signature is a CertificateIssueError, and not one of HTTP, which nothing catches.
pub record SolPayDesk : Type 0 where
  pub settlement : SettlementService
  pub solana : SolanaService
  pub signatures : Signatures
  pub lib : Library
  pub is_valid_pubkey : String → Bool
  pub is_rpc_error : String → Bool

-- 200 with the receipt, 202, an error, or an exception.
pub data SolPayReply : Type 0 where
  paid : Receipt → SolPayReply
  pending : SolPayReply
  error : Failure → SolPayReply
  crashed : SolPayReply

unfoldable pub solpay_settlement : IpAsset → String → String → String → Settlement
solpay_settlement asset user tx wallet = record {
  asset = asset;
  session = none;
  tx_signature = tx;
  buyer_wallet = wallet;
  expected_amount = asset.target_amount;
  usage_type = some "commercial";
  payment_already_verified = true;
  buyer_user = some user;
  payment_currency = "SOL";
}

-- The handler turns an exception of the pipeline into 503.
abbrev pub reply_to : Outcome × World → SolPayReply × World
reply_to (success r, w) = (paid r, w)
reply_to (invalid, w) = (error (failure "license_grant_failed" 503), w)
reply_to (raised, w) = (error (failure "license_grant_failed" 503), w)

abbrev pub settle_for :
    SolPayDesk → IpAsset → String → World → Option String → Option String → SolPayReply × World
settle_for desk asset user w none sender = (error (failure "solpay_verification_incomplete" 503), w)
settle_for desk asset user w (some tx) none =
    (error (failure "solpay_verification_incomplete" 503), w)
settle_for desk asset user w (some tx) (some wallet) =
    if tx == "" || wallet == ""
    then (error (failure "solpay_verification_incomplete" 503), w)
    else reply_to (settle_pipeline desk.settlement (solpay_settlement asset user tx wallet) w)

abbrev pub solpay_unavailable : World → SolPayReply × World
solpay_unavailable w = (error (failure "solpay_verification_unavailable" 503), w)

abbrev pub after_verdict : SolPayDesk → IpAsset → String → World → Verdict → SolPayReply × World
after_verdict desk asset user w no_lamports = solpay_unavailable w
after_verdict desk asset user w (failed asked) =
    if desk.is_rpc_error asked then solpay_unavailable w else (crashed, w)
after_verdict desk asset user w (answered v) =
    if not v.is_valid
    then (pending, w)
    else settle_for desk asset user w v.tx_signature (as_text v.sender)

abbrev pub payee : SolPayDesk → IpAsset → String
payee desk asset = resolve_pay_to desk.settlement.env.platform_escrow_pubkey asset none

abbrev pub asset_memo : IpAsset → Option String
asset_memo asset = some (append_text "VERIPROOF:" asset.id)

-- An asset without a price makes `_amount_to_lamports` raise.
abbrev pub with_price :
    SolPayDesk → IpAsset → String → String → World → Option Decimal → SolPayReply × World
with_price desk asset user reference w none = (crashed, w)
with_price desk asset user reference w (some amount) = after_verdict desk asset user w (
    verify_sol_payment_by_reference desk.solana desk.signatures reference (payee desk asset) amount
      (asset_memo asset))

abbrev pub with_asset :
    SolPayDesk
    → BrowserSession
    → String
    → String
    → World
    → Option IpAsset
    → SolPayReply × BrowserSession × World
with_asset desk session user reference w none = (error (failure "not_found" 404), session, w)
with_asset desk session user reference w (some asset) =
    let (is_active, session') =
      has_browser_payment_request desk.settlement.env.now asset reference session in
    if not (is_for_sale asset)
    then (error (failure "not_found" 404), session, w)
    else if not is_active
    then (error (failure "invalid_payment_reference" 403), session', w)
    else let (reply, w') = with_price desk asset user reference w asset.target_amount in
      (reply, session', w')

abbrev pub with_fields :
    SolPayDesk
    → BrowserSession
    → String
    → String
    → World
    → Option Fields
    → SolPayReply × BrowserSession × World
with_fields desk session user asset_id w none = (crashed, session, w)
with_fields desk session user asset_id w (some fields) =
    let value : Json = get "reference" fields in
    let reference : String =
      desk.settlement.env.strip (if truthy value then desk.lib.str_of value else "") in
    if not (desk.is_valid_pubkey reference)
    then (error (failure "invalid_reference" 422), session, w)
    else with_asset desk session user reference w (asset_by_id asset_id w)

-- A body that is JSON and no object raises.
abbrev pub with_json :
    SolPayDesk
    → BrowserSession
    → String
    → String
    → World
    → Option Json
    → SolPayReply × BrowserSession × World
with_json desk session user asset_id w none = (error (failure "invalid_json" 422), session, w)
with_json desk session user asset_id w (some json) =
    with_fields desk session user asset_id w (as_object json)

abbrev pub parsed_body : Library → String → Option Json
parsed_body lib body = if body == "" then some (object end) else lib.loads body

abbrev pub with_user :
    SolPayDesk
    → Request
    → BrowserSession
    → String
    → World
    → Option String
    → SolPayReply × BrowserSession × World
with_user desk request session asset_id w none =
    (error (failure "authentication_required" 401), session, w)
with_user desk request session asset_id w (some user) =
    with_json desk session user asset_id w (parsed_body desk.lib request.raw_body)

-- The user is `none` where the request is not authenticated.
unfoldable pub verify_solpay :
    SolPayDesk
    → Request
    → BrowserSession
    → Option String
    → String
    → World
    → SolPayReply × BrowserSession × World
unfolding has_browser_payment_request solpay_settlement
verify_solpay desk request session user asset_id w =
    if not request.is_post
    then (error (failure "method_not_allowed" 405), session, w)
    else with_user desk request session asset_id w user
