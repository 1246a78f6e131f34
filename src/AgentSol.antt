-- ===== src/AgentSol.antt =====
-- The payment of an agent in native SOL: `get_agent_sol_payment_terms` and
-- `settle_agent_sol_payment` of veriproof/apps/ip/views_api.py.
pub mod Evidence
use veri_proof_hackerton.Prelude.{
  ℕ, String, Bool, true, false, not, Option, none, some, List, [], ◌∷◌, find, pos, leb_ℤ, ◌==◌,
  ◌&&◌, ◌||◌, if◌then◌else◌, append_text,
}
use veri_proof_hackerton.Money.{Decimal, amount_to_lamports}
use veri_proof_hackerton.Models.{
  IpAsset, NegotiationSession, World, asset_by_id, Payload, Value, text, money, null,
}
use veri_proof_hackerton.Events.{no_context, record_event}
use veri_proof_hackerton.Payment.{resolve_pay_to}
use veri_proof_hackerton.Json.{Json, Fields, get, truthy, as_text, as_object, end}
use veri_proof_hackerton.Settlement.{
  SettlementService, Settlement, Receipt, Outcome, success, invalid, raised, settle_pipeline,
  sol_memo,
}
use veri_proof_hackerton.Solana.{SolanaService, PaymentVerification, get_transaction}
use veri_proof_hackerton.Solana.Verify.{SolPayment, verify_sol_payment_transaction}
use veri_proof_hackerton.Web.{Request, Library, Failure, failure}
use veri_proof_hackerton.Sponsored.{is_for_sale, is_accepted}

-- What the endpoints are built from; `is_valid_pubkey` is `Pubkey.from_string` of solders.
pub record SolDesk : Type 0 where
  pub settlement : SettlementService
  pub solana : SolanaService
  pub lib : Library
  pub is_valid_pubkey : String → Bool
  -- whether a failure to fetch a transaction is the RPC's own error, a CertificateIssueError, and not
  -- one of HTTP, which nothing catches
  pub is_rpc_error : String → Bool

-- What a buyer has to pay.
pub record SolTerms : Type 0 where
  pub asset : IpAsset
  pub session : Option NegotiationSession
  pub amount : Decimal

-- The settlement's 200 and the terms' 200, an error, or an exception.
pub data SolReply : Type 0 where
  purchased : Receipt → SolReply
  announced : String → Decimal → String → SolReply
  error : Failure → SolReply
  crashed : SolReply

-- `_accepted_sol_session`: `none` is the ValidationError of a text that is no UUID.
abbrev pub has_sol_price : Option Decimal → Bool
has_sol_price none = false
has_sol_price (some _) = true

unfoldable pub accepted_sol_session :
    SolDesk → String → IpAsset → World → Option (Option NegotiationSession)
accepted_sol_session desk session_id asset w =
    if session_id == "" then some none else elim (desk.settlement.env.parse_uuid session_id) [
      | none ↦ none
      | some id ↦ some (
          find
            (λ s.
              s.id == id
              && (s.asset == asset.id && (is_accepted s.status && has_sol_price s.final_price_sol)))
            w.sessions)
    ]

-- `_sol_payment_memo`
unfoldable pub sol_payment_memo : IpAsset → Option NegotiationSession → String
unfolding sol_memo
sol_payment_memo asset session =
    append_text (sol_memo asset) (elim session [ none ↦ "" | some s ↦ append_text ":" s.id ])

abbrev pub sol_amount : IpAsset → Option NegotiationSession → Option Decimal
sol_amount asset none = asset.target_amount
sol_amount asset (some s) = s.final_price_sol

abbrev pub is_derivative : IpAsset → Bool
is_derivative asset = elim asset.parent_asset_id [ none ↦ false | some _ ↦ true ]

-- The guards that both endpoints have, and then their own part.
abbrev pub for_amount :
    IpAsset
    → Option NegotiationSession
    → World
    → (SolTerms → SolReply × World)
    → Option Decimal
    → SolReply × World
for_amount asset session w next none = (error (failure "sol_price_not_configured" 409), w)
for_amount asset session w next (some amount) =
    if leb_ℤ amount (pos 0)
    then (error (failure "sol_price_not_configured" 409), w)
    else if is_derivative asset
    then (error (failure "sol_payment_unsupported" 409), w)
    else next (record { asset = asset; session = session; amount = amount })

abbrev pub is_missing : Option NegotiationSession → Bool
is_missing none = true
is_missing (some s) = false

abbrev pub for_session :
    String
    → IpAsset
    → World
    → (SolTerms → SolReply × World)
    → Option (Option NegotiationSession)
    → SolReply × World
for_session session_id asset w next none = (crashed, w)
for_session session_id asset w next (some session) =
    if not (session_id == "") && is_missing session
    then (error (failure "invalid_negotiation_session" 409), w)
    else for_amount asset session w next (sol_amount asset session)

abbrev pub for_asset :
    SolDesk → String → World → (SolTerms → SolReply × World) → Option IpAsset → SolReply × World
for_asset desk session_id w next none = (error (failure "not_found" 404), w)
for_asset desk session_id w next (some asset) =
    if not (is_for_sale asset)
    then (error (failure "not_found" 404), w)
    else for_session session_id asset w next (accepted_sol_session desk session_id asset w)

-- Each event is recorded or the request crashes.
abbrev pub recorded :
    SolDesk → String → Payload → SolTerms → World → (World → SolReply × World) → SolReply × World
recorded desk type payload terms w next =
    elim (record_event desk.settlement.env type payload (some terms.asset) terms.session no_context
      w) [ none ↦ (crashed, w) | some w' ↦ next w' ]

abbrev payment_payload : SolTerms → Payload
payment_payload terms =
    ("asset_id", text terms.asset.id)
    ∷ ("payment_currency", text "SOL")
    ∷ ("price_sol", money terms.amount)
    ∷ []

abbrev announce : SolDesk → World → SolTerms → SolReply × World
announce desk w terms =
    recorded desk "ASSET_DISCOVERED"
      (("asset_id", text terms.asset.id)
        ∷ ("title", elim terms.asset.title [ none ↦ null | some t ↦ text t ])
        ∷ [])
      terms w
      (λ w'. recorded desk "HTTP_402" (payment_payload terms) terms w' (λ w''. (
        announced (resolve_pay_to desk.settlement.env.platform_escrow_pubkey terms.asset none)
            terms.amount (sol_payment_memo terms.asset terms.session),
        w'',
      )))

-- The flag says whether the method is GET.
unfoldable pub get_agent_sol_payment_terms :
    SolDesk → Bool → String → String → World → SolReply × World
unfolding accepted_sol_session sol_payment_memo
get_agent_sol_payment_terms desk is_get session_id asset_id w =
    if not is_get
    then (error (failure "method_not_allowed" 405), w)
    else for_asset desk session_id w (announce desk w) (asset_by_id asset_id w)

abbrev failed_payload : SolTerms → String → Payload
failed_payload terms reason =
    ("asset_id", text terms.asset.id)
    ∷ ("payment_currency", text "SOL")
    ∷ ("reason", text reason)
    ∷ []

abbrev pub rejected : SolDesk → SolTerms → String → String → ℕ → World → SolReply × World
rejected desk terms reason code status w =
    recorded desk "PAYMENT_FAILED" (failed_payload terms reason) terms w
      (λ w'. (error (failure code status), w'))

abbrev pub unavailable : SolDesk → SolTerms → World → SolReply × World
unavailable desk terms w =
    rejected desk terms "verification unavailable" "sol_payment_verification_unavailable" 503 w

unfoldable pub sol_settlement : SolTerms → String → String → Settlement
sol_settlement terms tx wallet = record {
  asset = terms.asset;
  session = terms.session;
  tx_signature = tx;
  buyer_wallet = wallet;
  expected_amount = some terms.amount;
  usage_type = elim terms.session [ none ↦ some "commercial" | some s ↦ some s.usage_type ];
  payment_already_verified = true;
  buyer_user = none;
  payment_currency = "SOL";
}

unfoldable pub sol_payment_of : SolDesk → SolTerms → String → ℕ → SolPayment
unfolding sol_payment_memo
sol_payment_of desk terms tx lamports = record {
  signature = tx;
  recipient = resolve_pay_to desk.settlement.env.platform_escrow_pubkey terms.asset none;
  lamports = lamports;
  memo = some (sol_payment_memo terms.asset terms.session);
}

abbrev pub reply_to : Outcome × World → SolReply × World
reply_to (success r, w) = (purchased r, w)
reply_to (invalid, w) = (error (failure "license_grant_failed" 503), w)
reply_to (raised, w) = (crashed, w)

abbrev pub is_from : String → Json → Bool
is_from wallet sender = elim (as_text sender) [ none ↦ false | some t ↦ t == wallet ]

-- A verdict that is missing is an exception, which is caught where it is a CertificateIssueError.
abbrev pub after_verdict :
    SolDesk → SolTerms → String → String → World → Option PaymentVerification → SolReply × World
after_verdict desk terms tx wallet w none = elim (get_transaction desk.solana tx) [
  | none ↦ if desk.is_rpc_error tx then unavailable desk terms w else (crashed, w)
  | some _ ↦ (crashed, w)
]
after_verdict desk terms tx wallet w (some v) =
    if not v.is_valid || not (is_from wallet v.sender)
    then rejected desk terms "verification failed" "invalid_sol_payment" 400 w
    else reply_to (settle_pipeline desk.settlement (sol_settlement terms tx wallet) w)

abbrev pub with_lamports :
    SolDesk → SolTerms → String → String → World → Option ℕ → SolReply × World
with_lamports desk terms tx wallet w none = unavailable desk terms w
with_lamports desk terms tx wallet w (some lamports) =
    after_verdict desk terms tx wallet w
      (verify_sol_payment_transaction desk.solana (sol_payment_of desk terms tx lamports))

abbrev pub purchase : SolDesk → String → String → World → SolTerms → SolReply × World
purchase desk tx wallet w terms =
    recorded desk "PAYMENT_SUBMITTED" (payment_payload terms) terms w
      (λ w'. with_lamports desk terms tx wallet w' (amount_to_lamports terms.amount))

abbrev pub submitted_text : SolDesk → Json → String
submitted_text desk value =
    desk.settlement.env.strip (if truthy value then desk.lib.str_of value else "")

abbrev pub with_fields : SolDesk → String → String → World → Option Fields → SolReply × World
with_fields desk session_id asset_id w none = (crashed, w)
with_fields desk session_id asset_id w (some fields) =
    let tx : String = submitted_text desk (get "tx_signature" fields) in
    let wallet : String = submitted_text desk (get "buyer_wallet" fields) in
    if tx == "" || not (desk.is_valid_pubkey wallet)
    then (error (failure "invalid_payment_submission" 422), w)
    else for_asset desk session_id w (purchase desk tx wallet w) (asset_by_id asset_id w)

-- A body that is JSON and no object raises.
abbrev pub with_json : SolDesk → String → String → World → Option Json → SolReply × World
with_json desk session_id asset_id w none = (error (failure "invalid_json" 422), w)
with_json desk session_id asset_id w (some json) =
    with_fields desk session_id asset_id w (as_object json)

abbrev pub parsed : Library → String → Option Json
parsed lib body = if body == "" then some (Json.object end) else lib.loads body

unfoldable pub settle_agent_sol_payment :
    SolDesk → Request → String → String → World → SolReply × World
unfolding accepted_sol_session sol_payment_of sol_settlement
settle_agent_sol_payment desk request session_id asset_id w =
    if not request.is_post
    then (error (failure "method_not_allowed" 405), w)
    else with_json desk session_id asset_id w (parsed desk.lib request.raw_body)
