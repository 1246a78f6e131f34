-- ===== src/Sponsored/Settle.antt =====
-- `_settle_sponsored_usdc_intent` of veriproof/apps/ip/views_api.py.
use veri_proof_hackerton.Prelude.{
  String, Bool, true, false, not, Option, none, some, ◌⊎◌, inl, inr, List, find, any, ltb, leb,
  ◌==◌, ◌&&◌, ◌||◌, if◌then◌else◌, ℕ,
}
use Prim.Native.String.{count}
use veri_proof_hackerton.Models.{License, World}
use veri_proof_hackerton.Json.{Json, Fields, get, truthy, as_text}
use veri_proof_hackerton.License.{license_by_tx}
use veri_proof_hackerton.Settlement.{
  SettlementService, Settlement, Outcome, success, invalid, raised, settle_pipeline,
}
use veri_proof_hackerton.Solana.{PaymentVerification}
use veri_proof_hackerton.Solana.Verify.{UsdcPayment}
use veri_proof_hackerton.Web.{Request, Library, Failure, failure, json_object}
use veri_proof_hackerton.Sponsored.{
  SponsoredPaymentIntent, IntentStatus, created, submitted, settled, expired, Channel, same_channel,
  same_user, replace_intent,
}
use veri_proof_hackerton.Sponsored.Open.{Tables}

-- What a call of `SolanaService` comes to: an answer, a CertificateIssueError, or another exception.
pub data Answer {ℓ} (A : Type ℓ) : Type ℓ where
  answered : A → Answer A
  unavailable crashed : Answer A

-- What the endpoint is built from.
pub record Till : Type 0 where
  pub settlement : SettlementService
  pub is_transaction_finalized : String → Answer Bool
  pub verify_usdc_payment : UsdcPayment → Answer PaymentVerification

-- 200 with the intent and the license; 202; an error; or an exception.
pub data PaidReply : Type 0 where
  paid : SponsoredPaymentIntent → License → PaidReply
  pending : String → PaidReply
  error : Failure → PaidReply
  crashed : PaidReply

-- `_sponsored_payment_response`, without and with a result.
abbrev pub license_for : Option String → World → Option License
license_for none w = none
license_for (some tx) w = license_by_tx tx w.licenses

abbrev pub paid_reply : SponsoredPaymentIntent → Option License → PaidReply
paid_reply i none = error (failure "license_grant_failed" 503)
paid_reply i (some license) = paid i license

unfoldable pub sponsored_payment_response : SponsoredPaymentIntent → World → PaidReply
sponsored_payment_response i w = paid_reply i (license_for i.transaction_signature w)

abbrev pub is_settled : IntentStatus → Bool
is_settled created = false
is_settled submitted = false
is_settled settled = true
is_settled expired = false

-- `intent.transaction_signature and intent.transaction_signature != signature`
abbrev pub bound_to_another : String → Option String → Bool
bound_to_another signature none = false
bound_to_another signature (some t) = not (t == "") && not (t == signature)

abbrev has_signature : String → Option String → Bool
has_signature signature none = false
has_signature signature (some t) = t == signature

-- Another intent has the signature.
abbrev pub is_taken : String → SponsoredPaymentIntent → List SponsoredPaymentIntent → Bool
is_taken signature intent =
    any λ i. has_signature signature i.transaction_signature && not (i.id == intent.id)

abbrev pub intent_by_id : String → List SponsoredPaymentIntent → Option SponsoredPaymentIntent
intent_by_id id = find λ i. i.id == id

unfoldable pub settlement_of : SponsoredPaymentIntent → String → Option String → Settlement
settlement_of intent signature user = record {
  asset = intent.asset;
  session = intent.negotiation_session;
  tx_signature = signature;
  buyer_wallet = intent.buyer_wallet;
  expected_amount = some intent.amount_usdc;
  usage_type = elim intent.negotiation_session [
    | none ↦ some "commercial"
    | some s ↦ some s.usage_type
  ];
  payment_already_verified = true;
  buyer_user = user;
  payment_currency = "USDC";
}

-- An exception inside the transaction takes the rows back. What has been handed to the mirror, the
-- audit sink and the chain stays.
abbrev pub rolled_back : World → World → World
rolled_back w w' = record w {
  mirror = w'.mirror;
  audit = w'.audit;
  transfers = w'.transfers;
  draws = w'.draws;
}

abbrev pub bound : SponsoredPaymentIntent → String → SponsoredPaymentIntent
bound intent signature = record intent {
  transaction_signature = some signature;
  status = submitted;
}

-- An early return commits the transaction, with the intent submitted.
abbrev pub after_settlement :
    ℕ
    → SponsoredPaymentIntent
    → String
    → List SponsoredPaymentIntent
    → World
    → Outcome × World
    → PaidReply × Tables
after_settlement now intent signature intents w (success r, w') =
    let closed : SponsoredPaymentIntent = record (bound intent signature) {
      status = settled;
      settled_at = some now;
    } in
    (paid closed r.license, (replace_intent closed intents, w'))
after_settlement now intent signature intents w (invalid, w') = (
  error (failure "license_grant_failed" 503),
  (replace_intent (bound intent signature) intents, w'),
)
after_settlement now intent signature intents w (raised, w') =
    (crashed, (intents, rolled_back w w'))

-- The part under the row's lock, on the tables as they are by then. The database refuses a
-- signature that another intent has.
abbrev pub settle_locked :
    Till → String → Option String → Tables → Option SponsoredPaymentIntent → PaidReply × Tables
settle_locked t signature user (intents, w) none = (crashed, (intents, w))
settle_locked t signature user (intents, w) (some intent) =
    if is_settled intent.status
    then (sponsored_payment_response intent w, (intents, w))
    else if bound_to_another signature intent.transaction_signature
    then (error (failure "payment_signature_conflict" 409), (intents, w))
    else if is_taken signature intent intents
    then (crashed, (intents, w))
    else after_settlement t.settlement.env.now intent signature intents w
        (settle_pipeline t.settlement (settlement_of intent signature user) w)

unfoldable pub commit : Till → String → String → Option String → Tables → PaidReply × Tables
commit t intent_id signature user (intents, w) =
    settle_locked t signature user (intents, w) (intent_by_id intent_id intents)

-- What comes before the lock: a reply, or the intent whose payment the chain holds valid.
pub data Checked : Type 0 where
  replied : PaidReply → Checked
  cleared : SponsoredPaymentIntent → Checked

abbrev is_from : String → Json → Bool
is_from wallet sender = elim (as_text sender) [ none ↦ false | some t ↦ t == wallet ]

unfoldable pub payment_of : Till → SponsoredPaymentIntent → String → UsdcPayment
payment_of t intent signature = record {
  tx_sig = signature;
  recipient = intent.recipient_wallet;
  amount = intent.amount_usdc;
  mint = t.settlement.env.usdc_mint_address;
  memo = some intent.memo;
}

abbrev pub verdict : SponsoredPaymentIntent → Answer PaymentVerification → Checked
verdict intent unavailable = replied (error (failure "payment_verification_unavailable" 503))
verdict intent Answer.crashed = replied crashed
verdict intent (answered v) =
    if not v.is_valid || not (is_from intent.buyer_wallet v.sender)
    then replied (error (failure "invalid_payment" 422))
    else cleared intent

abbrev pub finality : Till → SponsoredPaymentIntent → String → Answer Bool → Checked
finality t intent signature unavailable =
    replied (error (failure "payment_verification_unavailable" 503))
finality t intent signature Answer.crashed = replied crashed
finality t intent signature (answered false) = replied (pending intent.id)
finality t intent signature (answered true) =
    verdict intent (t.verify_usdc_payment (payment_of t intent signature))

unfoldable pub check :
    Till → SponsoredPaymentIntent → String → Tables → Checked × List SponsoredPaymentIntent
unfolding sponsored_payment_response payment_of
check t intent signature (intents, w) =
    if is_settled intent.status
    then (replied (sponsored_payment_response intent w), intents)
    else if leb intent.expires_at t.settlement.env.now
    then (
      replied (error (failure "payment_expired" 409)),
      replace_intent (record intent { status = expired }) intents,
    )
    else if bound_to_another signature intent.transaction_signature
    then (replied (error (failure "payment_signature_conflict" 409)), intents)
    else if is_taken signature intent intents
    then (replied (error (failure "payment_signature_conflict" 409)), intents)
    else (finality t intent signature (t.is_transaction_finalized signature), intents)

abbrev pub text_or_empty : Library → Json → String
text_or_empty lib value = if truthy value then lib.str_of value else ""

abbrev is_own : String → Option String → Channel → SponsoredPaymentIntent → Bool
is_own asset_id user channel i =
    i.asset.id == asset_id && (same_user i.buyer_user user && same_channel i.channel channel)

abbrev pub refused : String → ℕ → Tables → PaidReply × Tables
refused code status t = (error (failure code status), t)

abbrev pub after_check :
    Till
    → String
    → Option String
    → World
    → Checked × List SponsoredPaymentIntent
    → PaidReply × Tables
after_check t signature user w (replied reply, intents) = (reply, (intents, w))
after_check t signature user w (cleared intent, intents) =
    commit t intent.id signature user (intents, w)

-- The id is the primary key, and the other conditions of the query are on that row.
abbrev pub with_intent :
    Till
    → String
    → String
    → Option String
    → Channel
    → Tables
    → Option SponsoredPaymentIntent
    → PaidReply × Tables
with_intent t asset_id signature user channel (intents, w) none =
    refused "payment_not_found" 404 (intents, w)
with_intent t asset_id signature user channel (intents, w) (some intent) =
    if not (is_own asset_id user channel intent)
    then refused "payment_not_found" 404 (intents, w)
    else after_check t signature user w (check t intent signature (intents, w))

abbrev pub with_submission :
    Till → String → Option String → Channel → Tables → String → Option String → PaidReply × Tables
with_submission t asset_id user channel tables signature none =
    refused "invalid_payment_submission" 422 tables
with_submission t asset_id user channel tables signature (some intent_id) =
    if signature == "" || ltb 140 (count signature)
    then refused "invalid_payment_submission" 422 tables
    else with_intent t asset_id signature user channel tables (intent_by_id intent_id tables.0)

abbrev pub with_data :
    Till
    → Library
    → String
    → Option String
    → Channel
    → Tables
    → Failure ⊎ Fields
    → PaidReply × Tables
with_data t lib asset_id user channel tables (inl f) =
    refused "invalid_payment_submission" 422 tables
with_data t lib asset_id user channel tables (inr data_) =
    with_submission t asset_id user channel tables
      (t.settlement.env.strip (text_or_empty lib (get "transaction_signature" data_)))
      (t.settlement.env.parse_uuid (text_or_empty lib (get "intent_id" data_)))

-- With no other request between the check and the lock.
unfoldable pub settle_sponsored_usdc_intent :
    Till → Library → Request → String → Option String → Channel → Tables → PaidReply × Tables
unfolding check commit
settle_sponsored_usdc_intent t lib request asset_id user channel tables =
    with_data t lib asset_id user channel tables (json_object lib request)
