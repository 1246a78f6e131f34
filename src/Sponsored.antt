-- ===== src/Sponsored.antt =====
-- USDC payments whose fee the platform pays: `SponsoredPaymentIntent` of
-- veriproof/apps/ip/models.py, veriproof/services/sponsored_payment_service.py, and
-- `_create_sponsored_usdc_intent` and `_settle_sponsored_usdc_intent` of
-- veriproof/apps/ip/views_api.py with what they call.
pub mod Open
pub mod Settle
pub mod Final
pub mod Sound
pub mod Steps
pub mod Endpoints
use veri_proof_hackerton.Prelude.{
  ℕ, suc, ◌+◌, String, Bool, true, false, not, Option, none, some, List, [], ◌∷◌, ◌++◌, map, find,
  pos, leb_ℤ, ltb_ℤ, ltb, leb, ◌==◌, ◌&&◌, ◌||◌, if◌then◌else◌, append_text,
}
use Prim.Native.String.{len}
use text.Mathlib.Text.{starts_with}
use veri_proof_hackerton.Money.{Decimal, to_atomic_usdc}
use veri_proof_hackerton.Models.{
  IpAsset, Visibility, public, private, AssetStatus, draft, anchored, listed, retired,
  NegotiationSession, Currency, sol, usdc, SessionStatus, accepted, negotiating, rejected, World,
  asset_by_id,
}
use veri_proof_hackerton.Env.{Env}
use veri_proof_hackerton.Json.{Json, truthy}
use veri_proof_hackerton.Payment.{resolve_pay_to}
use veri_proof_hackerton.Web.{Library, Failure, failure}

pub data IntentStatus : Type 0 where
  created submitted settled expired : IntentStatus

pub data Channel : Type 0 where
  browser agent : Channel

-- A foreign key holds the row that it points to; the rows cannot be deleted (`PROTECT`).
pub record SponsoredPaymentIntent : Type 0 where
  pub id : String
  pub asset : IpAsset
  pub negotiation_session : Option NegotiationSession
  pub buyer_user : Option String
  pub buyer_wallet : String
  pub recipient_wallet : String
  pub amount_usdc : Decimal
  pub memo : String
  pub channel : Channel
  pub status : IntentStatus
  pub transaction_signature : Option String
  pub expires_at : ℕ
  pub settled_at : Option ℕ

abbrev pub same_channel : Channel → Channel → Bool
same_channel browser browser = true
same_channel browser agent = false
same_channel agent browser = false
same_channel agent agent = true

abbrev pub same_user : Option String → Option String → Bool
same_user none none = true
same_user none (some v) = false
same_user (some u) none = false
same_user (some u) (some v) = u == v

abbrev pub replace_intent :
    SponsoredPaymentIntent → List SponsoredPaymentIntent → List SponsoredPaymentIntent
replace_intent intent = map λ i. if i.id == intent.id then intent else i

-- The signer of `SponsoredPaymentService`: its settings, the public key that the KMS answers
-- (`none` is a KmsSignerError), and the transfer as the SDKs and the signer make it, by buyer,
-- recipient, units and memo (`none` is one of the three errors that are caught).
pub record Sponsor : Type 0 where
  pub sponsor_pubkey : String
  pub public_key : Option String
  pub sign_transfer : String → String → ℕ → String → Option String

pub data Sponsored : Type 0 where
  -- the serialized transaction, and the sponsor
  transaction : String → String → Sponsored
  -- SponsoredPaymentConfigurationError
  misconfigured : Sponsored

-- `_resolved_sponsor_pubkey`
unfoldable pub resolved_sponsor_pubkey : Env → Sponsor → Option String
resolved_sponsor_pubkey env sponsor =
    let configured : String = env.strip sponsor.sponsor_pubkey in
    if configured == "" then none else elim sponsor.public_key [
      | none ↦ none
      | some actual ↦ if actual == configured then some configured else none
    ]

abbrev signed : String → Option String → Sponsored
signed payer none = misconfigured
signed payer (some serialized) = transaction serialized payer

abbrev transfer_of : Sponsor → String → String → String → Option ℕ → Option String → Sponsored
transfer_of sponsor buyer recipient memo none payer = misconfigured
transfer_of sponsor buyer recipient memo (some units) none = misconfigured
transfer_of sponsor buyer recipient memo (some units) (some payer) =
    signed payer (sponsor.sign_transfer buyer recipient units memo)

unfoldable pub build_transaction : Env → Sponsor → String → String → Decimal → String → Sponsored
unfolding resolved_sponsor_pubkey
build_transaction env sponsor buyer recipient amount memo =
    if not (starts_with memo "VERIPROOF:USDC:") || ltb 566 (len memo)
    then misconfigured
    else transfer_of sponsor buyer recipient memo (to_atomic_usdc amount)
        (resolved_sponsor_pubkey env sponsor)

-- The condition that each payment endpoint of the catalogue puts on an asset.
abbrev is_public : Visibility → Bool
is_public private = false
is_public public = true

abbrev is_offered : AssetStatus → Bool
is_offered draft = false
is_offered anchored = true
is_offered listed = true
is_offered retired = false

abbrev has_text : Option String → Bool
has_text none = false
has_text (some t) = not (t == "")

unfoldable pub is_for_sale : IpAsset → Bool
is_for_sale asset =
    is_public asset.visibility
    && (is_offered asset.status && has_text asset.registration_certificate_tx_sig)

abbrev positive : Option Decimal → Bool
positive none = false
positive (some a) = ltb_ℤ (pos 0) a

abbrev is_usdc : Currency → Bool
is_usdc sol = false
is_usdc usdc = true

abbrev pub is_accepted : SessionStatus → Bool
is_accepted negotiating = false
is_accepted accepted = true
is_accepted rejected = false
is_accepted SessionStatus.expired = false

-- `_accepted_usdc_session`: `none` is the ValidationError of a text that is no UUID, which the
-- handler of TypeError and ValueError does not catch.
unfoldable pub accepted_usdc_session :
    Library → Env → IpAsset → Json → World → Option (Option NegotiationSession)
accepted_usdc_session lib env asset session_id w =
    if not (truthy session_id) then some none else elim (env.parse_uuid (lib.str_of session_id)) [
      | none ↦ none
      | some id ↦ some (
          find
            (λ s.
              s.id == id
              && (s.asset == asset.id
                  && (is_usdc s.currency && (is_accepted s.status && positive s.final_price_usdc))))
            w.sessions)
    ]

-- What the two endpoints are built from; `is_valid_pubkey` is `Pubkey.from_string` of solders.
pub record Checkout : Type 0 where
  pub env : Env
  pub lib : Library
  pub sponsor : Sponsor
  pub is_valid_pubkey : String → Bool
  pub ttl_seconds : ℕ

-- 201 with the intent and the serialized transaction, an error, or an exception.
pub data IntentReply : Type 0 where
  opened : SponsoredPaymentIntent → String → IntentReply
  error : Failure → IntentReply
  crashed : IntentReply

abbrev pub is_created : IntentStatus → Bool
is_created created = true
is_created submitted = false
is_created settled = false
is_created expired = false

-- `.filter(...).update(status=EXPIRED)`
abbrev pub is_stale : ℕ → Option String → String → String → SponsoredPaymentIntent → Bool
is_stale now user asset wallet i =
    same_user i.buyer_user user
    && (i.asset.id == asset
        && (i.buyer_wallet == wallet && (is_created i.status && leb i.expires_at now)))

unfoldable pub expire_stale :
    ℕ → Option String → String → String → List SponsoredPaymentIntent → List SponsoredPaymentIntent
expire_stale now user asset wallet =
    map λ i. if is_stale now user asset wallet i then record i { status = expired } else i

abbrev amount_for : Option Decimal → Option NegotiationSession → Option Decimal
amount_for list_price none = list_price
amount_for list_price (some s) = s.final_price_usdc

abbrev pub intent_for :
    Checkout
    → IpAsset
    → Option NegotiationSession
    → Option String
    → String
    → String
    → Decimal
    → Channel
    → ℕ
    → SponsoredPaymentIntent
intent_for c asset session user wallet recipient amount channel draw = record {
  id = c.env.uuid4 draw;
  asset = asset;
  negotiation_session = session;
  buyer_user = user;
  buyer_wallet = wallet;
  recipient_wallet = recipient;
  amount_usdc = amount;
  memo = append_text "VERIPROOF:USDC:" (c.env.uuid4 draw);
  channel = channel;
  status = created;
  transaction_signature = none;
  expires_at = c.env.now + c.ttl_seconds;
  settled_at = none;
}
