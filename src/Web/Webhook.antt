-- ===== src/Web/Webhook.antt =====
-- POST /api/v1/paysh/webhook: `paysh_webhook` of veriproof/apps/settlement/views_api.py.
use veri_proof_hackerton.Prelude.{
  String, Bool, true, false, not, Option, none, some, ◌⊎◌, inl, inr, ◌==◌, if◌then◌else◌, ◌≡◌, ◌≢◌,
  refl, sym, arith, eq_iff, if-both,
}
use mathlib.Core.Path.{subst}
use veri_proof_hackerton.Money.{Decimal}
use veri_proof_hackerton.Models.{IpAsset, NegotiationSession, World, asset_by_id}
use veri_proof_hackerton.Json.{Json, Fields, get, is_null, truthy}
use veri_proof_hackerton.Settlement.{
  SettlementService, Settlement, Outcome, success, invalid, raised, settle_pipeline,
}
use veri_proof_hackerton.Settlement.Pipeline.{IsConsistent, Settled, settle_pipeline-Settled}
use veri_proof_hackerton.Web.{
  Request, Library, Failure, failure, json_object, stripped, resolve_session, usage_of,
}

-- The secret, the HMAC-SHA256 hex digest of a body under a key, which is ASCII, whether a text is
-- ASCII, and `PubSubPublisher.publish`: `none` where Pub/Sub is off or fails.
pub record Webhook : Type 0 where
  pub secret : String
  pub hmac_sha256 : String → String → String
  pub is_ascii : String → Bool
  pub publish : Fields → Option String

pub data WebhookReply : Type 0 where
  accepted : WebhookReply
  error : Failure → WebhookReply
  crashed : WebhookReply

-- `_verify_paysh_signature`
-- `none` is the TypeError of `compare_digest` for a header that is not ASCII.
unfoldable pub verify_paysh_signature : Webhook → Request → Option Bool
verify_paysh_signature hook request =
    if hook.secret == ""
    then some false
    else if request.paysh_signature == ""
    then some false
    else if hook.is_ascii request.paysh_signature
    then some (hook.hmac_sha256 hook.secret request.raw_body == request.paysh_signature)
    else none

-- `_parse_amount`
unfoldable pub parse_amount : Library → Json → Option Decimal
parse_amount lib raw = if is_null raw then none else lib.finite_decimal (lib.str_of raw)

abbrev pub fallback_settlement :
    Library → IpAsset → Option NegotiationSession → Fields → String → String → Settlement
fallback_settlement lib asset session data_ tx wallet = record {
  asset = asset;
  session = session;
  tx_signature = tx;
  buyer_wallet = wallet;
  expected_amount = parse_amount lib (get "amount_usdc" data_);
  usage_type = usage_of session;
  payment_already_verified = false;
  buyer_user = none;
  payment_currency = "USDC";
}

-- Whatever the pipeline ends with, the webhook accepts; an exception is logged.
abbrev pub with_session :
    SettlementService
    → Library
    → IpAsset
    → Fields
    → String
    → String
    → World
    → Option (Option NegotiationSession)
    → WebhookReply × World
with_session s lib asset data_ tx wallet w none = (crashed, w)
with_session s lib asset data_ tx wallet w (some session) =
    (accepted, (settle_pipeline s (fallback_settlement lib asset session data_ tx wallet) w).1)

abbrev pub with_asset :
    SettlementService
    → Library
    → Fields
    → String
    → String
    → World
    → Option IpAsset
    → WebhookReply × World
with_asset s lib data_ tx wallet w none = (accepted, w)
with_asset s lib data_ tx wallet w (some asset) =
    with_session s lib asset data_ tx wallet w
      (resolve_session lib (get "session_id" data_) asset w)

-- `_sync_fallback_settle`: the query by id raises for a value that is no UUID.
abbrev pub sync_fallback_settle :
    SettlementService
    → Library
    → Fields
    → String
    → String
    → World
    → Option String
    → WebhookReply × World
sync_fallback_settle s lib data_ tx wallet w none = (crashed, w)
sync_fallback_settle s lib data_ tx wallet w (some asset_id) =
    with_asset s lib data_ tx wallet w (asset_by_id asset_id w)

abbrev pub published :
    SettlementService
    → Library
    → Fields
    → String
    → String
    → World
    → Option String
    → WebhookReply × World
published s lib data_ tx wallet w (some msg_id) = (accepted, w)
published s lib data_ tx wallet w none =
    sync_fallback_settle s lib data_ tx wallet w (lib.uuid_of (get "asset_id" data_))

abbrev pub with_fields :
    SettlementService
    → Library
    → Webhook
    → Fields
    → World
    → Option String
    → Option String
    → WebhookReply × World
with_fields s lib hook data_ w none wallet = (crashed, w)
with_fields s lib hook data_ w (some tx) none = (crashed, w)
with_fields s lib hook data_ w (some tx) (some wallet) =
    if tx == ""
    then (error (failure "invalid_tx_signature" 422), w)
    else if not (truthy (get "asset_id" data_))
    then (error (failure "invalid_asset_id" 422), w)
    else published s lib data_ tx wallet w (hook.publish data_)

abbrev pub with_data :
    SettlementService → Library → Webhook → World → Failure ⊎ Fields → WebhookReply × World
with_data s lib hook w (inl f) = (error f, w)
with_data s lib hook w (inr data_) =
    with_fields s lib hook data_ w (stripped s.env (get "tx_signature" data_))
      (stripped s.env (get "buyer_wallet" data_))

abbrev pub when_signed :
    SettlementService → Library → Webhook → Request → World → Option Bool → WebhookReply × World
when_signed s lib hook request w none = (crashed, w)
when_signed s lib hook request w (some false) = (error (failure "invalid_signature" 401), w)
when_signed s lib hook request w (some true) = with_data s lib hook w (json_object lib request)

unfoldable pub paysh_webhook :
    SettlementService → Library → Webhook → Request → World → WebhookReply × World
paysh_webhook s lib hook request w =
    if not request.is_post
    then (error (failure "method_not_allowed" 405), w)
    else when_signed s lib hook request w (verify_paysh_signature hook request)

abbrev Ends : WebhookReply × World → Type 0
Ends x = IsConsistent x.1

module _ (s : SettlementService) (lib : Library) (data_ : Fields) (w : World)
    (ok : IsConsistent w) where
  pipeline-IsConsistent :
      (x : Settlement) (o : Outcome × World) → Settled s x w o → IsConsistent o.1
  pipeline-IsConsistent x (success r, w') h = h.2
  pipeline-IsConsistent x (invalid, w') h = subst IsConsistent (sym h.1) ok
  pipeline-IsConsistent x (raised, w') h = h.0

  with_asset-Ends :
      (tx wallet : String) (asset : Option IpAsset)
      → Ends (with_asset s lib data_ tx wallet w asset)
  with_asset-Ends tx wallet none = ok
  with_asset-Ends tx wallet (some asset) = go (resolve_session lib (get "session_id" data_) asset w)
    where
      go :
          (session : Option (Option NegotiationSession))
          → Ends (with_session s lib asset data_ tx wallet w session)
      go none = ok
      go (some session) =
          pipeline-IsConsistent (fallback_settlement lib asset session data_ tx wallet) _
            (settle_pipeline-Settled s (fallback_settlement lib asset session data_ tx wallet) w ok)

  published-Ends :
      (tx wallet : String) (id : Option String) → Ends (published s lib data_ tx wallet w id)
  published-Ends tx wallet (some id) = ok
  published-Ends tx wallet none = go (lib.uuid_of (get "asset_id" data_))
    where
      go : (id : Option String) → Ends (sync_fallback_settle s lib data_ tx wallet w id)
      go none = ok
      go (some id) = with_asset-Ends tx wallet (asset_by_id id w)

  with_fields-Ends :
      (hook : Webhook) (tx wallet : Option String) → Ends (with_fields s lib hook data_ w tx wallet)
  with_fields-Ends hook none wallet = ok
  with_fields-Ends hook (some tx) none = ok
  with_fields-Ends hook (some tx) (some wallet) = if-both Ends (tx == "") _ _ ok (
      if-both Ends (not (truthy (get "asset_id" data_))) _ _ ok
        (published-Ends tx wallet (hook.publish data_)))

-- The webhook keeps the tables consistent, whatever it is sent.
pub paysh_webhook-IsConsistent :
    (s : SettlementService) (lib : Library) (hook : Webhook) (request : Request) (w : World)
    → IsConsistent w
    → IsConsistent (paysh_webhook s lib hook request w).1
unfolding paysh_webhook
paysh_webhook-IsConsistent s lib hook request w ok =
    if-both Ends (not request.is_post) _ _ ok (signed (verify_paysh_signature hook request))
  where
    go : (r : Failure ⊎ Fields) → Ends (with_data s lib hook w r)
    go (inl f) = ok
    go (inr data_) =
        with_fields-Ends s lib data_ w ok hook (stripped s.env (get "tx_signature" data_))
          (stripped s.env (get "buyer_wallet" data_))

    signed : (o : Option Bool) → Ends (when_signed s lib hook request w o)
    signed none = ok
    signed (some false) = ok
    signed (some true) = go (json_object lib request)

-- Refused, or an exception; never accepted, and nothing changes.
abbrev pub IsRefused : World → WebhookReply × World → Type 0
IsRefused w (accepted, w') = ⊥
IsRefused w (error f, w') = w' ≡ w
IsRefused w (crashed, w') = w' ≡ w

forged-verify_paysh_signature :
    (hook : Webhook) (request : Request)
    → (hook.secret ≡ "") ⊎ (hook.hmac_sha256 hook.secret request.raw_body ≢ request.paysh_signature)
    → verify_paysh_signature hook request ≢ some true
unfolding verify_paysh_signature
forged-verify_paysh_signature hook request h e = absurd (
    ground (
      arith,
      h,
      e,
      eq_iff hook.secret "",
      eq_iff (hook.hmac_sha256 hook.secret request.raw_body) request.paysh_signature,
    ))

when_signed-IsRefused :
    (s : SettlementService) (lib : Library) (hook : Webhook) (request : Request) (w : World)
    (o : Option Bool)
    → o ≢ some true
    → IsRefused w (when_signed s lib hook request w o)
when_signed-IsRefused s lib hook request w none h = refl
when_signed-IsRefused s lib hook request w (some false) h = refl
when_signed-IsRefused s lib hook request w (some true) h = absurd (h refl)

-- A request is not accepted and changes nothing, unless a secret is configured and the request
-- carries the HMAC of its body under that secret: it is answered with an error, or ends in an
-- exception, as with a signature that is not ASCII.
pub paysh_webhook_forged :
    (s : SettlementService) (lib : Library) (hook : Webhook) (request : Request) (w : World)
    → (hook.secret ≡ "") ⊎ (hook.hmac_sha256 hook.secret request.raw_body ≢ request.paysh_signature)
    → IsRefused w (paysh_webhook s lib hook request w)
unfolding paysh_webhook
paysh_webhook_forged s lib hook request w h = if-both (IsRefused w) (not request.is_post) _ _ refl (
    when_signed-IsRefused s lib hook request w (verify_paysh_signature hook request)
      (forged-verify_paysh_signature hook request h))
