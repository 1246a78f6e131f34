-- ===== src/Web/Settle.antt =====
-- POST /api/v1/ip/{asset_id}/settle: `settle` of veriproof/apps/settlement/views_api.py.
use veri_proof_hackerton.Prelude.{
  String, false, not, Option, none, some, ◌⊎◌, inl, inr, ◌==◌, if◌then◌else◌, ◌≡◌, refl, sym,
  if-both, if-split, ◌≢◌, arith, eq_iff,
}
use mathlib.Core.Path.{subst}
use veri_proof_hackerton.Models.{IpAsset, NegotiationSession, World, asset_by_id}
use veri_proof_hackerton.Json.{Json, Fields, get}
use veri_proof_hackerton.License.{license_by_tx}
use veri_proof_hackerton.Settlement.{
  SettlementService, Settlement, Receipt, Outcome, success, invalid, raised, settle_pipeline,
}
use veri_proof_hackerton.Settlement.Verified.{IsVerified}
use veri_proof_hackerton.Settlement.Pipeline.{IsConsistent, Settled, settle_pipeline-Settled}
use veri_proof_hackerton.Web.{
  Request, Library, Failure, failure, json_object, stripped, resolve_session, usage_of,
}

-- 200 with the receipt's certificate, URL and expiry; an error; or an uncaught exception.
pub data SettleReply : Type 0 where
  succeeded : Receipt → SettleReply
  error : Failure → SettleReply
  crashed : SettleReply

abbrev pub settlement_for : IpAsset → Option NegotiationSession → String → String → Settlement
settlement_for asset session tx_signature buyer_wallet = record {
  asset = asset;
  session = session;
  tx_signature = tx_signature;
  buyer_wallet = buyer_wallet;
  expected_amount = none;
  usage_type = usage_of session;
  payment_already_verified = false;
  buyer_user = none;
  payment_currency = "USDC";
}

abbrev pub reply_to : Outcome × World → SettleReply × World
reply_to (success r, w) = (succeeded r, w)
reply_to (invalid, w) = (error (failure "invalid_settlement" 400), w)
reply_to (raised, w) = (crashed, w)

abbrev pub with_session :
    SettlementService
    → IpAsset
    → String
    → String
    → World
    → Option (Option NegotiationSession)
    → SettleReply × World
with_session s asset tx wallet w none = (crashed, w)
with_session s asset tx wallet w (some session) =
    reply_to (settle_pipeline s (settlement_for asset session tx wallet) w)

abbrev pub with_fields :
    SettlementService
    → Library
    → IpAsset
    → Json
    → World
    → Option String
    → Option String
    → SettleReply × World
with_fields s lib asset session_id w none wallet = (crashed, w)
with_fields s lib asset session_id w (some tx) none = (crashed, w)
with_fields s lib asset session_id w (some tx) (some wallet) =
    if tx == ""
    then (error (failure "invalid_tx_signature" 422), w)
    else if wallet == ""
    then (error (failure "invalid_buyer_wallet" 422), w)
    else with_session s asset tx wallet w (resolve_session lib session_id asset w)

abbrev pub with_data :
    SettlementService → Library → IpAsset → World → Failure ⊎ Fields → SettleReply × World
with_data s lib asset w (inl f) = (error f, w)
with_data s lib asset w (inr data_) =
    with_fields s lib asset (get "session_id" data_) w (stripped s.env (get "tx_signature" data_))
      (stripped s.env (get "buyer_wallet" data_))

abbrev pub with_asset :
    SettlementService → Library → Request → World → Option IpAsset → SettleReply × World
with_asset s lib request w none = (error (failure "not_found" 404), w)
with_asset s lib request w (some asset) = with_data s lib asset w (json_object lib request)

unfoldable pub settle : SettlementService → Library → Request → String → World → SettleReply × World
settle s lib request asset_id w =
    if not request.is_post
    then (error (failure "method_not_allowed" 405), w)
    else with_asset s lib request w (asset_by_id asset_id w)

-- The settlement that a request asks for: of the named asset, under the signature and with the
-- session of its body, in USDC and not yet verified.
pub record IsAsked (s : SettlementService) (lib : Library) (request : Request) (asset_id : String)
    (w : World) (x : Settlement) : Type 0 where
  pub body : Fields
  pub of_body : json_object lib request ≡ inr body
  pub of_asset : asset_by_id asset_id w ≡ some x.asset
  pub of_signature : stripped s.env (get "tx_signature" body) ≡ some x.tx_signature
  pub signed : x.tx_signature ≢ ""
  pub of_session : resolve_session lib (get "session_id" body) x.asset w ≡ some x.session
  pub unverified : x.payment_already_verified ≡ false
  pub in_usdc : x.payment_currency ≡ "USDC"
  pub no_amount : x.expected_amount ≡ none

-- What a reply says: a 200 comes from the settlement that the request asks for, whose payment the
-- chain holds valid and whose license is stored under the payment; an error has changed nothing;
-- and every reply leaves the tables consistent.
abbrev pub IsAnswered :
    SettlementService → Library → Request → String → World → SettleReply × World → Type 0
IsAnswered s lib request asset_id w (succeeded r, w') =
    ((x : Settlement) × IsAsked s lib request asset_id w x
      × IsVerified s x
      × (license_by_tx x.tx_signature w'.licenses ≡ some r.license))
    × IsConsistent w'
IsAnswered s lib request asset_id w (error f, w') = w' ≡ w
IsAnswered s lib request asset_id w (crashed, w') = IsConsistent w'

reply_to-IsAnswered :
    (s : SettlementService) (lib : Library) (request : Request) (asset_id : String) (x : Settlement)
    (w : World) (o : Outcome × World)
    → IsAsked s lib request asset_id w x
    → IsConsistent w
    → Settled s x w o
    → IsAnswered s lib request asset_id w (reply_to o)
reply_to-IsAnswered s lib request asset_id x w (success r, w') asked ok (verified, stored, after) =
    ((x, asked, verified, stored), after)
reply_to-IsAnswered s lib request asset_id x w (invalid, w') asked ok (refused, same) = same
reply_to-IsAnswered s lib request asset_id x w (raised, w') asked ok after = after.0

module _ (s : SettlementService) (lib : Library) (request : Request) (asset_id : String)
    (asset : IpAsset) (w : World) (found : asset_by_id asset_id w ≡ some asset)
    (ok : IsConsistent w) where
  module _ (body : Fields) (of_body : json_object lib request ≡ inr body) where
    with_session-IsAnswered :
        (tx wallet : String) (session : Option (Option NegotiationSession))
        → stripped s.env (get "tx_signature" body) ≡ some tx
        → tx ≢ ""
        → resolve_session lib (get "session_id" body) asset w ≡ session
        → IsAnswered s lib request asset_id w (with_session s asset tx wallet w session)
    with_session-IsAnswered tx wallet none of_signature signed of_session = ok
    with_session-IsAnswered tx wallet (some session) of_signature signed of_session =
        reply_to-IsAnswered s lib request asset_id (settlement_for asset session tx wallet) w _
          (record {
            body = body;
            of_body = of_body;
            of_asset = found;
            of_signature = of_signature;
            signed = signed;
            of_session = of_session;
            unverified = refl;
            in_usdc = refl;
            no_amount = refl;
          })
          ok (settle_pipeline-Settled s (settlement_for asset session tx wallet) w ok)

    with_fields-IsAnswered :
        (tx wallet : Option String)
        → stripped s.env (get "tx_signature" body) ≡ tx
        → IsAnswered s lib request asset_id w
            (with_fields s lib asset (get "session_id" body) w tx wallet)
    with_fields-IsAnswered none wallet of_signature = ok
    with_fields-IsAnswered (some tx) none of_signature = ok
    with_fields-IsAnswered (some tx) (some wallet) of_signature =
        if-split (IsAnswered s lib request asset_id w) (tx == "") _ _ (λ _. refl)
          (λ nonempty. if-both (IsAnswered s lib request asset_id w) (wallet == "") _ _ refl (
            with_session-IsAnswered tx wallet (resolve_session lib (get "session_id" body) asset w)
              of_signature (ground (arith, eq_iff tx "")) refl))

  with_data-IsAnswered :
      (r : Failure ⊎ Fields)
      → json_object lib request ≡ r
      → IsAnswered s lib request asset_id w (with_data s lib asset w r)
  with_data-IsAnswered (inl f) e = refl
  with_data-IsAnswered (inr body) e =
      with_fields-IsAnswered body e (stripped s.env (get "tx_signature" body))
        (stripped s.env (get "buyer_wallet" body)) refl

-- From consistent tables, every request to settle is answered so: a 200 comes from the settlement
-- of the asset in the path, in USDC, under the nonempty signature and with the session of the body,
-- whose payment the chain holds valid, and its license is stored under that payment; an error
-- response has changed nothing; and after each answer, also after a crash, the tables are consistent.
pub settle-IsAnswered :
    (s : SettlementService) (lib : Library) (request : Request) (asset_id : String) (w : World)
    → IsConsistent w
    → IsAnswered s lib request asset_id w (settle s lib request asset_id w)
unfolding settle
settle-IsAnswered s lib request asset_id w ok =
    if-both (IsAnswered s lib request asset_id w) (not request.is_post) _ _ refl
      (found (asset_by_id asset_id w) refl)
  where
    found :
        (asset : Option IpAsset)
        → asset_by_id asset_id w ≡ asset
        → IsAnswered s lib request asset_id w (with_asset s lib request w asset)
    found none e = refl
    found (some asset) e =
        with_data-IsAnswered s lib request asset_id asset w e ok (json_object lib request) refl

IsConsistent-IsAnswered :
    (s : SettlementService) (lib : Library) (request : Request) (asset_id : String) (w : World)
    (o : SettleReply × World)
    → IsConsistent w
    → IsAnswered s lib request asset_id w o
    → IsConsistent o.1
IsConsistent-IsAnswered s lib request asset_id w (succeeded r, w') ok h = h.1
IsConsistent-IsAnswered s lib request asset_id w (error f, w') ok h = subst IsConsistent (sym h) ok
IsConsistent-IsAnswered s lib request asset_id w (crashed, w') ok h = h

pub settle-IsConsistent :
    (s : SettlementService) (lib : Library) (request : Request) (asset_id : String) (w : World)
    → IsConsistent w
    → IsConsistent (settle s lib request asset_id w).1
settle-IsConsistent s lib request asset_id w ok =
    IsConsistent-IsAnswered s lib request asset_id w (settle s lib request asset_id w) ok
      (settle-IsAnswered s lib request asset_id w ok)
