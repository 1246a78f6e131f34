-- ===== src/Sponsored/Endpoints.antt =====
-- The four endpoints of sponsored payments of veriproof/apps/ip/views_api.py, for a browser and for
-- the platform's agent, with `_agent_sponsored_payment_principal`.
use veri_proof_hackerton.Prelude.{
  String, Bool, true, false, not, Option, none, some, ◌⊎◌, inl, inr, ◌==◌, ◌&&◌, ◌||◌,
  if◌then◌else◌, ◌≡◌, ◌≢◌, refl, arith, eq_iff, if-both,
}
use veri_proof_hackerton.Json.{Fields, get}
use veri_proof_hackerton.Web.{Request, Library, Failure, failure, json_object}
use veri_proof_hackerton.Sponsored.{Channel, browser, agent, Checkout, IntentReply}
use veri_proof_hackerton.Sponsored.Open.{Tables, create_sponsored_usdc_intent}
use veri_proof_hackerton.Sponsored.Settle.{
  Till, PaidReply, settle_sponsored_usdc_intent, text_or_empty,
}

-- The settings of the agent's payments, the `Authorization` header, empty if missing, parted at its
-- first space, with `str.lower`, and whether a text is ASCII, without which `compare_digest` raises.
pub record AgentAccess : Type 0 where
  pub configured_token : String
  pub buyer_pubkey : String
  pub authorization : String
  pub scheme_of : String → String
  pub token_of : String → String
  pub lower : String → String
  pub is_ascii : String → Bool

-- The agent's wallet, a refusal, or an exception.
pub data Principal : Type 0 where
  wallet : String → Principal
  denied : Failure → Principal
  raised : Principal

abbrev pub compare_digest : AgentAccess → String → String → Option Bool
compare_digest a s t = if a.is_ascii s && a.is_ascii t then some (s == t) else none

abbrev pub agent_wallet : Checkout → AgentAccess → Option Bool → Principal
agent_wallet c a none = raised
agent_wallet c a (some false) = denied (failure "agent_authentication_required" 401)
agent_wallet c a (some true) =
    let buyer : String = c.env.strip a.buyer_pubkey in
    if c.is_valid_pubkey buyer then wallet buyer else denied (failure "payment_unavailable" 503)

unfoldable pub agent_sponsored_payment_principal : Checkout → AgentAccess → Principal
agent_sponsored_payment_principal c a =
    let token : String = c.env.strip a.configured_token in
    if token == "" || not (a.lower (a.scheme_of a.authorization) == "bearer")
    then denied (failure "agent_authentication_required" 401)
    else agent_wallet c a (compare_digest a (a.token_of a.authorization) token)

abbrev open_with :
    Checkout → String → Option String → Channel → Tables → Fields → String → IntentReply × Tables
open_with c asset_id user channel t data_ buyer =
    create_sponsored_usdc_intent c asset_id user buyer channel (get "session_id" data_) t

abbrev open_browser : Checkout → String → String → Tables → Failure ⊎ Fields → IntentReply × Tables
open_browser c asset_id user t (inl f) = (IntentReply.error f, t)
open_browser c asset_id user t (inr data_) =
    let buyer : String = c.env.strip (text_or_empty c.lib (get "buyer_wallet" data_)) in
    if not (c.is_valid_pubkey buyer)
    then (IntentReply.error (failure "invalid_wallet" 422), t)
    else open_with c asset_id (some user) browser t data_ buyer

abbrev signed_in : Checkout → Request → String → Tables → Option String → IntentReply × Tables
signed_in c request asset_id t none = (IntentReply.error (failure "authentication_required" 401), t)
signed_in c request asset_id t (some user) =
    open_browser c asset_id user t (json_object c.lib request)

-- The user is `none` where the request is not authenticated.
unfoldable pub create_sponsored_usdc_payment :
    Checkout → Request → Option String → String → Tables → IntentReply × Tables
create_sponsored_usdc_payment c request user asset_id t =
    if not request.is_post
    then (IntentReply.error (failure "method_not_allowed" 405), t)
    else signed_in c request asset_id t user

abbrev open_agent : Checkout → String → String → Tables → Failure ⊎ Fields → IntentReply × Tables
open_agent c asset_id buyer t (inl f) = (IntentReply.error f, t)
open_agent c asset_id buyer t (inr data_) = open_with c asset_id none agent t data_ buyer

abbrev as_agent : Checkout → Request → String → Tables → Principal → IntentReply × Tables
as_agent c request asset_id t (denied f) = (IntentReply.error f, t)
as_agent c request asset_id t raised = (IntentReply.crashed, t)
as_agent c request asset_id t (wallet buyer) =
    open_agent c asset_id buyer t (json_object c.lib request)

unfoldable pub create_agent_sponsored_usdc_payment :
    Checkout → AgentAccess → Request → String → Tables → IntentReply × Tables
unfolding agent_sponsored_payment_principal
create_agent_sponsored_usdc_payment c a request asset_id t =
    if not request.is_post
    then (IntentReply.error (failure "method_not_allowed" 405), t)
    else as_agent c request asset_id t (agent_sponsored_payment_principal c a)

abbrev paying_user : Till → Library → Request → String → Tables → Option String → PaidReply × Tables
paying_user till lib request asset_id t none =
    (PaidReply.error (failure "authentication_required" 401), t)
paying_user till lib request asset_id t (some user) =
    settle_sponsored_usdc_intent till lib request asset_id (some user) browser t

unfoldable pub settle_sponsored_usdc_payment :
    Till → Library → Request → Option String → String → Tables → PaidReply × Tables
settle_sponsored_usdc_payment till lib request user asset_id t =
    if not request.is_post
    then (PaidReply.error (failure "method_not_allowed" 405), t)
    else paying_user till lib request asset_id t user

abbrev pub paying_agent :
    Till → Library → Request → String → Tables → Principal → PaidReply × Tables
paying_agent till lib request asset_id t (denied f) = (PaidReply.error f, t)
paying_agent till lib request asset_id t raised = (PaidReply.crashed, t)
paying_agent till lib request asset_id t (wallet buyer) =
    settle_sponsored_usdc_intent till lib request asset_id none agent t

unfoldable pub settle_agent_sponsored_usdc_payment :
    Till → Checkout → AgentAccess → Request → String → Tables → PaidReply × Tables
unfolding agent_sponsored_payment_principal
settle_agent_sponsored_usdc_payment till c a request asset_id t =
    if not request.is_post
    then (PaidReply.error (failure "method_not_allowed" 405), t)
    else paying_agent till c.lib request asset_id t (agent_sponsored_payment_principal c a)

-- Without the configured token there is no principal.
abbrev pub is_wallet : Principal → Bool
is_wallet (wallet buyer) = true
is_wallet (denied f) = false
is_wallet raised = false

abbrev pub IsUnauthorized : Checkout → AgentAccess → Type 0
IsUnauthorized c a =
    (c.env.strip a.configured_token ≡ "")
    ⊎ (a.token_of a.authorization ≢ c.env.strip a.configured_token)

unauthorized_principal :
    (c : Checkout) (a : AgentAccess)
    → IsUnauthorized c a
    → is_wallet (agent_sponsored_payment_principal c a) ≡ false
unfolding agent_sponsored_payment_principal
unauthorized_principal c a h = ground (
  arith,
  h,
  eq_iff (c.env.strip a.configured_token) "",
  eq_iff (a.token_of a.authorization) (c.env.strip a.configured_token),
)

no_wallet :
    (c : Checkout) (a : AgentAccess) (till : Till) (request : Request) (asset_id : String)
    (t : Tables) (p : Principal)
    → is_wallet p ≡ false
    → ((as_agent c request asset_id t p).1 ≡ t)
      × ((paying_agent till c.lib request asset_id t p).1 ≡ t)
no_wallet c a till request asset_id t (denied f) h = (refl, refl)
no_wallet c a till request asset_id t raised h = (refl, refl)
no_wallet c a till request asset_id t (wallet buyer) h = absurd cc

-- Whatever it asks for, an agent's request that does not carry the configured token, or finds none
-- configured, neither opens nor settles a payment: all tables stay as they are.
pub agent_payment_unauthorized :
    (c : Checkout) (a : AgentAccess) (till : Till) (request : Request) (asset_id : String)
    (t : Tables)
    → IsUnauthorized c a
    → ((create_agent_sponsored_usdc_payment c a request asset_id t).1 ≡ t)
      × ((settle_agent_sponsored_usdc_payment till c a request asset_id t).1 ≡ t)
unfolding create_agent_sponsored_usdc_payment settle_agent_sponsored_usdc_payment
agent_payment_unauthorized c a till request asset_id t h =
    let (unopened, unpaid) =
      no_wallet c a till request asset_id t (agent_sponsored_payment_principal c a)
        (unauthorized_principal c a h) in
    (
      if-both (λ (x : IntentReply × Tables). x.1 ≡ t) (not request.is_post) _ _ refl unopened,
      if-both (λ (x : PaidReply × Tables). x.1 ≡ t) (not request.is_post) _ _ refl unpaid,
    )
