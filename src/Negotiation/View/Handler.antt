-- ===== src/Negotiation/View/Handler.antt =====
-- The handler `negotiate` of veriproof/apps/negotiation/views_api.py, guard by guard.
pub mod Invariant
pub mod Rows
pub mod Responses
use veri_proof_hackerton.Prelude.{
  ℕ, suc, String, Bool, true, false, not, Option, none, some, List, [], ◌∷◌, ◌++◌, ℤ, pos, leb_ℤ,
  length, if◌then◌else◌, ◌==◌,
}
use veri_proof_hackerton.Money.{Decimal}
use veri_proof_hackerton.Models.{
  IpAsset, NegotiationSession, Currency, sol, usdc, Payload, Value, text, money, int, null, World,
  asset_by_id, Status, accept, counter_offer, reject, unknown,
}
use veri_proof_hackerton.Env.{Env}
use veri_proof_hackerton.Events.{record_event, no_context}
use veri_proof_hackerton.Negotiation.Engine.{
  NegotiationResult, RoundResult, ok, not_configured, unavailable, Engine, Negotiate, run_round,
}
use veri_proof_hackerton.Negotiation.View.{
  Fields, Body, malformed, not_object, object, Request, Answer, Response, error, success, crashed,
  ParseDecimal, negotiation_offer, text_or_empty, is_allowed_usage, amount_not_configured,
  is_thread, select, new_session, same_currency, with_initial_offer, with_round, finalized,
  replace_session, event_type,
}

-- `get_negotiation_engine`
abbrev pub engine : Env → Negotiate → Engine
engine env gemini = record {
  gemini = some gemini;
  max_rounds = some env.max_negotiation_rounds;
  settings_max_rounds = env.max_negotiation_rounds;
  settings_escrow = env.platform_escrow_pubkey;
}

abbrev pub status_text : Status → String
status_text accept = "ACCEPT"
status_text counter_offer = "COUNTER_OFFER"
status_text reject = "REJECT"
status_text (unknown s) = s

abbrev pub offer_key : Currency → String
offer_key sol = "offer_sol"
offer_key usdc = "offer_usdc"

abbrev pub price_key : Currency → String
price_key sol = "price_sol"
price_key usdc = "price_usdc"

abbrev pub money_or_null : Option Decimal → Value
money_or_null none = null
money_or_null (some p) = money p

unfoldable pub event_payload :
    IpAsset → NegotiationSession → Currency → Decimal → NegotiationResult → Payload
event_payload asset session currency offer r =
    ("asset_id", text asset.id)
    ∷ ("session_id", text session.id)
    ∷ (offer_key currency, money offer)
    ∷ ("status", text (status_text r.status))
    ∷ (price_key currency, money_or_null r.price_sol)
    ∷ ("reason", text r.reason)
    ∷ ("round", int (pos (length session.rounds)))
    ∷ []

-- The session as it is saved after a round.
unfoldable pub concluded :
    Env → Currency → Decimal → NegotiationResult → NegotiationSession → NegotiationSession
unfolding with_round finalized
concluded env currency offer r session =
    finalized currency r (with_round env currency offer r session)

abbrev pub answer : Currency → NegotiationResult → NegotiationSession → Response
answer currency r session = success (record {
  status = r.status;
  currency = currency;
  price = r.price_sol;
  reason = r.reason;
  pay_address = r.pay_address;
  session_id = session.id;
})

-- The two events; `none` is a recorder that raised, and then the request crashes.
abbrev pub after_second :
    Currency → NegotiationResult → NegotiationSession → World → Option World → Response × World
after_second currency r session w none = (crashed, w)
after_second currency r session w (some w') = (answer currency r session, w')

abbrev pub after_first :
    Env
    → IpAsset
    → Currency
    → Decimal
    → NegotiationResult
    → NegotiationSession
    → World
    → Option World
    → Response × World
after_first env asset currency offer r session w none = (crashed, w)
after_first env asset currency offer r session w (some w') = after_second currency r session w' (
    record_event env (event_type r.status) (event_payload asset session currency offer r)
      (some asset) (some session) no_context w')

-- The round is appended and saved, and both events are recorded.
unfoldable pub conclude :
    Env
    → IpAsset
    → Currency
    → Decimal
    → NegotiationResult
    → NegotiationSession
    → World
    → Response × World
unfolding concluded
conclude env asset currency offer r session w =
    let saved : NegotiationSession = concluded env currency offer r session in
    let w' : World = record w { sessions = replace_session saved w.sessions } in
    after_first env asset currency offer r saved w' (
      record_event env "OFFER" (event_payload asset saved currency offer r) (some asset)
        (some saved) no_context w')

abbrev pub after_round :
    Env → IpAsset → Currency → Decimal → NegotiationSession → World → RoundResult → Response × World
after_round env asset currency offer session w not_configured = (crashed, w)
after_round env asset currency offer session w unavailable =
    (error 503 "negotiation_unavailable", w)
after_round env asset currency offer session w (ok r) =
    conclude env asset currency offer r session w

unfoldable pub negotiate_in :
    Env
    → Negotiate
    → IpAsset
    → String
    → Currency
    → Decimal
    → NegotiationSession
    → World
    → Response × World
negotiate_in env gemini asset usage currency offer session w =
    if not (same_currency session.currency currency)
    then (error 409 "negotiation_currency_mismatch", w)
    else after_round env asset currency offer (with_initial_offer currency offer session) w (
        run_round (engine env gemini) asset (with_initial_offer currency offer session) offer usage
          currency)

-- `get_or_create`: more than one row raises `MultipleObjectsReturned`.
abbrev pub in_thread :
    Env
    → Negotiate
    → IpAsset
    → String
    → String
    → Currency
    → Decimal
    → World
    → List NegotiationSession
    → Response × World
in_thread env gemini asset buyer usage currency offer w [] =
    let fresh : NegotiationSession = new_session env asset buyer usage currency offer w.draws in
    negotiate_in env gemini asset usage currency offer fresh
      (record w { sessions = w.sessions ++ fresh ∷ []; draws = suc w.draws })
in_thread env gemini asset buyer usage currency offer w (session ∷ []) =
    negotiate_in env gemini asset usage currency offer session w
in_thread env gemini asset buyer usage currency offer w (_ ∷ _ ∷ _) = (crashed, w)

abbrev pub with_offer :
    Env
    → Negotiate
    → IpAsset
    → Option String
    → String
    → World
    → Currency × Option Decimal
    → Response × World
with_offer env gemini asset usage buyer w (currency, none) = (error 422 "invalid_offer", w)
with_offer env gemini asset usage buyer w (currency, some offer) =
    if leb_ℤ offer (pos 0)
    then (error 422 "invalid_offer", w)
    else if amount_not_configured asset
    then (error 409 "amount_not_configured", w)
    else if not (is_allowed_usage usage)
    then (error 422 "invalid_usage_type", w)
    else if buyer == ""
    then (error 422 "invalid_buyer_agent_id", w)
    else in_thread env gemini asset buyer (text_or_empty usage) currency offer w
        (select (is_thread asset.id buyer) w.sessions)

abbrev pub with_body :
    Env → ParseDecimal → Negotiate → Body → World → Option IpAsset → Response × World
with_body env parse gemini body w none = (error 404 "not_found", w)
with_body env parse gemini malformed w (some asset) = (error 422 "invalid_json", w)
with_body env parse gemini not_object w (some asset) = (error 422 "invalid_json", w)
with_body env parse gemini (object fields) w (some asset) =
    with_offer env gemini asset fields.usage_type (env.strip (text_or_empty fields.buyer_agent_id))
      w (negotiation_offer parse fields)

unfoldable pub negotiate : Env → ParseDecimal → Negotiate → Request → World → Response × World
negotiate env parse gemini request w =
    if not request.is_post
    then (error 405 "method_not_allowed", w)
    else with_body env parse gemini request.body w (asset_by_id request.asset_id w)
