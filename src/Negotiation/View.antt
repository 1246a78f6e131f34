-- ===== src/Negotiation/View.antt =====
-- veriproof/apps/negotiation/views_api.py: POST /api/v1/ip/{asset_id}/negotiate.
-- A request is its method, the asset id of the path, and the body as `json.loads` reads it. A JSON
-- value that is read as an amount is the text that `str` prints; `parse_decimal` stands for
-- `decimal.Decimal`. The response keeps the status code, the error code and the fields.
pub mod Handler
use veri_proof_hackerton.Prelude.{
  ℕ, suc, String, Bool, true, false, not, Option, none, some, List, [], ◌∷◌, ◌++◌, map, ℤ, pos,
  leb_ℤ, ltb_ℤ, length, find, ◌==◌, ◌&&◌, ◌||◌, if◌then◌else◌, ◌+◌,
}
use veri_proof_hackerton.Money.{Decimal}
use veri_proof_hackerton.Models.{
  IpAsset, NegotiationSession, SessionStatus, negotiating, accepted, Round, Currency, sol, usdc,
  Status, accept, counter_offer, reject, unknown, Payload, Value, text, money, int, null, World,
  asset_by_id,
}
use veri_proof_hackerton.Env.{Env}
use veri_proof_hackerton.Events.{record_event, no_context}
use veri_proof_hackerton.Negotiation.Engine.{
  NegotiationResult, RoundResult, ok, not_configured, unavailable, Engine, Negotiate, run_round,
}

-- The fields of the body; `none` is a missing field or JSON's null.
pub record Fields : Type 0 where
  pub buyer_agent_id : Option String
  pub offer_sol : Option String
  pub offer_usdc : Option String
  pub usage_type : Option String

pub data Body : Type 0 where
  malformed not_object : Body
  object : Fields → Body

pub record Request : Type 0 where
  pub is_post : Bool
  pub asset_id : String
  pub body : Body

pub record Answer : Type 0 where
  pub status : Status
  pub currency : Currency
  pub price : Option Decimal
  pub reason : String
  pub pay_address : Option String
  pub session_id : String

-- `crashed` is an exception that no handler catches, Django's 500.
pub data Response : Type 0 where
  error : ℕ → String → Response
  success : Answer → Response
  crashed : Response

-- `decimal.Decimal(str(raw))`: a finite value, or `none` where it raises or is not finite.
abbrev pub ParseDecimal : Type 0
ParseDecimal = String → Option Decimal

unfoldable pub parse_money : ParseDecimal → Option String → Option Decimal
parse_money parse_decimal raw = elim raw [ none ↦ none | some t ↦ parse_decimal t ]

abbrev one_offer : ParseDecimal → Option String → Option String → Currency × Option Decimal
one_offer parse none none = (sol, none)
one_offer parse (some s) (some u) = (sol, none)
one_offer parse none (some u) = (usdc, parse_money parse (some u))
one_offer parse (some s) none = (sol, parse_money parse (some s))

-- `_negotiation_offer`: exactly one of the two offers. The currency of no offer is never read.
unfoldable pub negotiation_offer : ParseDecimal → Fields → Currency × Option Decimal
unfolding parse_money
negotiation_offer parse fields = one_offer parse fields.offer_sol fields.offer_usdc

abbrev pub text_or_empty : Option String → String
text_or_empty none = ""
text_or_empty (some s) = s

unfoldable pub is_allowed_usage : Option String → Bool
is_allowed_usage none = false
is_allowed_usage (some u) = u == "commercial" || u == "non-commercial" || u == "editorial"

-- `asset.min_amount is None or ... or asset.target_amount < asset.min_amount`
abbrev pub lacks_prices : Option Decimal → Option Decimal → Bool
lacks_prices none target = true
lacks_prices (some m) none = true
lacks_prices (some m) (some t) = leb_ℤ m (pos 0) || ltb_ℤ t m

unfoldable pub amount_not_configured : IpAsset → Bool
amount_not_configured asset = lacks_prices asset.min_amount asset.target_amount

-- `get_or_create(asset=asset, buyer_agent_id=...)`, as found, made or ambiguous.
abbrev pub is_thread : String → String → NegotiationSession → Bool
is_thread asset_id buyer s = s.asset == asset_id && s.buyer_agent_id == buyer

abbrev pub select {ℓ} : {A : Type ℓ} → (A → Bool) → List A → List A
select p [] = []
select p (x ∷ xs) = let rest = select p xs in if p x then x ∷ rest else rest

abbrev pub initial_for : Currency → Currency → Decimal → Option Decimal
initial_for sol sol offer = some offer
initial_for usdc usdc offer = some offer
initial_for _ _ offer = none

unfoldable pub new_session :
    Env → IpAsset → String → String → Currency → Decimal → ℕ → NegotiationSession
new_session env asset buyer usage currency offer draws = record {
  id = env.uuid4 draws;
  asset = asset.id;
  currency = currency;
  buyer_agent_id = buyer;
  usage_type = usage;
  initial_offer_usdc = initial_for usdc currency offer;
  final_price_usdc = none;
  initial_offer_sol = initial_for sol currency offer;
  final_price_sol = none;
  status = negotiating;
  rounds = [];
  pay_address = none;
}

abbrev same_currency : Currency → Currency → Bool
same_currency sol sol = true
same_currency usdc usdc = true
same_currency _ _ = false

abbrev or_decimal : Option Decimal → Decimal → Option Decimal
or_decimal none d = some d
or_decimal (some e) d = some e

-- An old session may lack the first offer of its own currency.
unfoldable pub with_initial_offer : Currency → Decimal → NegotiationSession → NegotiationSession
with_initial_offer usdc offer s = record s {
  initial_offer_usdc = or_decimal s.initial_offer_usdc offer;
}
with_initial_offer sol offer s = record s {
  initial_offer_sol = or_decimal s.initial_offer_sol offer;
}

unfoldable pub with_round :
    Env → Currency → Decimal → NegotiationResult → NegotiationSession → NegotiationSession
with_round env currency offer r s = record s {
  rounds =
      s.rounds
      ++ record {
        currency = currency;
        offer = offer;
        counter = r.price_sol;
        status = r.status;
        reason = r.reason;
        ts = env.now;
      }
        ∷ [];
}

abbrev with_final_price : Currency → NegotiationResult → NegotiationSession → NegotiationSession
with_final_price usdc r s = record s {
  status = accepted;
  final_price_usdc = r.price_sol;
  pay_address = r.pay_address;
}
with_final_price sol r s = record s {
  status = accepted;
  final_price_sol = r.price_sol;
  pay_address = r.pay_address;
}

-- An acceptance finalizes the session.
unfoldable pub finalized : Currency → NegotiationResult → NegotiationSession → NegotiationSession
finalized currency r s = elim r.status [ accept ↦ with_final_price currency r s | _ ↦ s ]

-- `session.save()` writes every column of the row with that id.
abbrev pub replace_session : NegotiationSession → List NegotiationSession → List NegotiationSession
replace_session s rows = map (λ x. if x.id == s.id then s else x) rows

unfoldable pub event_type : Status → String
event_type accept = "ACCEPT"
event_type counter_offer = "COUNTER"
event_type reject = "REJECT"
event_type (unknown s) = "REJECT"
