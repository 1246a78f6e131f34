-- ===== src/Negotiation/Engine.antt =====
-- veriproof/services/negotiation_engine.py: one negotiation round.
-- Gemini is a parameter: `none` where no model is configured, and otherwise a function that answers
-- or raises.
pub mod Prices
pub mod Floor
use veri_proof_hackerton.Prelude.{
  ℕ, String, Bool, true, false, not, Option, none, some, List, leb, leb_ℤ, ltb_ℤ, length, ◌&&◌,
  if◌then◌else◌,
}
use veri_proof_hackerton.Money.{Decimal, quantize_usdc, quantize_sol}
use veri_proof_hackerton.Models.{
  IpAsset, NegotiationSession, Round, Currency, sol, usdc, Status, accept, counter_offer, reject,
  unknown,
}
use veri_proof_hackerton.Payment.{resolve_pay_to}

-- services/_types.py, `NegotiationResult`
pub record NegotiationResult : Type 0 where
  pub status : Status
  pub price_sol : Option Decimal
  pub reason : String
  pub pay_address : Option String

-- What `run_round` returns or raises: `ValueError` for an asset without prices, and
-- `NegotiationUnavailableError`.
pub data RoundResult : Type 0 where
  ok : NegotiationResult → RoundResult
  not_configured unavailable : RoundResult

-- `gemini.negotiate`, by its arguments: the two prices, the offer, the usage, the rounds so far and
-- the currency. `none` is an exception.
abbrev pub Negotiate : Type 0
Negotiate = Decimal → Decimal → Decimal → String → List Round → Currency → Option NegotiationResult

-- `NegotiationEngine`, with the two settings that it reads.
pub record Engine : Type 0 where
  pub gemini : Option Negotiate
  pub max_rounds : Option ℕ
  pub settings_max_rounds : ℕ
  pub settings_escrow : String

unfoldable pub resolve_max_rounds : Engine → ℕ
resolve_max_rounds e = elim e.max_rounds [ none ↦ e.settings_max_rounds | some n ↦ n ]

unfoldable pub quantize_price : Currency → Decimal → Decimal
quantize_price usdc price = quantize_usdc price
quantize_price sol price = quantize_sol price

-- `if price is None or price < min_price: price = min_price`
unfoldable pub clamp_up : Option Decimal → Decimal → Decimal
clamp_up none min_price = min_price
clamp_up (some price) min_price = if ltb_ℤ price min_price then min_price else price

abbrev pub quantize_optional : Currency → Option Decimal → Option Decimal
quantize_optional c none = none
quantize_optional c (some p) = some (quantize_price c p)

abbrev result : Currency → Status → Option Decimal → String → Option String → NegotiationResult
result c status price reason pay = record {
  status = status;
  price_sol = quantize_optional c price;
  reason = reason;
  pay_address = pay;
}

-- `_finalize`, by the status of the model's answer.
unfoldable pub finalize :
    Engine → NegotiationResult → IpAsset → Decimal → Decimal → Currency → NegotiationResult
unfolding clamp_up
finalize e raw asset min_price buyer_offer currency = elim raw.status [
  | accept ↦
      let price = clamp_up raw.price_sol min_price in
      if ltb_ℤ buyer_offer price
      then result currency counter_offer (some price) "판매자가 더 높은 가격을 제안했습니다." none
      else result currency accept (some price) raw.reason
          (some (resolve_pay_to e.settings_escrow asset none))
  | counter_offer ↦
      result currency counter_offer (some (clamp_up raw.price_sol min_price)) raw.reason none
  | other ↦ result currency other raw.price_sol raw.reason none
]

abbrev pub accept_list_price : Engine → IpAsset → Decimal → Currency → NegotiationResult
accept_list_price e asset target_price currency =
    result currency accept (some target_price) "공개 원가 제안을 수락합니다."
      (some (resolve_pay_to e.settings_escrow asset none))

abbrev pub reject_max_rounds : NegotiationResult
reject_max_rounds = record {
  status = reject;
  price_sol = none;
  reason = "max rounds exceeded";
  pay_address = none;
}

abbrev pub ask_model :
    Engine → IpAsset → Decimal → Decimal → Decimal → String → List Round → Currency → RoundResult
ask_model e asset min_price target_price offer usage rounds currency = elim e.gemini [
  | none ↦ unavailable
  | some negotiate ↦ elim (negotiate min_price target_price offer usage rounds currency) [
    | none ↦ unavailable
    | some raw ↦ ok (finalize e raw asset min_price offer currency)
  ]
]

-- The round with both prices configured.
unfoldable pub run_priced_round :
    Engine → IpAsset → Decimal → Decimal → Decimal → String → List Round → Currency → RoundResult
unfolding resolve_max_rounds
run_priced_round e asset min_price target_price offer usage rounds currency =
    if leb_ℤ target_price offer
    then ok (accept_list_price e asset target_price currency)
    else if not (leb_ℤ min_price offer) && leb (resolve_max_rounds e) (length rounds)
    then ok reject_max_rounds
    else ask_model e asset min_price target_price offer usage rounds currency

unfoldable pub run_round :
    Engine → IpAsset → NegotiationSession → Decimal → String → Currency → RoundResult
unfolding run_priced_round
run_round e asset session offer usage currency = elim asset.min_amount [
  | none ↦ not_configured
  | some min_price ↦ elim asset.target_amount [
    | none ↦ not_configured
    | some target_price ↦
        run_priced_round e asset min_price target_price offer usage session.rounds currency
  ]
]
