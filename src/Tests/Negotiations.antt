-- ===== src/Tests/Negotiations.antt =====
-- A negotiation at concrete rows.
use veri_proof_hackerton.Prelude.{
  true, none, some, [], ◌≡◌, refl, arith, ◌==◌, if◌then◌else◌, pos, ◌<ℤ◌,
}
use veri_proof_hackerton.Money.{Decimal}
use veri_proof_hackerton.Models.{NegotiationSession, negotiating, sol, usdc, accept, counter_offer}
use veri_proof_hackerton.Negotiation.Engine.{
  Engine, Negotiate, NegotiationResult, run_round, finalize,
}
use veri_proof_hackerton.Negotiation.Engine.Prices.{IsProtected, Returned, run_round-IsProtected}
use veri_proof_hackerton.Negotiation.Engine.Floor.{finalize_undercuts}
use veri_proof_hackerton.Negotiation.View.{Fields, object, Request, ParseDecimal, negotiation_offer}
use veri_proof_hackerton.Negotiation.View.Handler.{negotiate}
use veri_proof_hackerton.Negotiation.View.Handler.Invariant.{IsSound, negotiate-IsSound}
use veri_proof_hackerton.Negotiation.View.Handler.Responses.{Promise, negotiate-Promise}
use veri_proof_hackerton.Tests.{whole, sample_env, parent_asset, empty_world}

-- A model that gives everything away.
abbrev generous : Negotiate
generous min_price target_price offer usage rounds currency = some record {
  status = accept;
  price_sol = some (pos 1);
  reason = "deal";
  pay_address = some "thief";
}

abbrev sample_engine : Engine
sample_engine = record {
  gemini = some generous;
  max_rounds = some 0;
  settings_max_rounds = 3;
  settings_escrow = "escrow";
}

abbrev sample_session : NegotiationSession
sample_session = record {
  id = "session";
  asset = "parent";
  currency = sol;
  buyer_agent_id = "agent";
  usage_type = "commercial";
  initial_offer_usdc = none;
  final_price_usdc = none;
  initial_offer_sol = some (whole 7);
  final_price_sol = none;
  status = negotiating;
  rounds = [];
  pay_address = none;
}

run_round-IsProtected_example :
    Returned
      (IsProtected sample_engine parent_asset (whole 5) (whole 7) sol)
      (run_round sample_engine parent_asset sample_session (whole 7) "commercial" sol)
run_round-IsProtected_example =
    run_round-IsProtected sample_engine parent_asset sample_session (whole 7) "commercial" sol
      (whole 5) (whole 10) refl refl (omega arith)

abbrev parse_seven : ParseDecimal
parse_seven text = if text == "7" then some (whole 7) else none

abbrev sample_fields : Fields
sample_fields = record {
  buyer_agent_id = some "agent";
  offer_sol = some "7";
  offer_usdc = none;
  usage_type = some "commercial";
}

abbrev sample_request : Request
sample_request = record { is_post = true; asset_id = "parent"; body = object sample_fields }

negotiate-IsSound_example :
    IsSound (negotiate sample_env parse_seven generous sample_request empty_world).1
negotiate-IsSound_example =
    negotiate-IsSound sample_env parse_seven generous sample_request empty_world tt

negotiate-Promise_example :
    Promise sample_env generous parent_asset sol
      (whole 5)
      (whole 7)
      empty_world
      (negotiate sample_env parse_seven generous sample_request empty_world)
unfolding negotiation_offer
negotiate-Promise_example =
    negotiate-Promise sample_env parse_seven generous sample_request empty_world parent_asset
      sample_fields sol (whole 5) (whole 7) refl refl refl refl

-- A minimum of 1.0000004 USDC.
finalize_undercuts_example :
    let raw : NegotiationResult = record {
      status = counter_offer;
      price_sol = none;
      reason = "more";
      pay_address = none;
    } in
    (p : Decimal) × ((finalize sample_engine raw parent_asset
        (pos 1000000400000000000)
        (whole 1)
        usdc).price_sol
      ≡ some p)
    × (p <ℤ pos 1000000400000000000)
finalize_undercuts_example =
    finalize_undercuts sample_engine parent_asset 1000000400000000000 (whole 1) "more" (omega arith)
      (omega arith)
