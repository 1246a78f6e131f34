-- ===== src/Negotiation/Engine/Floor.antt =====
-- Where the rounding of veriproof/services/negotiation_engine.py moves a price under the seller's
-- minimum.
use veri_proof_hackerton.Prelude.{ℕ, String, none, some, ◌≡◌, refl, ◌*◌, ◌%◌, ◌<◌, ◌<ℤ◌, pos, arith}
use veri_proof_hackerton.Money.{Decimal, quantize_usdc, usdc_quantum, half_up}
use veri_proof_hackerton.Models.{IpAsset, usdc, counter_offer}
use veri_proof_hackerton.Negotiation.Engine.{
  NegotiationResult, Engine, clamp_up, quantize_price, finalize,
}

-- In USDC the floor itself is rounded: where the minimum has a remainder of less than half a micro
-- USDC, a counter offer whose price the model left out is below the minimum.
pub finalize_undercuts :
    (e : Engine) (asset : IpAsset) (n : ℕ) (offer : Decimal) (reason : String)
    → 0 < n % usdc_quantum
    → 2 * (n % usdc_quantum) < usdc_quantum
    → let raw : NegotiationResult = record {
      status = counter_offer;
      price_sol = none;
      reason = reason;
      pay_address = none;
    } in
      (p : Decimal) × ((finalize e raw asset (pos n) offer usdc).price_sol ≡ some p) × (p <ℤ pos n)
unfolding finalize clamp_up quantize_price quantize_usdc
finalize_undercuts e asset n offer reason h1 h2 =
    (pos (half_up usdc_quantum n * usdc_quantum), refl, omega arith)
