-- ===== src/Money/Rounding.antt =====
-- What the roundings of `Money` promise.
use veri_proof_hackerton.Prelude.{
  ℕ, ◌+◌, ◌*◌, ◌≤◌, ◌<◌, ◌≡◌, refl, some, ℤ, pos, negsuc, ◌≤ℤ◌, arith, ◌↔◌,
}
use veri_proof_hackerton.Money.{
  Decimal, quantize_usdc, quantize_sol, usdc_quantum, to_min_units, from_min_units, half_up,
  to_atomic_usdc,
}

pub quantize_usdc_mono : (a b : Decimal) → a ≤ℤ b → quantize_usdc a ≤ℤ quantize_usdc b
unfolding quantize_usdc
quantize_usdc_mono (pos m) (pos n) h = omega arith
quantize_usdc_mono (pos m) (negsuc n) h = absurd (omega arith)
quantize_usdc_mono (negsuc m) (pos n) h = ground arith
quantize_usdc_mono (negsuc m) (negsuc n) h = ground arith

pub quantize_sol_mono : (a b : Decimal) → a ≤ℤ b → quantize_sol a ≤ℤ quantize_sol b
unfolding quantize_sol
quantize_sol_mono (pos m) (pos n) h = omega arith
quantize_sol_mono (pos m) (negsuc n) h = absurd (omega arith)
quantize_sol_mono (negsuc m) (pos n) h = ground arith
quantize_sol_mono (negsuc m) (negsuc n) h = ground arith

-- The result is a whole number of micro USDC, and is at most half of one away from the amount.
pub quantize_usdc_nearest :
    (n : ℕ)
    → (r : ℕ) × (quantize_usdc (pos n) ≡ pos (r * usdc_quantum))
      × (2 * (r * usdc_quantum) ≤ 2 * n + usdc_quantum)
      × (2 * n < 2 * (r * usdc_quantum) + usdc_quantum)
unfolding quantize_usdc
quantize_usdc_nearest n = (half_up usdc_quantum n, refl, omega arith, omega arith)

-- Turning minimum units into an amount and back gives the same units.
pub to_min_units-from_min_units : (u : ℤ) → to_min_units (from_min_units u) ≡ u
unfolding to_min_units from_min_units
to_min_units-from_min_units (pos n) = ground arith
to_min_units-from_min_units (negsuc n) = ground arith

-- An atomic amount is accepted exactly when it is positive and a whole number of micro USDC, and
-- then it is that number.
pub to_atomic_usdc_iff :
    (a : Decimal) (u : ℕ) → (to_atomic_usdc a ≡ some u) ↔ ((0 < u) × (a ≡ pos (u * usdc_quantum)))
unfolding to_atomic_usdc
to_atomic_usdc_iff (pos n) u = (λ h. ground arith, λ h. ground arith)
to_atomic_usdc_iff (negsuc n) u = (λ h. ground arith, λ h. ground arith)
