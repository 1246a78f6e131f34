-- ===== src/Money.antt =====
-- Decimal amounts and their roundings: services/_types.py (quantize_usdc, quantize_sol), the
-- min-unit conversions of services/royalty_service.py and apps/settlement/batch_services.py, and
-- the atomic conversions of services/solana_service.py, services/x402_protocol_service.py and
-- services/sponsored_payment_service.py (all under veriproof/).
-- A finite `decimal.Decimal` is an integer number of steps of 10^-18. The stored amounts have six
-- or nine decimal places, so this is exact for them, and for every input of at most eighteen.
pub mod Rounding
use veri_proof_hackerton.Prelude.{
  ℕ, zero, suc, ◌+◌, ◌*◌, ◌/◌, ◌%◌, Bool, true, Option, none, some, ℤ, pos, negsuc, pos_part, neg_ℕ,
  ◌*ℤ◌, floor_div, leb_ℤ, ltb, nat_eq, ◌&&◌, ◌||◌, if◌then◌else◌, ◌^◌,
}

abbrev pub Decimal : Type 0
Decimal = ℤ

-- Steps in one micro USDC (six decimals), and in one lamport (nine decimals).
abbrev pub usdc_quantum : ℕ
usdc_quantum = 1_000_000_000_000

abbrev pub sol_quantum : ℕ
sol_quantum = 1_000_000_000

-- Rounding acts on the magnitude: `ROUND_HALF_UP`, `ROUND_HALF_EVEN` and `ROUND_DOWN` ignore signs.
abbrev pub on_magnitude : (ℕ → ℕ) → ℤ → ℤ
on_magnitude f (pos n) = pos (f n)
on_magnitude f (negsuc n) = neg_ℕ (f (suc n))

-- The whole number of quanta that is nearest, a tie going away from zero.
abbrev pub half_up : ℕ → ℕ → ℕ
half_up q n = (n + q / 2) / q

-- The same, a tie going to the even number.
abbrev pub half_even : ℕ → ℕ → ℕ
half_even q n =
    let rest : ℕ = 2 * (n % q) in
    let low : ℕ = n / q in
    if ltb rest q
    then low
    else if ltb q rest
    then low + 1
    else if nat_eq (low % 2) 0
    then low
    else low + 1

unfoldable pub quantize_usdc : Decimal → Decimal
quantize_usdc = on_magnitude λ n. half_up usdc_quantum n * usdc_quantum

unfoldable pub quantize_sol : Decimal → Decimal
quantize_sol = on_magnitude λ n. half_up sol_quantum n * sol_quantum

-- `int((amount * 10**6).to_integral_value(ROUND_HALF_EVEN))`
unfoldable pub to_min_units : Decimal → ℤ
to_min_units = on_magnitude (half_even usdc_quantum)

-- `(Decimal(units) / 10**6).quantize(10**-6)` is exact for every integer.
abbrev pub usdc_of_units : ℤ → Decimal
usdc_of_units = on_magnitude (λ n. n * usdc_quantum)

-- `Decimal(units) / 10**6`: six decimals at most, so the quantizing that follows changes nothing.
unfoldable pub from_min_units : ℤ → Decimal
unfolding quantize_usdc
from_min_units units = quantize_usdc (usdc_of_units units)

-- `_usdc_to_min_units` and `_amount_to_lamports`: positive and at least one unit, rounded down.
-- `none` stands for the `CertificateIssueError`.
abbrev down_to_units : ℕ → Decimal → Option ℕ
down_to_units q amount =
    if leb_ℤ amount (pos 0)
    then none
    else if nat_eq (pos_part amount / q) 0
    then none
    else some (pos_part amount / q)

unfoldable pub usdc_to_min_units : Decimal → Option ℕ
usdc_to_min_units = down_to_units usdc_quantum

unfoldable pub amount_to_lamports : Decimal → Option ℕ
amount_to_lamports = down_to_units sol_quantum

-- `_to_atomic_usdc` and `_to_atomic_units`: positive, and a whole number of micro USDC.
-- `none` stands for the error that the caller raises.
unfoldable pub to_atomic_usdc : Decimal → Option ℕ
to_atomic_usdc amount =
    if leb_ℤ amount (pos 0) || not_whole (pos_part amount)
    then none
    else some (pos_part amount / usdc_quantum)
  where
    not_whole : ℕ → Bool
    not_whole n = ltb 0 (n % usdc_quantum)
