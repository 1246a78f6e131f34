-- ===== src/Royalty/Split.antt =====
-- The shares of `compute_split` of veriproof/services/royalty_service.py.
use veri_proof_hackerton.Prelude.{
  ℕ, ◌+◌, ◌-◌, ◌*◌, ◌/◌, ◌≤◌, ◌<◌, ◌≡◌, ℤ, pos, negsuc, ◌+ℤ◌, ◌-ℤ◌, ◌*ℤ◌, arith, sub_self_cancel,
  ◌∙◌, ap,
}
use veri_proof_hackerton.Money.{Decimal, to_min_units, usdc_of_units, usdc_quantum, half_even}
use veri_proof_hackerton.Royalty.{compute_split}

usdc_of_units-add : (a b : ℤ) → usdc_of_units a +ℤ usdc_of_units b ≡ usdc_of_units (a +ℤ b)
unfolding ◌+ℤ◌
usdc_of_units-add (pos a) (pos b) = ground arith
usdc_of_units-add (pos a) (negsuc b) = ground arith
usdc_of_units-add (negsuc a) (pos b) = ground arith
usdc_of_units-add (negsuc a) (negsuc b) = ground arith

-- The two shares add up to the price in whole micro USDC, whatever the share of the parent is.
pub compute_split_total :
    (price : Decimal) (bps : ℤ)
    → let (original_share, secondary_share) = compute_split price bps in
      original_share +ℤ secondary_share ≡ usdc_of_units (to_min_units price)
unfolding compute_split
compute_split_total price bps =
    usdc_of_units-add _ _ ∙ ap usdc_of_units (sub_self_cancel (to_min_units price) _)

product : (a b : ℕ) → pos a *ℤ pos b ≡ pos (a * b)
unfolding ◌*ℤ◌
product a b = ground arith

difference : (a b : ℕ) → b ≤ a → pos a -ℤ pos b ≡ pos (a - b)
unfolding ◌-ℤ◌
difference a b h = ground arith

share-le : (t b : ℕ) → b ≤ 10000 → t * b / 10000 ≤ t
share-le t b h = grind arith

-- For a price that is not negative and a share of at most 10000 basis points, the parent gets that
-- fraction of the price's micro USDC rounded down, the seller gets the rest, and neither share is
-- negative.
pub compute_split_shares :
    (n b : ℕ)
    → b ≤ 10000
    → let total : ℕ = half_even usdc_quantum n in
      let parent : ℕ = total * b / 10000 in
      (compute_split (pos n) (pos b)
        ≡ (pos (parent * usdc_quantum), pos ((total - parent) * usdc_quantum)))
      × (parent ≤ total)
      × (parent * 10000 ≤ total * b)
      × (total * b < (parent + 1) * 10000)
unfolding compute_split to_min_units
compute_split_shares n b h =
    let total : ℕ = half_even usdc_quantum n in
    let parent : ℕ = total * b / 10000 in
    let bound : parent ≤ total = share-le total b h in
    (rw (product total b, difference total parent bound), bound, omega arith, omega arith)
