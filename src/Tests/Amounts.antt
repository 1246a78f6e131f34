-- ===== src/Tests/Amounts.antt =====
-- Amounts and shares at concrete values.
use veri_proof_hackerton.Prelude.{ℕ, ◌+◌, ◌-◌, ◌*◌, ◌/◌, ◌≤◌, ◌<◌, ◌≡◌, pos, arith}
use veri_proof_hackerton.Money.{half_even, usdc_quantum}
use veri_proof_hackerton.Royalty.{compute_split}
use veri_proof_hackerton.Royalty.Split.{compute_split_shares}

compute_split_shares_example :
    let total : ℕ = half_even usdc_quantum 1000001000000000000 in
    let parent : ℕ = total * 1500 / 10000 in
    (compute_split (pos 1000001000000000000) (pos 1500)
      ≡ (pos (parent * usdc_quantum), pos ((total - parent) * usdc_quantum)))
    × (parent ≤ total)
    × (parent * 10000 ≤ total * 1500)
    × (total * 1500 < (parent + 1) * 10000)
compute_split_shares_example = compute_split_shares 1000001000000000000 1500 (omega arith)
