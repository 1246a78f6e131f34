-- ===== src/Solana/Verify/Usdc.antt =====
-- What a verified USDC payment of veriproof/services/solana_service.py is evidence of.
use veri_proof_hackerton.Prelude.{Any, ℕ, false, some, ◌⊎◌, ℤ, pos, ◌-ℤ◌, ◌≡◌}
use veri_proof_hackerton.Money.{usdc_to_min_units}
use veri_proof_hackerton.Solana.Evidence.{IsMarked, IsTokenTransfer, token_total, entries_of}
use veri_proof_hackerton.Json.{Fields, get, as_object, truthy}
use veri_proof_hackerton.Solana.{SolanaService, get_transaction, transaction_instructions}
use veri_proof_hackerton.Solana.Verify.{UsdcPayment}

-- What stands on the chain for a USDC payment of these units: the recipient's balance of the mint
-- grew by exactly the units, or an instruction transfers them.
abbrev pub IsPaid : SolanaService → UsdcPayment → Fields → Fields → ℤ → Type 0
IsPaid s p result meta units =
    (token_total s p.mint p.recipient (entries_of (get "postTokenBalances" meta))
        -ℤ token_total s p.mint p.recipient (entries_of (get "preTokenBalances" meta))
      ≡ units)
    ⊎ Any (IsTokenTransfer s p units) (transaction_instructions result)

pub record UsdcEvidence (s : SolanaService) (p : UsdcPayment) : Type 0 where
  pub payload : Fields
  pub result : Fields
  pub meta : Fields
  pub units : ℕ
  pub fetched : get_transaction s p.tx_sig ≡ some payload
  pub found : as_object (get "result" payload) ≡ some result
  pub has_meta : as_object (get "meta" result) ≡ some meta
  pub succeeded : truthy (get "err" meta) ≡ false
  pub memo : IsMarked p.memo (transaction_instructions result)
  pub amount : usdc_to_min_units p.amount ≡ some units
  pub paid : IsPaid s p result meta (pos units)
