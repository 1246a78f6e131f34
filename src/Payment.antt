-- ===== src/Payment.antt =====
-- veriproof/services/_payment.py: who is paid for an asset.
use veri_proof_hackerton.Prelude.{String, Option, none, some}
use veri_proof_hackerton.Models.{IpAsset}

-- An argument that is given goes before the setting.
abbrev pub or_else : Option String → String → String
or_else none d = d
or_else (some s) d = s

-- `settings_escrow` is `settings.PLATFORM_ESCROW_PUBKEY`, read only when no pubkey is passed.
unfoldable pub resolve_pay_to : String → IpAsset → Option String → String
resolve_pay_to settings_escrow asset escrow_pubkey = elim asset.parent_asset_id [
  | none ↦ asset.creator.wallet_address
  | some _ ↦ or_else escrow_pubkey settings_escrow
]
