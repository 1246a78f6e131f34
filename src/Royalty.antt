-- ===== src/Royalty.antt =====
-- veriproof/services/royalty_service.py: splitting a license's price with the parent's creator.
-- The escrow's transfer is a parameter: it sees the transfers so far, and `none` is an exception.
-- The nested `legs` dictionary of the event is written with dotted keys.
pub mod Split
pub mod Legs
pub mod Ledger
pub mod Distribute
use veri_proof_hackerton.Prelude.{
  ℕ, suc, String, Bool, true, false, Option, none, some, List, [], ◌∷◌, ◌++◌, find, ◌==◌, ◌&&◌,
  ◌+ℤ◌, ◌-ℤ◌, ◌*ℤ◌, ℤ, pos, floor_div, if◌then◌else◌, append_text, map,
}
use veri_proof_hackerton.Money.{Decimal, to_min_units, usdc_of_units, quantize_usdc}
use veri_proof_hackerton.Models.{
  IpAsset, License, RoyaltyDistribution, Role, original, secondary, LegStatus, pending, settled,
  failed, Payload, Value, text, money, int, null, World, Transfer, asset_by_id,
}
use veri_proof_hackerton.Env.{Env}
use veri_proof_hackerton.Events.{try_record_event}

-- `compute_split`
unfoldable pub compute_split : Decimal → ℤ → Decimal × Decimal
compute_split price bps =
    let total_min : ℤ = to_min_units price in
    let original_min : ℤ = floor_div (total_min *ℤ bps) 10000 in
    (usdc_of_units original_min, usdc_of_units (total_min -ℤ original_min))

-- `SolanaService.transfer_usdc(wallet, amount)`
abbrev pub TransferUsdc : Type 0
TransferUsdc = List Transfer → String → Decimal → Option String

pub record Leg : Type 0 where
  pub role : Role
  pub wallet : String
  pub amount : Decimal

-- One transfer to a creator who sells a derivative of his own work, otherwise two.
unfoldable pub legs_of : String → String → Decimal → ℤ → List Leg
legs_of original_wallet secondary_wallet price bps =
    let (original_share, secondary_share) = compute_split price bps in
    if original_wallet == secondary_wallet
    then record {
      role = secondary;
      wallet = secondary_wallet;
      amount = original_share +ℤ secondary_share;
    }
      ∷ []
    else record { role = original; wallet = original_wallet; amount = original_share }
      ∷ record { role = secondary; wallet = secondary_wallet; amount = secondary_share }
      ∷ []

abbrev pub same_role : Role → Role → Bool
same_role original original = true
same_role secondary secondary = true
same_role _ _ = false

abbrev pub is_settled : LegStatus → Bool
is_settled settled = true
is_settled _ = false

abbrev pub is_settled_for : License → Role → RoyaltyDistribution → Bool
is_settled_for license role d =
    d.license == license.id && same_role d.role role && is_settled d.status

abbrev status_of : Option String → LegStatus
status_of none = failed
status_of (some _) = settled

unfoldable pub new_distribution : License → Leg → Option String → RoyaltyDistribution
new_distribution license leg signature = record {
  license = license.id;
  recipient_wallet = leg.wallet;
  role = leg.role;
  amount_usdc = leg.amount;
  transfer_tx_sig = signature;
  status = status_of signature;
}

-- A service without a backend fails the leg without a call.
abbrev attempt : Option TransferUsdc → License → Leg → World → RoyaltyDistribution × World
attempt none license leg w =
    let rec : RoyaltyDistribution = new_distribution license leg none in
    (rec, record w { distributions = w.distributions ++ rec ∷ [] })
attempt (some transfer) license leg w =
    let signature : Option String = transfer w.transfers leg.wallet leg.amount in
    let rec : RoyaltyDistribution = new_distribution license leg signature in
    (
      rec,
      record w {
        distributions = w.distributions ++ rec ∷ [];
        transfers =
            w.transfers
            ++ record { to_pubkey = leg.wallet; amount = leg.amount; signature = signature } ∷ [];
      },
    )

abbrev settle_found :
    Option TransferUsdc
    → License
    → Leg
    → World
    → Option RoyaltyDistribution
    → RoyaltyDistribution × World
settle_found solana license leg w (some existing) = (existing, w)
settle_found solana license leg w none = attempt solana license leg w

-- `_settle_leg`: a leg that is settled is not transferred again.
unfoldable pub settle_leg :
    Option TransferUsdc → License → Leg → World → RoyaltyDistribution × World
unfolding new_distribution
settle_leg solana license leg w =
    settle_found solana license leg w (find (is_settled_for license leg.role) w.distributions)

unfoldable pub settle_legs :
    Option TransferUsdc → License → List Leg → World → List RoyaltyDistribution × World
settle_legs solana license [] w = ([], w)
settle_legs solana license (leg ∷ legs) w =
    let (rec, w') = settle_leg solana license leg w in
    let (recs, w'') = settle_legs solana license legs w' in (rec ∷ recs, w'')

abbrev role_text : Role → String
role_text original = "original"
role_text secondary = "secondary"

abbrev status_text : LegStatus → String
status_text pending = "pending"
status_text settled = "settled"
status_text failed = "failed"

abbrev text_or_null : Option String → Value
text_or_null none = null
text_or_null (some s) = text s

abbrev leg_key : Role → String → String
leg_key role name = append_text "legs." (append_text (role_text role) (append_text "." name))

-- `zip(legs, records)`
unfoldable pub leg_summary : List Leg → List RoyaltyDistribution → Payload
leg_summary (leg ∷ legs) (rec ∷ recs) =
    (leg_key leg.role "recipient_wallet", text leg.wallet)
    ∷ (leg_key leg.role "amount_usdc", money leg.amount)
    ∷ (leg_key leg.role "transfer_tx_sig", text_or_null rec.transfer_tx_sig)
    ∷ (leg_key leg.role "status", text (status_text rec.status))
    ∷ leg_summary legs recs
leg_summary [] _ = []
leg_summary (_ ∷ _) [] = []

abbrev text_or_blank : Option String → Value
text_or_blank none = text ""
text_or_blank (some s) = text s

unfoldable pub record_royalty_split :
    Env → License → IpAsset → ℤ → Decimal → List Leg → List RoyaltyDistribution → World → World
unfolding leg_summary
record_royalty_split env license asset bps total legs recs w =
    try_record_event env "ROYALTY_SPLIT"
      (("asset_id", text asset.id)
        ∷ ("license_id", text license.id)
        ∷ ("parent_asset_id", text_or_blank asset.parent_asset_id)
        ∷ ("royalty_share_bps", int bps)
        ∷ ("total_usdc", money (usdc_of_units (to_min_units total)))
        ∷ leg_summary legs recs)
      (some asset) none w

abbrev or_zero : Option ℤ → ℤ
or_zero none = pos 0
or_zero (some n) = n

abbrev or_target : Option Decimal → Option Decimal → Option Decimal
or_target none target = target
or_target (some p) target = some p

abbrev parent_of : IpAsset → World → Option IpAsset
parent_of asset w = elim asset.parent_asset_id [ none ↦ none | some id ↦ asset_by_id id w ]

abbrev distribute_priced :
    Env
    → Option TransferUsdc
    → License
    → IpAsset
    → World
    → Option Decimal
    → Option IpAsset
    → Option (List RoyaltyDistribution × World)
distribute_priced env solana license asset w none parent = none
distribute_priced env solana license asset w (some price) none = none
distribute_priced env solana license asset w (some price) (some parent) =
    let bps : ℤ = or_zero asset.royalty_share_bps in
    let legs : List Leg =
      legs_of parent.creator.wallet_address asset.creator.wallet_address price bps in
    let (recs, w') = settle_legs solana license legs w in
    some (recs, record_royalty_split env license asset bps price legs recs w')

-- `distribute`: it raises without a price in USDC, and without a parent.
unfoldable pub distribute :
    Env
    → Option TransferUsdc
    → License
    → IpAsset
    → World
    → Option (List RoyaltyDistribution × World)
unfolding legs_of settle_legs record_royalty_split
distribute env solana license asset w =
    distribute_priced env solana license asset w
      (or_target license.price_usdc asset.target_price_usdc) (parent_of asset w)
