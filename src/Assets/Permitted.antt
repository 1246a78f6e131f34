-- ===== src/Assets/Permitted.antt =====
-- Who may change the terms of a work, and to what, by `update_asset_terms` of
-- veriproof/apps/ip/views_api.py.
use veri_proof_hackerton.Prelude.{◌≤◌, String, true, Option, some, ◌≡◌, ◌≢◌, Any, pos, leb_ℤ, ltb_ℤ}
use veri_proof_hackerton.Models.{IpAsset, Visibility, private, public}
use veri_proof_hackerton.Json.{Json, Fields, get, as_object}
use veri_proof_hackerton.Registration.{Office}
use veri_proof_hackerton.Assets.{Desk, Price, TermsReply, updated, error, crashed, parse_json_money}
use veri_proof_hackerton.Assets.Update.{body_json}

-- A public work has the signature of its registration certificate.
abbrev pub IsCertified : Visibility → Option String → Type 0
IsCertified private certificate = Unit
IsCertified public certificate = (tx : String) × (certificate ≡ some tx) × (tx ≢ "")

pub record IsPermitted (desk : Desk) (user : Option String) (raw_body asset_id : String)
    (before after : Office) (row : IpAsset) : Type 0 where
  pub account : String
  pub by_account : user ≡ some account
  pub asset : IpAsset
  pub stored : Any (λ a. a ≡ asset) before.world.assets
  pub named : asset.id ≡ asset_id
  pub own : asset.account_owner ≡ some account
  pub json : Json
  pub fields : Fields
  pub body : body_json desk raw_body ≡ some json
  pub object : as_object json ≡ some fields
  pub minimum : Price
  pub target : Price
  pub asked_minimum : parse_json_money desk (get "min_amount" fields) ≡ some minimum
  pub asked_target : parse_json_money desk (get "target_amount" fields) ≡ some target
  pub not_negative : leb_ℤ (pos 0) minimum.amount ≡ true
  pub above_zero : ltb_ℤ (pos 0) target.amount ≡ true
  pub ordered : leb_ℤ minimum.amount target.amount ≡ true
  pub short : (minimum.places ≤ 9) × (target.places ≤ 9)
  pub priced : (row.min_amount ≡ some minimum.amount) × (row.target_amount ≡ some target.amount)
  pub certified : IsCertified row.visibility row.registration_certificate_tx_sig
  pub unmoved : (row.id ≡ asset.id) × (row.account_owner ≡ asset.account_owner)
  pub written : Any (λ a. a ≡ row) after.world.assets

-- What an answer allows.
abbrev pub Permits : Desk → Option String → String → String → Office → TermsReply × Office → Type 0
Permits desk user raw_body asset_id before (updated row, after) =
    IsPermitted desk user raw_body asset_id before after row
Permits desk user raw_body asset_id before (error f, after) = after ≡ before
Permits desk user raw_body asset_id before (crashed, after) = after ≡ before
