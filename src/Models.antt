-- ===== src/Models.antt =====
-- The rows that the services read and write: veriproof/apps/ip/models.py (`Creator`, `IpAsset`),
-- apps/negotiation/models.py, apps/settlement/models.py and apps/common/models.py, and the
-- database of one deployment as one record. Ids are texts (printed UUIDs); a foreign key holds the
-- id of its row. Columns that no modelled code reads are left out.
use veri_proof_hackerton.Prelude.{ℕ, String, Bool, Option, List, ℤ, find, ◌==◌}
use veri_proof_hackerton.Money.{Decimal}

pub record Creator : Type 0 where
  pub wallet_address : String

pub data Visibility : Type 0 where
  private public : Visibility

pub data AssetStatus : Type 0 where
  draft anchored listed retired : AssetStatus

pub record IpAsset : Type 0 where
  pub id : String
  pub creator : Creator
  pub account_owner : Option String
  pub title : Option String
  pub content_mime_type : Option String
  pub min_price_usdc : Option Decimal
  pub target_price_usdc : Option Decimal
  pub target_amount : Option Decimal
  pub min_amount : Option Decimal
  pub image_sha256 : String
  pub original_purged : Bool
  pub parent_asset_id : Option String
  pub royalty_share_bps : Option ℤ
  pub visibility : Visibility
  pub status : AssetStatus
  pub registration_certificate_tx_sig : Option String
  pub currency : String
  pub description : Option String
  pub ai_description : Option String
  pub asset_type : String
  pub tags : List String
  pub ai_tags : List String
  pub category : Option String
  pub originality_score : Option ℤ
  pub perceptual_hash : Option String
  pub thumbnail_url : Option String
  pub watermark_url : Option String
  pub original_url : Option String
  pub original_expires_at : Option ℕ
  pub anchor_tx_sig : Option String

-- `currency` and the status columns are texts with a fixed list of choices.
pub data Currency : Type 0 where
  sol usdc : Currency

pub data SessionStatus : Type 0 where
  negotiating accepted rejected expired : SessionStatus

-- What Gemini and the engine answer; `unknown` is any other text.
pub data Status : Type 0 where
  accept counter_offer reject : Status
  unknown : String → Status

-- One entry of the `rounds` log. Its two amounts stand under keys that name the currency.
pub record Round : Type 0 where
  pub currency : Currency
  pub offer : Decimal
  pub counter : Option Decimal
  pub status : Status
  pub reason : String
  pub ts : ℕ

pub record NegotiationSession : Type 0 where
  pub id : String
  pub asset : String
  pub currency : Currency
  pub buyer_agent_id : String
  pub usage_type : String
  pub initial_offer_usdc : Option Decimal
  pub final_price_usdc : Option Decimal
  pub initial_offer_sol : Option Decimal
  pub final_price_sol : Option Decimal
  pub status : SessionStatus
  pub rounds : List Round
  pub pay_address : Option String

pub record License : Type 0 where
  pub id : String
  pub asset : String
  pub buyer_user : Option String
  pub session : Option String
  pub buyer_wallet : String
  pub price_usdc : Option Decimal
  pub price_sol : Option Decimal
  pub payment_currency : String
  pub usage_type : String
  pub payment_tx_sig : String
  pub certificate_tx_sig : Option String
  pub download_token : Option String
  pub download_expires_at : Option ℕ

pub data Role : Type 0 where
  original secondary : Role

pub data LegStatus : Type 0 where
  pending settled failed : LegStatus

pub record RoyaltyDistribution : Type 0 where
  pub license : String
  pub recipient_wallet : String
  pub role : Role
  pub amount_usdc : Decimal
  pub transfer_tx_sig : Option String
  pub status : LegStatus

pub data OrderStatus : Type 0 where
  quoted paid settled partial failed : OrderStatus

pub record BatchOrder : Type 0 where
  pub id : String
  pub buyer_agent_id : String
  pub total_usdc : Decimal
  pub status : OrderStatus
  pub payment_tx_sig : Option String

pub record BatchItem : Type 0 where
  pub id : String
  pub order : String
  pub asset : IpAsset
  pub unit_price_usdc : Decimal
  pub license : Option String

-- A value in a payload: a text, `str` of an amount, an integer, an instant's `isoformat()`, or JSON's
-- null.
pub data Value : Type 0 where
  text : String → Value
  money : Decimal → Value
  int : ℤ → Value
  instant : ℕ → Value
  null : Value

abbrev pub Payload : Type 0
Payload = List (String × Value)

pub record AgentEvent : Type 0 where
  pub id : String
  pub type : String
  pub payload : Payload
  pub asset : Option String
  pub session : Option String
  pub account_owner : Option String
  pub correlation_id : Option String

-- What `FirestoreMirror.set` and `BigQuerySink.insert` are given: flat values, or an event with its
-- payload and the id of its asset.
pub data Document : Type 0 where
  values : Payload → Document
  event_copy : AgentEvent → Option String → Document

pub record MirrorWrite : Type 0 where
  pub collection : String
  pub doc_id : String
  pub document : Document

pub record AuditRow : Type 0 where
  pub table : String
  pub row : Document

-- One call of `transfer_usdc`, with the signature that came back, if one did.
pub record Transfer : Type 0 where
  pub to_pubkey : String
  pub amount : Decimal
  pub signature : Option String

-- `draws` counts what was taken from the sources of randomness.
pub record World : Type 0 where
  pub assets : List IpAsset
  pub sessions : List NegotiationSession
  pub licenses : List License
  pub distributions : List RoyaltyDistribution
  pub orders : List BatchOrder
  pub items : List BatchItem
  pub events : List AgentEvent
  pub mirror : List MirrorWrite
  pub audit : List AuditRow
  pub transfers : List Transfer
  pub draws : ℕ

-- `IpAsset.objects.filter(id=asset_id).first()`
abbrev pub asset_by_id : String → World → Option IpAsset
asset_by_id asset_id w = find (λ a. a.id == asset_id) w.assets
