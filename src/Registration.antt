-- ===== src/Registration.antt =====
-- veriproof/services/registration_service.py: its records and small helpers, with the rows of
-- veriproof/apps/ip/models.py that a registration writes. Pillow, Gemini, the chain, the storage and
-- SHA-256 are parameters; `none` from one of them is an exception.
pub mod Subscription
pub mod Register
pub mod Quiet
pub mod Prepared
pub mod Transaction
pub mod Within
pub mod Audited
pub mod Registered
pub mod Completion
pub mod Preparation
use veri_proof_hackerton.Prelude.{
  ℕ, suc, ◌*◌, ◌+◌, String, Bool, true, false, not, Option, none, some, List, [], ◌∷◌, ◌++◌, map, ℤ,
  pos, ltb_ℤ, leb_ℤ, find, any, length, ◌==◌, ◌&&◌, ◌||◌, if◌then◌else◌, append_text,
}
use veri_proof_hackerton.Money.{Decimal}
use veri_proof_hackerton.Models.{
  IpAsset, Visibility, Value, text, int, null, Payload, World, Creator, asset_by_id,
}
use veri_proof_hackerton.Env.{Env}
use veri_proof_hackerton.Events.{record_event, or_option}
use veri_proof_hackerton.Fingerprint.{manifest_sha256}
use veri_proof_hackerton.Draft.{DraftStore}
use veri_proof_hackerton.Sponsored.{SponsoredPaymentIntent}
use veri_proof_hackerton.Flow.{
  Fault, rejected, raised, Flow, Result, done, failed, pure, raise, from_option, ◌>>=◌, ◌>>◌,
  rescue,
}

pub record AssetComponent : Type 0 where
  pub asset : String
  pub file_name : String
  pub content_mime_type : String
  pub content_sha256 : String
  pub storage_url : String

pub record AssetImage : Type 0 where
  pub id : String
  pub asset : String
  pub position : ℕ
  pub file_name : String
  pub content_mime_type : String
  pub content_sha256 : String
  pub watermark_url : String
  pub original_url : String

-- A subscription with the two columns of its plan that are read.
pub record CreatorSubscription : Type 0 where
  pub id : ℕ
  pub creator : String
  pub plan_is_active : Bool
  pub included_registrations : ℕ
  pub is_active : Bool
  pub period_start : ℕ
  pub period_end : ℕ
  pub registrations_used : ℕ

pub record RegistrationCharge : Type 0 where
  pub subscription : ℕ
  pub asset : String

-- The tables that registering and managing works touch; `drafts` holds the creators' wallets too.
pub record Office : Type 0 where
  pub world : World
  pub drafts : DraftStore
  pub images : List AssetImage
  pub components : List AssetComponent
  pub subscriptions : List CreatorSubscription
  pub charges : List RegistrationCharge
  pub intents : List SponsoredPaymentIntent

-- An uploaded file: its name, its type, its size, and what `read` returns.
pub record Upload : Type 0 where
  pub name : String
  pub content_type : String
  pub size : ℕ
  pub content : String

pub record RegistrationMetadata : Type 0 where
  pub creator_wallet : String
  pub asset_type : String
  pub visibility : Visibility
  pub min_price : Decimal
  pub target_price : Decimal
  pub title : Option String
  pub description : Option String
  pub parent_asset_id : Option String
  pub royalty_share_bps : Option ℤ
  pub tags : List String
  pub category : Option String

pub record AnalysisResult : Type 0 where
  pub tags : List String
  pub category : Option String
  pub originality_score : Option ℤ
  pub recommended_min_price_usdc : Decimal
  pub description : Option String

pub record RegistrationOutcome : Type 0 where
  pub asset : IpAsset
  pub analysis : AnalysisResult

-- The adapters, by what they answer. `anchor_hash` takes the hash, the wallet and the signer's key;
-- `issue_registration_certificate` takes the asset before them. `insert_asset` says whether the
-- database accepts the row.
pub record RegistrationService : Type 0 where
  pub env : Env
  pub make_thumbnail : String → Option String
  pub make_watermark : String → Option String
  pub perceptual_hash : String → Option String
  pub analyze_asset : String → String → Option AnalysisResult
  pub anchor_hash : String → String → String → Option String
  pub issue_registration_certificate : String → String → String → String → Option String
  pub save_permanent : String → String → String → Option String
  pub save_temporary : String → String → ℕ → String → Option String
  pub sha256 : String → String
  pub insert_asset : IpAsset → Bool
  pub has_subscription : Bool
  pub x402_network : String
  pub original_retention_days : ℕ

abbrev pub llm_analyzable_mimes : List String
llm_analyzable_mimes =
    "image/png" ∷ "image/jpeg" ∷ "image/webp" ∷ "application/pdf" ∷ "text/plain" ∷ "audio/mpeg"
    ∷ "audio/wav" ∷ "audio/x-wav" ∷ "video/mp4" ∷ "video/webm" ∷ []

abbrev pub is_image : RegistrationMetadata → Bool
is_image metadata = metadata.asset_type == "image"

abbrev pub or_null : Option String → Value
or_null none = null
or_null (some t) = text t

-- `_work_manifest_hash`
abbrev pub work_manifest_hash : (String → String) → Upload → List Upload → String
work_manifest_hash sha256 upload gallery =
    manifest_sha256 sha256 (map sha256 (upload.content ∷ map (λ u. u.content) gallery))

abbrev pub asset_by_hash : String → World → Option IpAsset
asset_by_hash hash w = find (λ a. a.image_sha256 == hash) w.assets

abbrev pub is_royalty_share : Option ℤ → Bool
is_royalty_share none = false
is_royalty_share (some bps) = leb_ℤ (pos 1) bps && leb_ℤ bps (pos 10000)

abbrev pub content_type_or : String → String → String
content_type_or fallback mime = if mime == "" then fallback else mime

-- What `_prepare_artifacts` returns.
pub record Artifacts : Type 0 where
  pub analysis : AnalysisResult
  pub thumbnail : Option String
  pub watermark : Option String

-- `event_context` and the title, which every event of a registration holds.
pub record Trail : Type 0 where
  pub asset_id : String
  pub account_owner : Option String
  pub title : Option String

-- After an event, or after the exception of its insert.
abbrev pub written : Office → Option World → Result (Unit {0}) × Office
written o none = (failed raised, o)
written o (some w) = (done tt, record o { world = w })

abbrev pub checked_parent : RegistrationMetadata → Option IpAsset → Flow Office (Option IpAsset)
checked_parent metadata none = raise (rejected "parent_not_found" 404)
checked_parent metadata (some parent) =
    if is_royalty_share metadata.royalty_share_bps
    then pure (some parent)
    else raise (rejected "invalid_royalty_share" 400)

unfoldable pub parent_by_id : RegistrationMetadata → String → Flow Office (Option IpAsset)
unfolding pure raise
parent_by_id metadata id o = checked_parent metadata (asset_by_id id o.world) o

-- `IpAsset.objects.get(id=parent_asset_id)`; for a text that is no UUID it raises Django's
-- ValidationError, which is none of the three that are caught.
abbrev pub with_parent : RegistrationMetadata → Option String → Flow Office (Option IpAsset)
with_parent metadata none = raise raised
with_parent metadata (some id) = parent_by_id metadata id
