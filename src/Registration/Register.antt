-- ===== src/Registration/Register.antt =====
-- `RegistrationService.register` of veriproof/services/registration_service.py: its checks, the steps
-- up to the transaction, and the row that it writes.
use veri_proof_hackerton.Prelude.{
  ℕ, ◌+◌, String, Bool, true, false, not, Option, none, some, List, [], ◌∷◌, ℤ, pos, length, ◌&&◌,
  if◌then◌else◌,
}
use veri_proof_hackerton.Models.{IpAsset, Value, text, int, null, anchored}
use veri_proof_hackerton.Events.{or_option}
use veri_proof_hackerton.Flow.{
  rejected, raised, Flow, pure, raise, from_option, ◌>>=◌, ◌>>◌, rescue,
}
use veri_proof_hackerton.Registration.{
  RegistrationService, RegistrationMetadata, Office, Upload, Artifacts, Trail, AssetImage,
  asset_by_hash, is_image, or_null,
}
use veri_proof_hackerton.Registration.Preparation.{
  announce, prepare_artifacts, image_hash, save_preview, retention, gallery_artifacts,
  resolve_parent,
}
use veri_proof_hackerton.Registration.Subscription.{authorize_registration}

-- The arguments of `register`.
pub record Application : Type 0 where
  pub upload : Upload
  pub metadata : RegistrationMetadata
  pub supporting : List Upload
  pub gallery : List Upload
  pub account_owner : Option String
  pub signer_secret_key : String

-- The local variables at the start of the transaction.
pub record Prepared : Type 0 where
  pub asset_id : String
  pub content_hash : String
  pub parent : Option IpAsset
  pub artifacts : Artifacts
  pub perceptual_hash : Option String
  pub anchor_tx_sig : String
  pub certificate_tx_sig : String
  pub thumbnail_url : Option String
  pub watermark_url : Option String
  pub original_url : String
  pub images : List AssetImage

-- `thumbnail_url`, `watermark_url`, `original_url` and `gallery_artifacts`
pub record Stored : Type 0 where
  pub thumbnail_url : Option String
  pub watermark_url : Option String
  pub original_url : String
  pub images : List AssetImage

abbrev is_empty : List Upload → Bool
is_empty [] = true
is_empty (u ∷ rest) = false

abbrev score_value : Option ℤ → Value
score_value none = null
score_value (some n) = int n

module _ (s : RegistrationService) (a : Application) where
  -- `REGISTRATION_FAILED` with its reason, and the error.
  abbrev pub fail_with : {A : Type 0} → Trail → String → String → ℕ → Flow Office A
  fail_with trail reason code status = do
    announce s trail "REGISTRATION_FAILED" (("reason", text reason) ∷ [])
    raise (rejected code status)

  abbrev pub check_gallery : Flow Office (Unit {0})
  check_gallery =
      if not (is_empty a.gallery) && not (is_image a.metadata)
      then raise (rejected "invalid_gallery" 422)
      else pure tt

  abbrev pub check_subscription : Flow Office (Unit {0})
  check_subscription =
      if s.has_subscription
      then authorize_registration s.env.now a.metadata.creator_wallet
      else pure tt

  abbrev pub new_trail : String → Trail
  new_trail asset_id = record {
    asset_id = asset_id;
    account_owner = a.account_owner;
    title = a.metadata.title;
  }

  abbrev pub found_duplicate : Trail → Option IpAsset → Flow Office (Unit {0})
  found_duplicate trail none = pure tt
  found_duplicate trail (some asset) = fail_with trail "duplicate content" "duplicate" 409

  -- No work with the hash is registered.
  unfoldable pub check_new : Trail → String → Flow Office (Unit {0})
  unfolding pure raise
  check_new trail hash o = found_duplicate trail (asset_by_hash hash o.world) o

  abbrev pub anchored_by : Trail → Option String → Flow Office String
  anchored_by trail none = fail_with trail "on-chain anchoring failed" "anchor_unavailable" 503
  anchored_by trail (some tx) = pure tx

  -- `self.solana.anchor_hash(...)` with its handler
  unfoldable pub anchor : Trail → String → Flow Office String
  anchor trail hash =
      anchored_by trail (s.anchor_hash hash a.metadata.creator_wallet a.signer_secret_key)

  abbrev pub certified_by : Trail → Option String → Flow Office String
  certified_by trail none =
      fail_with trail "registration certificate failed" "registration_certificate_unavailable" 503
  certified_by trail (some tx) = pure tx

  -- `self.solana.issue_registration_certificate(...)` with its handler
  unfoldable pub certify_registration : Trail → String → Flow Office String
  certify_registration trail hash = certified_by trail (
      s.issue_registration_certificate trail.asset_id a.metadata.creator_wallet hash
        a.signer_secret_key)

  abbrev category_value : Artifacts → Value
  category_value artifacts = or_null (or_option a.metadata.category artifacts.analysis.category)

  abbrev tag_count : Artifacts → Value
  tag_count artifacts = int (pos (length artifacts.analysis.tags))

  unfoldable pub save_files : String → Artifacts → Flow Office Stored
  save_files asset_id artifacts = do
    thumbnail_url ← save_preview s "thumbnail" asset_id artifacts.thumbnail
    watermark_url ← save_preview s "watermark" asset_id artifacts.watermark
    original_url ←
        from_option raised
          (s.save_temporary asset_id a.upload.content (retention s) a.upload.content_type)
    images ← gallery_artifacts s asset_id 1 a.gallery
    pure (record {
      thumbnail_url = thumbnail_url;
      watermark_url = watermark_url;
      original_url = original_url;
      images = images;
    })

  -- `try: ... except Exception`, which also catches the RegistrationError of a gallery image.
  unfoldable pub store_files : Trail → Artifacts → Flow Office Stored
  store_files trail artifacts =
      rescue (save_files trail.asset_id artifacts)
        (λ fault. fail_with trail "content storage failed" "storage_unavailable" 503)

  -- Everything up to the transaction, from the duplicate check on.
  unfoldable pub prove : Trail → String → Flow Office Prepared
  prove trail hash = do
    check_new trail hash
    parent ← resolve_parent s a.metadata
    artifacts ← prepare_artifacts s a.upload.content a.metadata a.upload.content_type
    perceptual_hash ← image_hash s a.upload.content a.metadata
    announce s trail "AI_ANALYZED" (
        ("category", category_value artifacts)
        ∷ ("tag_count", tag_count artifacts)
        ∷ ("originality_score", score_value artifacts.analysis.originality_score)
        ∷ [])
    announce s trail "ANCHORING_STARTED" (("network", text s.x402_network) ∷ [])
    anchor_tx_sig ← anchor trail hash
    announce s trail "ANCHORED"
        (("content_sha256", text hash) ∷ ("anchor_tx_sig", text anchor_tx_sig) ∷ [])
    certificate_tx_sig ← certify_registration trail hash
    announce s trail "REGISTRATION_CERTIFICATE_ISSUED"
        (("registration_certificate_tx_sig", text certificate_tx_sig) ∷ [])
    stored ← store_files trail artifacts
    announce s trail "CONTENT_STORED" (
        ("gallery_count", int (pos (length stored.images)))
        ∷ ("retention_days", int (pos s.original_retention_days))
        ∷ [])
    pure (record {
      asset_id = trail.asset_id;
      content_hash = hash;
      parent = parent;
      artifacts = artifacts;
      perceptual_hash = perceptual_hash;
      anchor_tx_sig = anchor_tx_sig;
      certificate_tx_sig = certificate_tx_sig;
      thumbnail_url = stored.thumbnail_url;
      watermark_url = stored.watermark_url;
      original_url = stored.original_url;
      images = stored.images;
    })

  abbrev pub parent_id_of : Option IpAsset → Option String
  parent_id_of none = none
  parent_id_of (some parent) = some parent.id

  -- The new row of `IpAsset.objects.create`.
  unfoldable pub new_asset : Prepared → IpAsset
  new_asset p = record {
    id = p.asset_id;
    creator = record { wallet_address = a.metadata.creator_wallet };
    account_owner = a.account_owner;
    title = a.metadata.title;
    content_mime_type = some a.upload.content_type;
    min_price_usdc = none;
    target_price_usdc = none;
    target_amount = some a.metadata.target_price;
    min_amount = some a.metadata.min_price;
    image_sha256 = p.content_hash;
    original_purged = false;
    parent_asset_id = parent_id_of p.parent;
    royalty_share_bps = a.metadata.royalty_share_bps;
    visibility = a.metadata.visibility;
    status = anchored;
    registration_certificate_tx_sig = some p.certificate_tx_sig;
    currency = "USDC";
    description = a.metadata.description;
    ai_description = p.artifacts.analysis.description;
    asset_type = a.metadata.asset_type;
    tags = a.metadata.tags;
    ai_tags = p.artifacts.analysis.tags;
    category = or_option a.metadata.category p.artifacts.analysis.category;
    originality_score = p.artifacts.analysis.originality_score;
    perceptual_hash = p.perceptual_hash;
    thumbnail_url = p.thumbnail_url;
    watermark_url = p.watermark_url;
    original_url = some p.original_url;
    original_expires_at = some (s.env.now + retention s);
    anchor_tx_sig = some p.anchor_tx_sig;
  }
