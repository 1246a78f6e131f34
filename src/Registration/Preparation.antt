-- ===== src/Registration/Preparation.antt =====
-- The private steps of `RegistrationService` of veriproof/services/registration_service.py that
-- `register` composes before its transaction.
use veri_proof_hackerton.Prelude.{
  ℕ, suc, ◌*◌, String, not, Option, none, some, List, [], ◌∷◌, any, ◌==◌, if◌then◌else◌,
}
use veri_proof_hackerton.Models.{IpAsset, Payload}
use veri_proof_hackerton.Events.{record_event}
use veri_proof_hackerton.Flow.{rejected, raised, Flow, done, pure, from_option, ◌>>=◌}
use veri_proof_hackerton.Registration.{
  AssetImage, Office, Upload, RegistrationMetadata, AnalysisResult, RegistrationService,
  llm_analyzable_mimes, is_image, or_null, content_type_or, Artifacts, Trail, written, with_parent,
}

module _ (s : RegistrationService) where
  -- `self.event_recorder.record(type, {"title": ..., ...}, **event_context)`
  unfoldable pub announce : Trail → String → Payload → Flow Office (Unit {0})
  announce trail type payload o = written o (
      record_event s.env type (("title", or_null trail.title) ∷ payload) none none
        (record {
          account_owner = trail.account_owner;
          asset_id = some trail.asset_id;
          correlation_id = some trail.asset_id;
        })
        o.world)

  -- `uuid.uuid4()`
  unfoldable pub draw_uuid : Flow Office String
  draw_uuid o = (
    done (s.env.uuid4 o.world.draws),
    record o { world = record o.world { draws = suc o.world.draws } },
  )

  abbrev pub blank_analysis : RegistrationMetadata → AnalysisResult
  blank_analysis metadata = record {
    tags = [];
    category = none;
    originality_score = none;
    recommended_min_price_usdc = metadata.min_price;
    description = none;
  }

  abbrev pub analyzed : String → String → Option String → Option String → Flow Office Artifacts
  analyzed content mime thumbnail watermark = do
    analysis ← from_option (rejected "analysis_unavailable" 503) (s.analyze_asset content mime)
    pure (record { analysis = analysis; thumbnail = thumbnail; watermark = watermark })

  abbrev pub image_artifacts : String → String → Flow Office Artifacts
  image_artifacts content mime = do
    thumbnail ← from_option (rejected "invalid_image" 400) (s.make_thumbnail content)
    watermark ← from_option (rejected "invalid_image" 400) (s.make_watermark content)
    analyzed content mime (some thumbnail) (some watermark)

  -- `_prepare_artifacts`
  unfoldable pub prepare_artifacts : String → RegistrationMetadata → String → Flow Office Artifacts
  prepare_artifacts content metadata mime =
      if not (any (λ m. m == mime) llm_analyzable_mimes)
      then pure (record { analysis = blank_analysis metadata; thumbnail = none; watermark = none })
      else if is_image metadata
      then image_artifacts content mime
      else analyzed content mime none none

  -- `_perceptual_hash`
  unfoldable pub image_hash : String → RegistrationMetadata → Flow Office (Option String)
  image_hash content metadata =
      if is_image metadata
      then (do
        hash ← from_option (rejected "invalid_image" 400) (s.perceptual_hash content)
        pure (some hash))
      else pure none

  -- `_save_preview`
  unfoldable pub save_preview : String → String → Option String → Flow Office (Option String)
  save_preview kind asset_id none = pure none
  save_preview kind asset_id (some image) = do
    url ← from_option raised (s.save_permanent kind asset_id image)
    pure (some url)

  -- `original_retention_days` in seconds
  abbrev pub retention : ℕ
  retention = s.original_retention_days * 86400

  -- One round of `_prepare_gallery_artifacts`.
  unfoldable pub gallery_artifact : String → ℕ → Upload → Flow Office AssetImage
  gallery_artifact asset_id position upload = do
    watermark ← from_option (rejected "invalid_image" 400) (s.make_watermark upload.content)
    image_id ← draw_uuid
    watermark_url ←
        from_option (rejected "storage_unavailable" 503)
          (s.save_permanent "watermark" image_id watermark)
    original_url ←
        from_option (rejected "storage_unavailable" 503)
          (s.save_temporary image_id upload.content retention upload.content_type)
    pure (record {
      id = image_id;
      asset = asset_id;
      position = position;
      file_name = upload.name;
      content_mime_type = content_type_or "image/png" upload.content_type;
      content_sha256 = s.sha256 upload.content;
      watermark_url = watermark_url;
      original_url = original_url;
    })

  -- `_prepare_gallery_artifacts`, its positions from the given one on.
  unfoldable pub gallery_artifacts : String → ℕ → List Upload → Flow Office (List AssetImage)
  unfolding gallery_artifact
  gallery_artifacts asset_id position [] = pure []
  gallery_artifacts asset_id position (upload ∷ rest) = do
    image ← gallery_artifact asset_id position upload
    images ← gallery_artifacts asset_id (suc position) rest
    pure (image ∷ images)

  abbrev pub parent_for : RegistrationMetadata → Option String → Flow Office (Option IpAsset)
  parent_for metadata none = pure none
  parent_for metadata (some parent_id) =
      if parent_id == "" then pure none else with_parent metadata (s.env.parse_uuid parent_id)

  -- `_resolve_parent`
  unfoldable pub resolve_parent : RegistrationMetadata → Flow Office (Option IpAsset)
  resolve_parent metadata = parent_for metadata metadata.parent_asset_id
