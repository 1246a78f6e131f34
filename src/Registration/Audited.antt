-- ===== src/Registration/Audited.antt =====
-- The steps of `RegistrationService.register` of veriproof/services/registration_service.py before its
-- transaction, and the tables that they leave alone.
use veri_proof_hackerton.Prelude.{
  ℕ, suc, String, Option, none, some, List, [], ◌∷◌, ◌≡◌, refl, if-both, if-split,
}
use veri_proof_hackerton.Models.{IpAsset, Payload, asset_by_id, World}
use veri_proof_hackerton.Events.{record_event-SameRows, SameRows}
use veri_proof_hackerton.Flow.{raised, pure, raise, Ends}
use veri_proof_hackerton.Registration.{
  RegistrationService, RegistrationMetadata, Office, Upload, Trail, parent_by_id, is_royalty_share,
  with_parent, checked_parent,
}
use veri_proof_hackerton.Registration.Preparation.{
  announce, draw_uuid, prepare_artifacts, image_hash, save_preview, gallery_artifact,
  gallery_artifacts, analyzed, resolve_parent, parent_for,
}
use veri_proof_hackerton.Registration.Quiet.{
  SameOffice, SameOffice-refl, with_world-SameOffice, Quiet, Known, pure-Quiet, raise-Quiet,
  from_option-Quiet, bind-Quiet, written-SameOffice, IsParent, asset_by_own_id,
}

module _ (s : RegistrationService) where
  pub announce-Quiet :
      (trail : Trail) (type : String) (payload : Payload)
      → Quiet Known (announce s trail type payload)
  unfolding announce
  announce-Quiet trail type payload = record {
    run = λ o.
        written-SameOffice o _ (λ w e. record_event-SameRows s.env type _ none none _ o.world w e);
  }

  drawn_same : (w : World) → SameRows (record w { draws = suc w.draws }) w
  drawn_same w = record {
    assets = refl;
    sessions = refl;
    licenses = refl;
    distributions = refl;
    orders = refl;
    items = refl;
    transfers = refl;
  }

  pub draw_uuid-Quiet : Quiet Known (draw_uuid s)
  unfolding draw_uuid
  draw_uuid-Quiet = record { run = λ o. (with_world-SameOffice o _ (drawn_same o.world), tt) }

  analyzed-Quiet :
      (content mime : String) (thumbnail watermark : Option String)
      → Quiet Known (analyzed s content mime thumbnail watermark)
  analyzed-Quiet content mime thumbnail watermark =
      bind-Quiet _ _ _ (from_option-Quiet _ _) (λ analysis. pure-Quiet _)

  pub prepare_artifacts-Quiet :
      (content mime : String) (metadata : RegistrationMetadata)
      → Quiet Known (prepare_artifacts s content metadata mime)
  unfolding prepare_artifacts
  prepare_artifacts-Quiet content mime metadata = if-both (Quiet Known) _ _ _ (pure-Quiet _) (
      if-both (Quiet Known) _ _ _
        (bind-Quiet _ _ _ (from_option-Quiet _ _) (λ thumbnail.
          bind-Quiet _ _ _ (from_option-Quiet _ _)
            (λ watermark. analyzed-Quiet content mime (some thumbnail) (some watermark))))
        (analyzed-Quiet content mime none none))

  pub image_hash-Quiet :
      (content : String) (metadata : RegistrationMetadata)
      → Quiet Known (image_hash s content metadata)
  unfolding image_hash
  image_hash-Quiet content metadata =
      if-both (Quiet Known) _ _ _ (bind-Quiet _ _ _ (from_option-Quiet _ _) (λ hash. pure-Quiet _))
        (pure-Quiet _)

  pub save_preview-Quiet :
      (kind asset_id : String) (image : Option String)
      → Quiet Known (save_preview s kind asset_id image)
  unfolding save_preview
  save_preview-Quiet kind asset_id none = pure-Quiet none
  save_preview-Quiet kind asset_id (some image) =
      bind-Quiet _ _ _ (from_option-Quiet _ _) (λ url. pure-Quiet _)

  gallery_artifact-Quiet :
      (asset_id : String) (position : ℕ) (upload : Upload)
      → Quiet Known (gallery_artifact s asset_id position upload)
  unfolding gallery_artifact
  gallery_artifact-Quiet asset_id position upload =
      bind-Quiet _ _ _ (from_option-Quiet _ _) (λ watermark.
        bind-Quiet _ _ _ draw_uuid-Quiet (λ image_id.
          bind-Quiet _ _ _ (from_option-Quiet _ _) (λ watermark_url.
            bind-Quiet _ _ _ (from_option-Quiet _ _) (λ original_url. pure-Quiet _))))

  pub gallery_artifacts-Quiet :
      (asset_id : String) (position : ℕ) (gallery : List Upload)
      → Quiet Known (gallery_artifacts s asset_id position gallery)
  unfolding gallery_artifacts
  gallery_artifacts-Quiet asset_id position [] = pure-Quiet []
  gallery_artifacts-Quiet asset_id position (upload ∷ rest) =
      bind-Quiet _ _ _ (gallery_artifact-Quiet asset_id position upload) (λ image.
        bind-Quiet _ _ _ (gallery_artifacts-Quiet asset_id (suc position) rest)
          (λ images. pure-Quiet _))

  checked_parent-Ends :
      (metadata : RegistrationMetadata) (found : Option IpAsset) (id : String) (o : Office)
      → asset_by_id id o.world ≡ found
      → Ends
          (λ a o'. SameOffice o' o × IsParent metadata o a)
          (λ o'. SameOffice o' o)
          (checked_parent metadata found o)
  unfolding pure raise
  checked_parent-Ends metadata none id o e = SameOffice-refl o
  checked_parent-Ends metadata (some parent) id o e =
      if-split
        (λ m. Ends (λ a o'. SameOffice o' o × IsParent metadata o a) (λ o'. SameOffice o' o) (m o))
        (is_royalty_share metadata.royalty_share_bps) (pure (some parent)) _
        (λ share. (SameOffice-refl o, (asset_by_own_id parent id o.world e, share)))
        (λ _. SameOffice-refl o)

  with_parent-Quiet :
      (metadata : RegistrationMetadata) (id : Option String)
      → Quiet (IsParent metadata) (with_parent metadata id)
  unfolding parent_by_id
  with_parent-Quiet metadata none = raise-Quiet _ raised
  with_parent-Quiet metadata (some id) = record {
    run = λ o. checked_parent-Ends metadata _ id o refl;
  }

  absent-Quiet : (metadata : RegistrationMetadata) → Quiet (IsParent metadata) (pure none)
  unfolding pure
  absent-Quiet metadata = record { run = λ o. (SameOffice-refl o, tt) }

  parent_for-Quiet :
      (metadata : RegistrationMetadata) (id : Option String)
      → Quiet (IsParent metadata) (parent_for s metadata id)
  parent_for-Quiet metadata none = absent-Quiet metadata
  parent_for-Quiet metadata (some id) =
      if-both (Quiet (IsParent metadata)) _ _ _ (absent-Quiet metadata)
        (with_parent-Quiet metadata (s.env.parse_uuid id))

  pub resolve_parent-Quiet :
      (metadata : RegistrationMetadata) → Quiet (IsParent metadata) (resolve_parent s metadata)
  unfolding resolve_parent
  resolve_parent-Quiet metadata = parent_for-Quiet metadata metadata.parent_asset_id
