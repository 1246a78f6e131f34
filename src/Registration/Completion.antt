-- ===== src/Registration/Completion.antt =====
-- `RegistrationService.register` of veriproof/services/registration_service.py: its transaction, what
-- follows it, and the whole of it.
use veri_proof_hackerton.Prelude.{
  ℕ, suc, String, none, some, List, [], ◌∷◌, ◌++◌, map, ◌==◌, if◌then◌else◌, append_text,
}
use veri_proof_hackerton.Models.{IpAsset, AgentEvent, Value, text}
use veri_proof_hackerton.Events.{record_event}
use veri_proof_hackerton.Draft.{contains}
use veri_proof_hackerton.Flow.{raised, Flow, pure, raise, modify, from_option, ◌>>=◌, ◌>>◌, atomic}
use veri_proof_hackerton.Registration.{
  RegistrationService, RegistrationOutcome, Office, Upload, AssetImage, AssetComponent,
  work_manifest_hash, content_type_or, or_null, written,
}
use veri_proof_hackerton.Registration.Preparation.{announce, draw_uuid}
use veri_proof_hackerton.Registration.Subscription.{consume_registration}
use veri_proof_hackerton.Registration.Register.{
  Application, Prepared, check_gallery, check_subscription, new_trail, prove, new_asset,
}

module _ (s : RegistrationService) (a : Application) where
  abbrev pub with_creator : Office → Office
  with_creator o = record o {
    drafts = record o.drafts { creators = o.drafts.creators ++ a.metadata.creator_wallet ∷ [] };
  }

  -- `Creator.objects.get_or_create`
  abbrev pub ensure_creator : Office → Office
  ensure_creator o =
      if contains a.metadata.creator_wallet o.drafts.creators then o else with_creator o

  abbrev pub add_asset : IpAsset → Office → Office
  add_asset asset o = record o { world = record o.world { assets = o.world.assets ++ asset ∷ [] } }

  abbrev pub create_asset : IpAsset → Flow Office (Unit {0})
  create_asset asset = if s.insert_asset asset then modify (add_asset asset) else raise raised

  abbrev pub component_row : IpAsset → Upload → String → AssetComponent
  component_row asset u url = record {
    asset = asset.id;
    file_name = u.name;
    content_mime_type = content_type_or "application/octet-stream" u.content_type;
    content_sha256 = s.sha256 u.content;
    storage_url = url;
  }

  -- The supporting files, their indexes from the given one on; `index_text` prints an index.
  unfoldable pub add_components : (ℕ → String) → IpAsset → ℕ → List Upload → Flow Office (Unit {0})
  add_components index_text asset index [] = pure tt
  add_components index_text asset index (u ∷ rest) = do
    url ← from_option raised (
        s.save_permanent "supporting" (append_text asset.id (append_text "-" (index_text index)))
          u.content)
    modify (λ o. record o { components = o.components ++ component_row asset u url ∷ [] })
    add_components index_text asset (suc index) rest

  abbrev pub add_images : List AssetImage → Office → Office
  add_images images o = record o { images = o.images ++ images }

  abbrev pub use_subscription : IpAsset → Flow Office (Unit {0})
  use_subscription asset =
      if s.has_subscription
      then consume_registration s.env.now asset.creator.wallet_address asset.id
      else pure tt

  -- The body of `with transaction.atomic()`.
  unfoldable pub enter : (ℕ → String) → Prepared → Flow Office IpAsset
  enter index_text p = do
    modify ensure_creator
    create_asset (new_asset s a p)
    add_components index_text (new_asset s a p) 0 a.supporting
    modify (add_images p.images)
    use_subscription (new_asset s a p)
    pure (new_asset s a p)

  -- `AgentEvent.objects.filter(correlation_id=asset_id, asset__isnull=True).update(asset=asset)`
  abbrev attached : String → AgentEvent → AgentEvent
  attached asset_id e = elim e.asset [
    | some id ↦ e
    | none ↦ elim e.correlation_id [
      | none ↦ e
      | some c ↦ (if c == asset_id then record e { asset = some asset_id } else e)
    ]
  ]

  unfoldable pub attach_events : IpAsset → Office → Office
  attach_events asset o = record o {
    world = record o.world { events = map (attached asset.id) o.world.events };
  }

  abbrev title_of : IpAsset → Value
  title_of asset = or_null asset.title

  -- The event `ASSET_REGISTERED`, which names the stored row.
  unfoldable pub announce_registered : IpAsset → Flow Office (Unit {0})
  announce_registered asset o = written o (
      record_event s.env "ASSET_REGISTERED"
        (("title", title_of asset) ∷ ("status", text "anchored") ∷ []) (some asset) none
        (record { account_owner = none; asset_id = none; correlation_id = some asset.id }) o.world)

  unfoldable pub finish : Prepared → IpAsset → Flow Office RegistrationOutcome
  finish p asset = do
    modify (attach_events asset)
    announce_registered asset
    pure (record { asset = asset; analysis = p.artifacts.analysis })

  abbrev pub content_hash : String
  content_hash = work_manifest_hash s.sha256 a.upload a.gallery

  -- The steps before the transaction.
  unfoldable pub prepare : Flow Office Prepared
  prepare = do
    check_gallery s a
    check_subscription s a
    asset_id ← draw_uuid s
    announce s (new_trail s a asset_id) "REGISTRATION_STARTED" (("status", text "processing") ∷ [])
    announce s (new_trail s a asset_id) "CONTENT_HASHED"
        (("content_sha256", text content_hash) ∷ [])
    prove s a (new_trail s a asset_id) content_hash

  -- `register`
  unfoldable pub register : (ℕ → String) → Flow Office RegistrationOutcome
  register index_text = do p ← prepare; asset ← atomic (enter index_text p); finish p asset
