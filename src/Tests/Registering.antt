-- ===== src/Tests/Registering.antt =====
-- A work that is registered, relisted and deleted.
use veri_proof_hackerton.Prelude.{
  String, true, Option, none, some, [], ◌∷◌, ◌≡◌, refl, ℕ, pos, map, ◌==◌, if◌then◌else◌,
}
use native.Mathlib.Omega.{arith}
use veri_proof_hackerton.Models.{IpAsset, World, License, public}
use veri_proof_hackerton.License.{license_by_tx, grant, new_license}
use veri_proof_hackerton.Registration.Within.{IsSubscribed, register-IsSubscribed}
use veri_proof_hackerton.Assets.Deleted.{delete_asset-grant}
use veri_proof_hackerton.Events.{
  new_event, record_event, correlation_id_for, mirror_set, audit_insert, save_event,
}
use veri_proof_hackerton.Fingerprint.{manifest_sha256}
use veri_proof_hackerton.Flow.{pure, raise, modify, from_option, ◌>>=◌, atomic, rescue}
use veri_proof_hackerton.Registration.Register.{
  Application, check_new, anchor, certify_registration, save_files, store_files, prove, new_asset,
}
use veri_proof_hackerton.Registration.Completion.{
  add_components, enter, attach_events, announce_registered, finish, prepare, register,
}
use veri_proof_hackerton.Registration.Subscription.{authorize_registration, consume_registration}
use veri_proof_hackerton.Json.{object, field, end, text}
use veri_proof_hackerton.Registration.{
  Office, Upload, RegistrationService, AnalysisResult, CreatorSubscription, parent_by_id,
}
use veri_proof_hackerton.Registration.Preparation.{
  announce, draw_uuid, prepare_artifacts, image_hash, save_preview, gallery_artifact,
  gallery_artifacts, resolve_parent,
}
use veri_proof_hackerton.Assets.{Desk, parse_money}
use veri_proof_hackerton.Assets.Update.{update_asset_terms}
use veri_proof_hackerton.Assets.Deletion.{delete_asset}
use veri_proof_hackerton.Assets.Register.{Counter, Form, registration_metadata}
use veri_proof_hackerton.Assets.Submission.{validate_gallery_uploads, register_work}
use veri_proof_hackerton.Tests.{
  sample_env, whole, empty_world, parent_asset, derivative, sample_purchase, licensing,
}

abbrev sample_analysis : AnalysisResult
sample_analysis = record {
  tags = "sea" ∷ [];
  category = some "photo";
  originality_score = some (pos 80);
  recommended_min_price_usdc = whole 4;
  description = some "A work";
}

abbrev adapters : RegistrationService
adapters = record {
  env = sample_env;
  make_thumbnail = λ content. some "thumbnail";
  make_watermark = λ content. some "watermark";
  perceptual_hash = λ content. some "0123456789abcdef";
  analyze_asset = λ content mime. some sample_analysis;
  anchor_hash = λ hash wallet key. some "anchor_tx";
  issue_registration_certificate = λ id wallet hash key. some "certificate_tx";
  save_permanent = λ kind id content. some "permanent";
  save_temporary = λ id content retention mime. some "temporary";
  sha256 = λ content. content;
  insert_asset = λ asset. true;
  has_subscription = true;
  x402_network = "solana-devnet";
  original_retention_days = 30;
}

-- Texts without blanks stand for amounts; every amount is "5" or "10".
abbrev sample_desk : Desk
sample_desk = record {
  env = sample_env;
  lib = record {
    loads = λ body. some (
        object (
          field "min_amount" (text "5")
            (field "target_amount" (text "10") (field "visibility" (text "private") end))));
    uuid_of = λ json. none;
    str_of = λ json. "private";
    finite_decimal = λ raw. some (whole 5);
  };
  lower = λ t. t;
  places_of = λ raw. 0;
}

abbrev sample_counter : Counter
sample_counter = record {
  desk = sample_desk;
  service = adapters;
  draft_service = record {
    uuid4 = λ n. "token";
    now = 1000;
    strip = λ t. t;
    first_255 = λ t. t;
    is_uuid = λ t. true;
    upload_manifest_sha256 = λ uploads. some "digest";
  };
  signer = λ user. some ("wallet", "key");
  is_valid_pubkey = λ t. true;
  int_of_text = λ t. none;
  split = λ t. t ∷ [];
  index_text = λ n. "0";
  max_upload_bytes = 1000;
  max_work_images = 5;
}

abbrev sample_upload : Upload
sample_upload = record {
  name = "sea.png";
  content_type = "image/png";
  size = 100;
  content = "pixels";
}

abbrev post_fields : String → Option String
post_fields key =
    if key == "min_price"
    then some "5"
    else if key == "target_price"
    then some "5"
    else if key == "visibility"
    then some "public"
    else none

abbrev sample_form : Form
sample_form = record {
  is_post = true;
  user = some "alice";
  image = some sample_upload;
  gallery_images = [];
  supporting_files = [];
  field = post_fields;
}

abbrev sample_subscription : CreatorSubscription
sample_subscription = record {
  id = 1;
  creator = "wallet";
  plan_is_active = true;
  included_registrations = 1;
  is_active = true;
  period_start = 0;
  period_end = 5000;
  registrations_used = 0;
}

abbrev sample_office : Office
sample_office = record {
  world = record empty_world { assets = [] };
  drafts = record { creators = "wallet" ∷ []; drafts = []; draws = 0 };
  images = [];
  components = [];
  subscriptions = sample_subscription ∷ [];
  charges = [];
  intents = [];
}

abbrev sample_index : ℕ → String
sample_index n = "0"

abbrev sample_application : Application
sample_application = record {
  upload = sample_upload;
  metadata = record {
    creator_wallet = "wallet";
    asset_type = "image";
    visibility = public;
    min_price = whole 5;
    target_price = whole 10;
    title = none;
    description = none;
    parent_asset_id = none;
    royalty_share_bps = none;
    tags = [];
    category = none;
  };
  supporting = [];
  gallery = [];
  account_owner = some "alice";
  signer_secret_key = "key";
}

abbrev registered_office : Office
registered_office = (register_work sample_counter sample_form sample_office).1

-- One work is stored, public and under the first id.
registered_hashes :
    map (λ (a : IpAsset). a.image_sha256) registered_office.world.assets ≡ "pixels" ∷ []
unfolding register_work registration_metadata parse_money validate_gallery_uploads manifest_sha256
    check_new anchor certify_registration save_files store_files prove new_asset add_components
    enter attach_events announce_registered finish prepare register announce draw_uuid
    prepare_artifacts image_hash save_preview gallery_artifact gallery_artifacts parent_by_id
    resolve_parent authorize_registration consume_registration new_event record_event
    correlation_id_for mirror_set audit_insert save_event pure raise modify from_option ◌>>=◌ atomic
    rescue
registered_hashes = refl

-- Its one registration is used.
registered_use :
    map (λ (c : CreatorSubscription). c.registrations_used) registered_office.subscriptions ≡ 1 ∷ []
unfolding register_work registration_metadata parse_money validate_gallery_uploads manifest_sha256
    check_new anchor certify_registration save_files store_files prove new_asset add_components
    enter attach_events announce_registered finish prepare register announce draw_uuid
    prepare_artifacts image_hash save_preview gallery_artifact gallery_artifacts parent_by_id
    resolve_parent authorize_registration consume_registration new_event record_event
    correlation_id_for mirror_set audit_insert save_event pure raise modify from_option ◌>>=◌ atomic
    rescue
registered_use = refl

abbrev relisted_office : Office
relisted_office =
    (update_asset_terms sample_desk true (some "alice") "body"
      "00000000-0000-4000-8000-000000000001" registered_office).1

abbrev final_office : Office
final_office =
    (delete_asset true (some "alice") "00000000-0000-4000-8000-000000000001" relisted_office).1

register-IsSubscribed_example :
    IsSubscribed (register adapters sample_application sample_index sample_office).1.subscriptions
register-IsSubscribed_example =
    register-IsSubscribed adapters sample_application sample_index sample_office
      ((refl, tt), (omega arith, tt))

-- A license of the derivative, which its owner then deletes.
abbrev paid_license : License
paid_license = record {
  id = "license";
  asset = "derivative";
  buyer_user = none;
  session = none;
  buyer_wallet = "buyer";
  price_usdc = some (whole 10);
  price_sol = none;
  payment_currency = "USDC";
  usage_type = "commercial";
  payment_tx_sig = sample_purchase.payment_tx;
  certificate_tx_sig = none;
  download_token = none;
  download_expires_at = none;
}

abbrev selling_office : Office
selling_office = record sample_office {
  world = record empty_world {
    assets = parent_asset ∷ record derivative { account_owner = some "alice" } ∷ [];
    licenses = paid_license ∷ [];
  };
}

delete_asset-grant_example :
    let w : World = (delete_asset true (some "alice") "derivative" selling_office).1.world in
    (license_by_tx sample_purchase.payment_tx w.licenses ≡ none)
    × ((grant licensing sample_env parent_asset sample_purchase w).0
        ≡ new_license licensing sample_env parent_asset sample_purchase w.draws)
    × ((grant licensing sample_env parent_asset sample_purchase selling_office.world).0
        ≡ paid_license)
unfolding delete_asset
delete_asset-grant_example =
    delete_asset-grant "alice" "derivative" selling_office paid_license licensing sample_env
      parent_asset sample_purchase (refl, tt) refl refl refl
