-- ===== src/Tests.antt =====
-- The rows, services and requests that the tests run on.
pub mod Amounts
pub mod Payments
pub mod Royalties
pub mod Batches
pub mod Negotiations
pub mod Chains
pub mod Buyers
pub mod Drafts
pub mod Web
pub mod Sponsored
pub mod Sales
pub mod Registering
use veri_proof_hackerton.Prelude.{
  ℕ, String, Bool, true, false, Option, none, some, List, [], ◌∷◌, ◌*◌, ◌^◌, ℤ, pos, append_text,
}
use veri_proof_hackerton.Money.{Decimal}
use veri_proof_hackerton.Models.{
  Creator, IpAsset, License, World, BatchOrder, BatchItem, quoted, Transfer, public, listed,
}
use veri_proof_hackerton.Env.{Env}
use veri_proof_hackerton.License.{LicenseService, Purchase}
use veri_proof_hackerton.Royalty.{TransferUsdc}
use veri_proof_hackerton.Settlement.{
  SettlementService, Settlement, Chain, CertificateOutcome, issued,
}

-- Whole USDC or SOL.
abbrev pub whole : ℕ → Decimal
whole n = pos (n * 10 ^ 18)

abbrev pub sample_env : Env
sample_env = record {
  now = 1000;
  uuid4 = λ n. "00000000-0000-4000-8000-000000000001";
  token_urlsafe = λ n. "token";
  uuid5 = λ name. name;
  parse_uuid = λ text. some text;
  strip = λ text. text;
  insert_event = λ event. true;
  platform_escrow_pubkey = "escrow";
  usdc_mint_address = "usdc";
  download_token_ttl_seconds = 3600;
  max_negotiation_rounds = 3;
  batch_max_items = 200;
}

abbrev pub parent_asset : IpAsset
parent_asset = record {
  id = "parent";
  creator = record { wallet_address = "parent_wallet" };
  account_owner = none;
  title = some "Original";
  content_mime_type = none;
  min_price_usdc = some (whole 5);
  target_price_usdc = some (whole 10);
  target_amount = some (whole 10);
  min_amount = some (whole 5);
  image_sha256 = "";
  original_purged = false;
  parent_asset_id = none;
  royalty_share_bps = none;
  visibility = public;
  status = listed;
  registration_certificate_tx_sig = some "registration";
  currency = "USDC";
  description = none;
  ai_description = none;
  asset_type = "image";
  tags = [];
  ai_tags = [];
  category = none;
  originality_score = none;
  perceptual_hash = none;
  thumbnail_url = none;
  watermark_url = none;
  original_url = some "original";
  original_expires_at = some 5000;
  anchor_tx_sig = some "anchor";
}

abbrev pub derivative : IpAsset
derivative = record {
  id = "derivative";
  creator = record { wallet_address = "seller_wallet" };
  account_owner = none;
  title = some "Remix";
  content_mime_type = none;
  min_price_usdc = some (whole 5);
  target_price_usdc = some (whole 10);
  target_amount = some (whole 10);
  min_amount = some (whole 5);
  image_sha256 = "";
  original_purged = false;
  parent_asset_id = some "parent";
  royalty_share_bps = some (pos 1500);
  visibility = public;
  status = listed;
  registration_certificate_tx_sig = some "registration";
  currency = "USDC";
  description = none;
  ai_description = none;
  asset_type = "image";
  tags = [];
  ai_tags = [];
  category = none;
  originality_score = none;
  perceptual_hash = none;
  thumbnail_url = none;
  watermark_url = none;
  original_url = some "original";
  original_expires_at = some 5000;
  anchor_tx_sig = some "anchor";
}

abbrev pub empty_world : World
empty_world = record {
  assets = parent_asset ∷ derivative ∷ [];
  sessions = [];
  licenses = [];
  distributions = [];
  orders = [];
  items = [];
  events = [];
  mirror = [];
  audit = [];
  transfers = [];
  draws = 0;
}

abbrev pub licensing : LicenseService
licensing = record { ttl_seconds = none; has_recorder = true }

abbrev pub sample_purchase : Purchase
sample_purchase = record {
  buyer_wallet = "buyer";
  price = some (whole 10);
  usage_type = "commercial";
  payment_tx = "tx1";
  session = none;
  buyer_user = none;
  payment_currency = "USDC";
}

abbrev pub escrow_transfer : TransferUsdc
escrow_transfer past to amount = some (append_text "sig:" to)

abbrev pub sample_license : License
sample_license = record {
  id = "license";
  asset = "derivative";
  buyer_user = none;
  session = none;
  buyer_wallet = "buyer";
  price_usdc = some (whole 10);
  price_sol = none;
  payment_currency = "USDC";
  usage_type = "commercial";
  payment_tx_sig = "tx0";
  certificate_tx_sig = none;
  download_token = some "token0";
  download_expires_at = some 4600;
}

abbrev pub sample_chain : Chain
sample_chain = record {
  verify_usdc = λ tx recipient amount mint. some true;
  verify_sol = λ tx recipient lamports memo. some true;
  issue_certificate = λ asset buyer memo. issued "certificate";
  transfer_usdc = some escrow_transfer;
}

abbrev pub settling : SettlementService
settling = record { env = sample_env; chain = sample_chain; licenses = licensing; usdc_mint = "" }

abbrev pub sample_settlement : Settlement
sample_settlement = record {
  asset = derivative;
  session = none;
  tx_signature = "tx1";
  buyer_wallet = "buyer";
  expected_amount = some (whole 10);
  usage_type = none;
  payment_already_verified = false;
  buyer_user = none;
  payment_currency = "USDC";
}
