-- ===== src/Tests/Sponsored.antt =====
-- A sponsored payment at concrete rows.
use veri_proof_hackerton.Prelude.{inr, arith, eq_iff, true, none, some, [], ◌∷◌, ◌≡◌, refl, pos}
use veri_proof_hackerton.Models.{License}
use veri_proof_hackerton.Json.{text}
use veri_proof_hackerton.Settlement.{settle_pipeline}
use veri_proof_hackerton.Royalty.Ledger.{booked, delivered}
use veri_proof_hackerton.Sponsored.{SponsoredPaymentIntent, created, settled, browser}
use veri_proof_hackerton.Sponsored.{Checkout}
use veri_proof_hackerton.Sponsored.Endpoints.{
  AgentAccess, create_agent_sponsored_usdc_payment, settle_agent_sponsored_usdc_payment,
  agent_payment_unauthorized,
}
use veri_proof_hackerton.Tests.Web.{sample_library, sample_request}
use veri_proof_hackerton.Sponsored.Open.{Tables}
use veri_proof_hackerton.Sponsored.Settle.{Till, answered, commit, paid}
use veri_proof_hackerton.Sponsored.Sound.{IsSound}
use veri_proof_hackerton.Sponsored.Steps.{
  here, next, committed, piped, steps-IsSound, settled_stays_paid,
}
use veri_proof_hackerton.Tests.{
  parent_asset, empty_world, settling, sample_env, sample_settlement, sample_license, whole,
}

abbrev open_intent : SponsoredPaymentIntent
open_intent = record {
  id = "intent";
  asset = parent_asset;
  negotiation_session = none;
  buyer_user = some "user";
  buyer_wallet = "buyer";
  recipient_wallet = "parent_wallet";
  amount_usdc = whole 10;
  memo = "VERIPROOF:USDC:intent";
  channel = browser;
  status = created;
  transaction_signature = none;
  expires_at = 1300;
  settled_at = none;
}

abbrev till : Till
till = record {
  settlement = settling;
  is_transaction_finalized = λ signature. answered true;
  verify_usdc_payment = λ payment. answered (record {
    is_valid = true;
    amount = whole 10;
    sender = text "buyer";
    slot = pos 1;
    commitment = none;
    tx_signature = none;
  });
}

abbrev opened_tables : Tables
opened_tables = (open_intent ∷ [], empty_world)

abbrev committed_tables : Tables
committed_tables = (commit till "intent" "tx0" (some "user") opened_tables).1

steps-IsSound_example : IsSound committed_tables
unfolding booked delivered
steps-IsSound_example =
    steps-IsSound (next (committed till "intent" "tx0" (some "user") opened_tables) here)
      ((tt, tt), (tt, refl))

abbrev paid_intent : SponsoredPaymentIntent
paid_intent = record open_intent {
  status = settled;
  transaction_signature = some "tx0";
  settled_at = some 1000;
}

abbrev paid_tables : Tables
paid_tables = (paid_intent ∷ [], record empty_world { licenses = sample_license ∷ [] })

abbrev later_tables : Tables
later_tables = (paid_tables.0, (settle_pipeline settling sample_settlement paid_tables.1).1)

settled_stays_paid_example :
    (l : License) × (commit till "intent" "tx5" none later_tables
      ≡ (paid paid_intent l, later_tables))
unfolding booked delivered
settled_stays_paid_example =
    settled_stays_paid paid_intent till "tx5" none
      (next (piped settling sample_settlement paid_tables) here)
      ((("tx0", refl, (sample_license, refl)), tt), ((refl, tt), refl)) (refl, refl)

abbrev checkout : Checkout
checkout = record {
  env = sample_env;
  lib = sample_library;
  sponsor = record {
    sponsor_pubkey = "sponsor";
    public_key = some "sponsor";
    sign_transfer = λ buyer recipient units memo. some "signed";
  };
  is_valid_pubkey = λ key. true;
  ttl_seconds = 300;
}

abbrev guessing : AgentAccess
guessing = record {
  configured_token = "secret";
  buyer_pubkey = "agent_wallet";
  authorization = "Bearer guess";
  scheme_of = λ header. "Bearer";
  token_of = λ header. "guess";
  lower = λ t. "bearer";
  is_ascii = λ t. true;
}

agent_payment_unauthorized_example :
    ((create_agent_sponsored_usdc_payment checkout guessing sample_request "parent" opened_tables).1
      ≡ opened_tables)
    × ((settle_agent_sponsored_usdc_payment till checkout guessing sample_request "parent"
          opened_tables).1
        ≡ opened_tables)
agent_payment_unauthorized_example =
    agent_payment_unauthorized checkout guessing till sample_request "parent" opened_tables
      (inr (ground (arith, eq_iff "guess" "secret")))
