-- ===== src/Tests/Batches.antt =====
-- Batch orders at concrete rows.
use veri_proof_hackerton.Prelude.{
  ◌⊎◌, String, true, Option, none, some, List, [], ◌∷◌, ◌≡◌, ◌≢◌, ◌<◌, refl, arith, if◌then◌else◌,
  ltb,
}
use Prim.Native.String.{count}
use veri_proof_hackerton.Models.{BatchOrder, BatchItem, quoted, settled, World}
use veri_proof_hackerton.Batch.{BatchService}
use veri_proof_hackerton.Batch.Settle.{
  BatchSettleResult, done, refused, settle_batch_order, settle_items, BatchItemResult, close_order,
  verify_payment,
}
use veri_proof_hackerton.Batch.Settle.Replay.{IsReplay, settle_batch_order-IsReplay}
use veri_proof_hackerton.Batch.Settle.Keys.{settle_items-overlong}
use veri_proof_hackerton.Tests.{sample_env, parent_asset, empty_world, licensing, whole}

abbrev pub wide : String → Option String
wide key = none

-- What a column of 90 characters accepts.
abbrev narrow : String → Option String
narrow key = if ltb 90 (count key) then some "value too long" else none

abbrev pub batches : (String → Option String) → BatchService
batches grant_error = record {
  env = sample_env;
  quote_batch = λ items usage. some (("parent", whole 1) ∷ ("derivative", whole 2) ∷ []);
  verify_usdc = λ tx recipient amount mint. some (true, "buyer");
  licenses = licensing;
  has_recorder = true;
  usdc_mint = "usdc";
  batch_max_items = none;
  grant_error = grant_error;
  order_by_id = λ items. items;
}

abbrev sample_order : BatchOrder
sample_order = record {
  id = "order";
  buyer_agent_id = "agent";
  total_usdc = whole 3;
  status = quoted;
  payment_tx_sig = none;
}

abbrev sample_item : BatchItem
sample_item = record {
  id = "10000000-0000-4000-8000-000000000000";
  order = "order";
  asset = parent_asset;
  unit_price_usdc = whole 1;
  license = none;
}

abbrev ordered : World
ordered = record empty_world { orders = sample_order ∷ []; items = sample_item ∷ [] }

abbrev closed_order : BatchOrder
closed_order = record sample_order { status = settled; payment_tx_sig = some "tx1" }

abbrev settled_world : World
settled_world = (settle_batch_order (batches wide) "order" "tx1" none ordered).1

abbrev granted : BatchSettleResult → List BatchItemResult
granted (done status order good bad) = good
granted (refused error) = []
granted BatchSettleResult.raised = []

abbrev paid_tx : String
paid_tx = "tx1"

settle_batch_order-IsReplay_example :
    ((settle_batch_order (batches wide) "order" "tx1" none settled_world).1 ≡ settled_world)
    × (((paid_tx ≡ paid_tx)
          × IsReplay
              (batches wide)
              settled_world
              settled
              closed_order
              (settle_batch_order (batches wide) "order" "tx1" none settled_world).0)
        ⊎ ((paid_tx ≢ paid_tx)
            × ((settle_batch_order (batches wide) "order" "tx1" none settled_world).0
                ≡ refused "already_settled")))
unfolding settle_batch_order verify_payment close_order
settle_batch_order-IsReplay_example =
    settle_batch_order-IsReplay (batches wide) "order" "tx1" "tx1" none none ordered settled_world
      settled closed_order
      (granted (settle_batch_order (batches wide) "order" "tx1" none ordered).0) [] refl

abbrev long_tx : String
long_tx = "5VERv8NMvzbJMEkV8xnrLkEaWRtSz9CosKDYjCJjBRnbJLgp8uirBgmQpjKhoR4tjF3ZpRzrFmBV6UjKdiSZkQUW"

refuses_long : (key : String) → 90 < count key → narrow key ≢ none
refuses_long key h = ground arith

settle_items-overlong_example :
    ((settle_items (batches narrow) long_tx "buyer" 0 (sample_item ∷ []) ordered).0.0 ≡ [])
    × ((settle_items (batches narrow) long_tx "buyer" 0 (sample_item ∷ []) ordered).1 ≡ ordered)
settle_items-overlong_example =
    settle_items-overlong (batches narrow) long_tx "buyer" 0 (sample_item ∷ []) ordered refuses_long
      (omega arith) (refl, tt)
