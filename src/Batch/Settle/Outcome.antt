-- ===== src/Batch/Settle/Outcome.antt =====
-- What `settle_batch_order` of veriproof/apps/settlement/batch_services.py promises.
use veri_proof_hackerton.Prelude.{
  ℕ, suc, String, Bool, true, false, Option, none, some, List, [], ◌∷◌, ◌&&◌, ◌+◌, length, ◌≡◌, ap,
  if-both,
}
use veri_proof_hackerton.Models.{BatchOrder, BatchItem, OrderStatus, settled, partial, World}
use veri_proof_hackerton.Events.{best_effort-SameRows, audit_insert}
use veri_proof_hackerton.License.Idempotence.{grant-HasUniqueTx, grant_keeps}
use veri_proof_hackerton.Settlement.Pipeline.{IsConsistent, IsConsistent-SameRows}
use veri_proof_hackerton.Batch.{BatchService}
use veri_proof_hackerton.Batch.Settle.{
  BatchItemResult, BatchSettleResult, refused, raised, done, is_final, item_purchase, link_license,
  log_transaction, grant_item, settle_items, save_order, close_order, order_by_key, settle_order,
  settle_batch_order, after_verification, verify_payment, items_of, paid_by, item_key, Split,
  settle_item, record_order_event, wallet_of,
}
use veri_proof_hackerton.Batch.Settle.Reports.{AllReported}

grant_item-IsConsistent :
    (s : BatchService) (tx wallet : String) (idx : ℕ) (item : BatchItem) (w : World)
    → IsConsistent w
    → IsConsistent (grant_item s tx wallet idx item w).1
unfolding grant_item link_license log_transaction audit_insert
grant_item-IsConsistent s tx wallet idx item w (unique, balanced) =
    let (rows, transfers, _) =
      grant_keeps s.licenses s.env item.asset (item_purchase tx wallet item) w in
    (
      grant-HasUniqueTx s.licenses s.env item.asset (item_purchase tx wallet item) w unique,
      rw (rows, transfers) balanced,
    )

settle_item-IsConsistent :
    (s : BatchService) (tx wallet : String) (idx : ℕ) (item : BatchItem) (w : World)
    (answer : Option String)
    → IsConsistent w
    → IsConsistent (settle_item s tx wallet idx item w answer).1
settle_item-IsConsistent s tx wallet idx item w none ok =
    grant_item-IsConsistent s tx wallet idx item w ok
settle_item-IsConsistent s tx wallet idx item w (some message) ok = ok

settle_items-IsConsistent :
    (s : BatchService) (tx wallet : String) (idx : ℕ) (items : List BatchItem) (w : World)
    → IsConsistent w
    → IsConsistent (settle_items s tx wallet idx items w).1
settle_items-IsConsistent s tx wallet idx [] w ok = ok
settle_items-IsConsistent s tx wallet idx (item ∷ rest) w ok =
    settle_items-IsConsistent s tx wallet (suc idx) rest _
      (settle_item-IsConsistent s tx wallet idx item w (s.grant_error (item_key tx item.id)) ok)

abbrev EndsConsistent : BatchSettleResult × World → Type 0
EndsConsistent x = IsConsistent x.1

module _ (s : BatchService) (order : BatchOrder) (tx : String) (w : World) where
  close_order-IsConsistent :
      (x : Split × World) → IsConsistent x.1 → IsConsistent (close_order s order tx x).1
  unfolding close_order save_order record_order_event
  close_order-IsConsistent ((good, bad), w') ok =
      IsConsistent-SameRows _ _ (best_effort-SameRows s.has_recorder s.env _ _ none none _) ok

  after_verification-IsConsistent :
      (wallet : Option String) (verdict : Option (Bool × String))
      → IsConsistent w
      → IsConsistent (after_verification s order tx wallet w verdict).1
  after_verification-IsConsistent wallet none ok = ok
  after_verification-IsConsistent wallet (some (false, sender)) ok = ok
  after_verification-IsConsistent wallet (some (true, sender)) ok =
      close_order-IsConsistent _
        (settle_items-IsConsistent s tx (wallet_of wallet sender) 0 (items_of s order w) w ok)

  settle_order-IsConsistent :
      (wallet : Option String) → IsConsistent w → IsConsistent (settle_order s order tx wallet w).1
  settle_order-IsConsistent wallet ok =
      if-both EndsConsistent (paid_by tx order.payment_tx_sig && is_final order.status) _ _ ok (
        if-both EndsConsistent (is_final order.status) _ _ ok (
          after_verification-IsConsistent wallet (verify_payment s order (items_of s order w) tx)
            ok))

-- Settling an order, however it ends, keeps the tables consistent: payments stay unique, and the
-- settled royalty rows agree with the transfers.
pub settle_batch_order-IsConsistent :
    (s : BatchService) (key tx : String) (wallet : Option String) (w : World)
    → IsConsistent w
    → IsConsistent (settle_batch_order s key tx wallet w).1
unfolding settle_batch_order
settle_batch_order-IsConsistent s key tx wallet w ok = go (order_by_key key w.orders)
  where
    go :
        (found : Option BatchOrder)
        → EndsConsistent (elim found [
          | none ↦ (refused "not_found", w)
          | some order ↦ settle_order s order tx wallet w
        ])
    go none = ok
    go (some order) = settle_order-IsConsistent s order tx w wallet ok

pub settle_known :
    (s : BatchService) (key : String) (order : BatchOrder) (tx : String) (wallet : Option String)
    (w : World)
    → order_by_key key w.orders ≡ some order
    → settle_batch_order s key tx wallet w ≡ settle_order s order tx wallet w
unfolding settle_batch_order
settle_known s key order tx wallet w known =
    ap
      (λ found. elim found [
        | none ↦ (refused "not_found", w)
        | some o ↦ settle_order s o tx wallet w
      ])
      known

abbrev pub verdict_of : Option (Bool × String) → Option Bool
verdict_of none = none
verdict_of (some (valid, _)) = some valid

-- Settled where no item failed, and partial where one did.
abbrev pub IsStatus : OrderStatus → List BatchItemResult → Type 0
IsStatus status [] = status ≡ settled
IsStatus status (x ∷ bad) = status ≡ partial

-- How a first attempt on an order ends: one that is done has a verified payment, has a result for
-- each item, and is partial exactly if an item failed; any other end leaves everything as it was.
abbrev pub IsAccounted :
    BatchService → BatchOrder → String → World → BatchSettleResult × World → Type 0
IsAccounted s order tx w (refused error, w') = w' ≡ w
IsAccounted s order tx w (raised, w') = w' ≡ w
IsAccounted s order tx w (done status closed good bad, w') =
    (verdict_of (verify_payment s order (items_of s order w) tx) ≡ some true)
    × (length good + length bad ≡ length (items_of s order w))
    × AllReported (good, bad) (items_of s order w)
    × IsStatus status bad
    × (closed ≡ record order { status = status; payment_tx_sig = some tx })
