-- ===== src/Batch/Settle/Replay.antt =====
-- Repeated calls of `settle_batch_order` of veriproof/apps/settlement/batch_services.py.
use veri_proof_hackerton.Prelude.{
  ℕ, suc, String, Bool, true, false, Option, none, some, List, [], ◌∷◌, map, ◌&&◌, if◌then◌else◌,
  ◌≡◌, ◌≢◌, ◌⊎◌, inl, inr, sym, eq_iff, ◌==◌, Bool-cases, refl, ap, ◌∙◌, arith, both_true, if-split,
  if-both,
}
use mathlib.Core.Path.{subst}
use text.Mathlib.TextPositions.{eq_refl}
use veri_proof_hackerton.Models.{
  BatchOrder, BatchItem, OrderStatus, quoted, paid, settled, partial, failed, World,
}
use veri_proof_hackerton.Events.{best_effort-SameRows, audit_insert}
use veri_proof_hackerton.License.Idempotence.{grant_orders}
use veri_proof_hackerton.Batch.{BatchService}
use veri_proof_hackerton.Batch.Settle.Outcome.{settle_known}
use veri_proof_hackerton.Batch.Settle.{
  BatchItemResult, BatchSettleResult, refused, raised, done, is_final, item_purchase, link_license,
  log_transaction, grant_item, settle_items, final_status, save_order, close_order, order_by_key,
  settle_order, settle_batch_order, after_verification, verify_payment, items_of, rebuild_result,
  paid_by, rebuild_items, item_success, item_failure, token_of, license_by_id, item_key, Split,
  settle_item, save_row, rebuilt_status, record_order_event, wallet_of,
}

-- The loop writes no order.
grant-orders :
    (s : BatchService) (tx wallet : String) (idx : ℕ) (item : BatchItem) (w : World)
    → (grant_item s tx wallet idx item w).1.orders ≡ w.orders
unfolding grant_item link_license log_transaction audit_insert
grant-orders s tx wallet idx item w =
    grant_orders s.licenses s.env item.asset (item_purchase tx wallet item) w

settle_item-orders :
    (s : BatchService) (tx wallet : String) (idx : ℕ) (item : BatchItem) (w : World)
    (answer : Option String)
    → (settle_item s tx wallet idx item w answer).1.orders ≡ w.orders
settle_item-orders s tx wallet idx item w none = grant-orders s tx wallet idx item w
settle_item-orders s tx wallet idx item w (some message) = refl

settle_items-orders :
    (s : BatchService) (tx wallet : String) (idx : ℕ) (items : List BatchItem) (w : World)
    → (settle_items s tx wallet idx items w).1.orders ≡ w.orders
settle_items-orders s tx wallet idx [] w = refl
settle_items-orders s tx wallet idx (item ∷ rest) w =
    settle_items-orders s tx wallet (suc idx) rest _
    ∙ settle_item-orders s tx wallet idx item w (s.grant_error (item_key tx item.id))

save_row_self :
    (status : OrderStatus) (sig : Option String) (order : BatchOrder)
    → let closed : BatchOrder = record order { status = status; payment_tx_sig = sig } in
      save_row closed order ≡ closed
save_row_self status sig order = rw (eq_refl order.id)

lookup-save_order :
    (key : String) (order closed : BatchOrder) (rows : List BatchOrder)
    → order_by_key key rows ≡ some order
    → order_by_key key (map (save_row closed) rows) ≡ some (save_row closed order)
lookup-save_order key order closed [] h = cc
lookup-save_order key order closed (x ∷ rows) h =
    ground (arith, lookup-save_order key order closed rows)

is_final-final_status : (bad : List BatchItemResult) → is_final (final_status bad) ≡ true
is_final-final_status [] = refl
is_final-final_status (x ∷ bad) = refl

module _ (s : BatchService) (order : BatchOrder) (tx : String) (w : World) where
  close_order-orders :
      (x : Split × World)
      → x.1.orders ≡ w.orders
      → (close_order s order tx x).1.orders
        ≡ map
            (save_row (record order { status = final_status x.0.1; payment_tx_sig = some tx }))
            w.orders
  unfolding close_order save_order record_order_event
  close_order-orders ((good, bad), w') same =
      (best_effort-SameRows s.has_recorder s.env _ _ none none _).orders
      ∙ ap (map (save_row (record order { status = final_status bad; payment_tx_sig = some tx })))
          same

rebuilt_status_final :
    (status : OrderStatus) → is_final status ≡ true → rebuilt_status status ≡ status
rebuilt_status_final quoted h = cc
rebuilt_status_final paid h = cc
rebuilt_status_final settled h = refl
rebuilt_status_final partial h = refl
rebuilt_status_final failed h = cc

paid_by-some : (tx : String) (sig : Option String) → paid_by tx sig ≡ true → sig ≡ some tx
paid_by-some tx none h = absurd cc
paid_by-some tx (some s) h = ap (λ x. some x) ((eq_iff s tx).0 h)

-- The order that an attempt reports as done is the stored one, closed under the payment.
abbrev IsClosed : String → String → World → BatchSettleResult × World → Type 0
IsClosed key tx w (refused error, w') = w' ≡ w
IsClosed key tx w (raised, w') = w' ≡ w
IsClosed key tx w (done status closed good bad, w') =
    (order_by_key key w'.orders ≡ some closed)
    × (is_final closed.status ≡ true)
    × (closed.payment_tx_sig ≡ some tx)
    × (status ≡ closed.status)

module _ (s : BatchService) (key : String) (order : BatchOrder) (tx : String)
    (wallet : Option String) (w : World) (known : order_by_key key w.orders ≡ some order) where
  close_order-IsClosed :
      (x : Split × World) → x.1.orders ≡ w.orders → IsClosed key tx w (close_order s order tx x)
  unfolding close_order
  close_order-IsClosed ((good, bad), w') same =
      let closed : BatchOrder = record order {
        status = final_status bad;
        payment_tx_sig = some tx;
      } in
      (
        ap (order_by_key key) (close_order-orders s order tx w ((good, bad), w') same)
            ∙ lookup-save_order key order closed w.orders known
            ∙ ap (λ o. some o) (save_row_self (final_status bad) (some tx) order),
        is_final-final_status bad,
        refl,
        refl,
      )

  after_verification-IsClosed :
      (verdict : Option (Bool × String))
      → IsClosed key tx w (after_verification s order tx wallet w verdict)
  after_verification-IsClosed none = refl
  after_verification-IsClosed (some (false, sender)) = refl
  after_verification-IsClosed (some (true, sender)) =
      close_order-IsClosed _
        (settle_items-orders s tx (wallet_of wallet sender) 0 (items_of s order w) w)

  settle_order-IsClosed : IsClosed key tx w (settle_order s order tx wallet w)
  unfolding rebuild_result
  settle_order-IsClosed =
      if-split (IsClosed key tx w) (paid_by tx order.payment_tx_sig && is_final order.status) _ _
        (λ replayed. rebuilt (both_true _ _ replayed).0 (both_true _ _ replayed).1)
        λ _.
          if-both (IsClosed key tx w) (is_final order.status) _ _ refl
            (after_verification-IsClosed (verify_payment s order (items_of s order w) tx))
    where
      rebuilt :
          paid_by tx order.payment_tx_sig ≡ true
          → is_final order.status ≡ true
          → IsClosed key tx w (rebuild_result s order w, w)
      rebuilt by_tx final = (
        known,
        final,
        paid_by-some tx order.payment_tx_sig by_tx,
        rebuilt_status_final order.status final,
      )

settle_batch_order-IsClosed :
    (s : BatchService) (key tx : String) (wallet : Option String) (w : World)
    → IsClosed key tx w (settle_batch_order s key tx wallet w)
unfolding settle_batch_order
settle_batch_order-IsClosed s key tx wallet w = go (order_by_key key w.orders) refl
  where
    go :
        (found : Option BatchOrder)
        → order_by_key key w.orders ≡ found
        → IsClosed key tx w (elim found [
          | none ↦ (refused "not_found", w)
          | some order ↦ settle_order s order tx wallet w
        ])
    go none e = refl
    go (some order) e = settle_order-IsClosed s key order tx wallet w e

final_cases :
    (p final : Bool) (r e : BatchSettleResult) (z : BatchSettleResult × World) (w : World)
    → final ≡ true
    → (if p && final then (r, w) else if final then (e, w) else z) ≡ (if p then r else e, w)
final_cases true true r e z w h = refl
final_cases false true r e z w h = refl
final_cases p false r e z w h = cc

settle_order_closed :
    (s : BatchService) (order : BatchOrder) (tx : String) (wallet : Option String) (w : World)
    → is_final order.status ≡ true
    → settle_order s order tx wallet w ≡ (
      if paid_by tx order.payment_tx_sig
          then rebuild_result s order w
          else refused "already_settled",
      w,
    )
settle_order_closed s order tx wallet w final =
    final_cases (paid_by tx order.payment_tx_sig) (is_final order.status) _ _ _ w final

-- The results that the stored items give: a success with its license for an item that has one, and
-- a failure for any other.
pub data Rebuilt (w : World)
    : List BatchItem → List BatchItemResult → List BatchItemResult → Type 0 where
  none_left : Rebuilt w [] [] []
  has_license :
      (item : BatchItem) (id : String) (rest : List BatchItem) (good bad : List BatchItemResult)
      → item.license ≡ some id
      → Rebuilt w rest good bad
      → Rebuilt w (item ∷ rest) (item_success item id (token_of (license_by_id id w)) ∷ good) bad
  has_none :
      (item : BatchItem) (rest : List BatchItem) (good bad : List BatchItemResult)
      → item.license ≡ none
      → Rebuilt w rest good bad
      → Rebuilt w (item ∷ rest) good (item_failure item "grant_failed" ∷ bad)

rebuild_items-Rebuilt :
    (w : World) (items : List BatchItem)
    → Rebuilt w items (rebuild_items w items).0 (rebuild_items w items).1
rebuild_items-Rebuilt w [] = none_left
rebuild_items-Rebuilt w (item ∷ rest) =
    go (rebuild_items w rest) (rebuild_items-Rebuilt w rest) item.license refl
  where
    go :
        (later : Split)
        → Rebuilt w rest later.0 later.1
        → (license : Option String) → item.license ≡ license
        → let all : Split = elim license [
          | none ↦ (later.0, item_failure item "grant_failed" ∷ later.1)
          | some id ↦ (item_success item id (token_of (license_by_id id w)) ∷ later.0, later.1)
        ] in
          Rebuilt w (item ∷ rest) all.0 all.1
    go later h none e = has_none item rest later.0 later.1 e h
    go later h (some id) e = has_license item id rest later.0 later.1 e h

-- The reply to the payment of the order: its status, the order, and the results of its items.
abbrev pub IsReplay : BatchService → World → OrderStatus → BatchOrder → BatchSettleResult → Type 0
IsReplay s w status closed (refused error) = ⊥
IsReplay s w status closed raised = ⊥
IsReplay s w status closed (done status' closed' good bad) =
    (status' ≡ status) × (closed' ≡ closed) × Rebuilt w (items_of s closed w) good bad

rebuild_result-IsReplay :
    (s : BatchService) (w : World) (status : OrderStatus) (closed : BatchOrder)
    → is_final closed.status ≡ true
    → status ≡ closed.status
    → IsReplay s w status closed (rebuild_result s closed w)
unfolding rebuild_result
rebuild_result-IsReplay s w status closed final same = (
  rebuilt_status_final closed.status final ∙ sym same,
  refl,
  rebuild_items-Rebuilt w (items_of s closed w),
)

-- Once an attempt on an order is done by a payment, no later attempt changes anything: by the same
-- payment it is answered with the order, its status and the results of its stored items, and by any
-- other payment it is refused.
pub settle_batch_order-IsReplay :
    (s : BatchService) (key tx tx' : String) (wallet wallet' : Option String) (w w' : World)
    (status : OrderStatus) (closed : BatchOrder) (good bad : List BatchItemResult)
    → settle_batch_order s key tx wallet w ≡ (done status closed good bad, w')
    → ((settle_batch_order s key tx' wallet' w').1 ≡ w')
      × (((tx' ≡ tx) × IsReplay s w' status closed (settle_batch_order s key tx' wallet' w').0)
          ⊎ ((tx' ≢ tx)
              × ((settle_batch_order s key tx' wallet' w').0 ≡ refused "already_settled")))
settle_batch_order-IsReplay s key tx tx' wallet wallet' w w' status closed good bad h =
    let (stored, final, by_tx, same) =
      subst (IsClosed key tx w) h (settle_batch_order-IsClosed s key tx wallet w) in
    let answer =
      settle_known s key closed tx' wallet' w' stored
      ∙ settle_order_closed s closed tx' wallet' w' final in
    let reply : Bool → BatchSettleResult =
      λ b. if b then rebuild_result s closed w' else refused "already_settled" in
    let test : paid_by tx' closed.payment_tx_sig ≡ (tx == tx') = ap (paid_by tx') by_tx in
    let first = ap (λ x. x.0) answer ∙ ap reply test in
    (
      ap (λ x. x.1) answer,
      elim (Bool-cases (tx == tx')) [
        | inl e ↦ inl (
          sym ((eq_iff tx tx').0 e),
          subst (IsReplay s w' status closed) (sym (first ∙ ap reply e))
              (rebuild_result-IsReplay s w' status closed final same),
        )
        | inr e ↦ inr (λ k. absurd (let yes = (eq_iff tx tx').1 (sym k) in cc), first ∙ ap reply e)
      ],
    )
