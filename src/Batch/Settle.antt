-- ===== src/Batch/Settle.antt =====
-- `settle_batch_order` of veriproof/apps/settlement/batch_services.py: the verified payment, a
-- license per item, and the order's final status.
pub mod Reports
pub mod Outcome
pub mod Replay
pub mod Keys
use veri_proof_hackerton.Prelude.{
  ℕ, suc, String, Bool, true, false, Option, none, some, List, [], ◌∷◌, ◌++◌, map, find, ◌==◌, ◌&&◌,
  ◌||◌, append_text, if◌then◌else◌, length, pos, ◌⊎◌, inl, inr,
}
use veri_proof_hackerton.Money.{Decimal}
use veri_proof_hackerton.Models.{
  License, BatchOrder, BatchItem, OrderStatus, quoted, paid, settled, partial, failed, Value, text,
  money, int, instant, null, values, World,
}
use veri_proof_hackerton.Events.{best_effort, audit_insert}
use veri_proof_hackerton.Payment.{resolve_pay_to}
use veri_proof_hackerton.License.{Purchase, grant}
use veri_proof_hackerton.Batch.{BatchService}

pub record BatchItemResult : Type 0 where
  pub item_id : String
  pub asset_id : String
  pub license_id : Option String
  pub download_token : Option String
  pub download_url : Option String
  pub error : Option String
  pub retry : Bool

-- `BatchSettleResult`: `ok=False` with its error, an exception, or the split with the final status.
pub data BatchSettleResult : Type 0 where
  refused : String → BatchSettleResult
  raised : BatchSettleResult
  done : OrderStatus → BatchOrder → List BatchItemResult → List BatchItemResult → BatchSettleResult

-- `order.status in (SETTLED, PARTIAL)`
abbrev pub is_final : OrderStatus → Bool
is_final quoted = false
is_final paid = false
is_final settled = true
is_final partial = true
is_final failed = false

unfoldable pub resolve_mint : BatchService → String
resolve_mint s = if s.usdc_mint == "" then s.env.usdc_mint_address else s.usdc_mint

-- The recipient is the first item's; an order without items is never paid.
unfoldable pub verify_payment :
    BatchService → BatchOrder → List BatchItem → String → Option (Bool × String)
unfolding resolve_mint
verify_payment s order [] tx = some (false, "")
verify_payment s order (item ∷ _) tx =
    s.verify_usdc tx (resolve_pay_to s.env.platform_escrow_pubkey item.asset none) order.total_usdc
      (resolve_mint s)

-- The key under which an item's license is granted.
unfoldable pub item_key : String → String → String
item_key tx item_id = append_text "batch:" (append_text tx (append_text ":" item_id))

unfoldable pub item_purchase : String → String → BatchItem → Purchase
unfolding item_key
item_purchase tx wallet item = record {
  buyer_wallet = wallet;
  price = some item.unit_price_usdc;
  usage_type = "commercial";
  payment_tx = item_key tx item.id;
  session = none;
  buyer_user = none;
  payment_currency = "USDC";
}

abbrev text_or_null : Option String → Value
text_or_null none = null
text_or_null (some s) = text s

abbrev url_of : Option String → Option String
url_of none = none
url_of (some token) = if token == "" then none else some (append_text "/files/" token)

abbrev pub item_success : BatchItem → String → Option String → BatchItemResult
item_success item license_id token = record {
  item_id = item.id;
  asset_id = item.asset.id;
  license_id = some license_id;
  download_token = token;
  download_url = url_of token;
  error = none;
  retry = false;
}

abbrev pub item_failure : BatchItem → String → BatchItemResult
item_failure item message = record {
  item_id = item.id;
  asset_id = item.asset.id;
  license_id = none;
  download_token = none;
  download_url = none;
  error = some (if message == "" then "grant_failed" else message);
  retry = true;
}

-- `item.save(update_fields=["license"])`
unfoldable pub link_license : BatchItem → License → World → World
link_license item license w = record w {
  items = map (λ i. if i.id == item.id then record i { license = some license.id } else i) w.items;
}

unfoldable pub log_transaction :
    BatchService → BatchItem → License → String → String → ℕ → World → World
unfolding item_key
log_transaction s item license tx wallet idx w =
    audit_insert "transactions"
      (values (
        ("tx_time", instant s.env.now)
        ∷ ("asset_id", text item.asset.id)
        ∷ ("buyer_wallet", text wallet)
        ∷ ("price_usdc", money item.unit_price_usdc)
        ∷ ("payment_tx_sig", text (item_key tx item.id))
        ∷ ("certificate_tx_sig", text_or_null license.certificate_tx_sig)
        ∷ ("usage_type", text "commercial")
        ∷ ("batch_item_index", int (pos idx))
        ∷ []))
      w

abbrev pub Split : Type 0
Split = List BatchItemResult × List BatchItemResult

unfoldable pub grant_item : BatchService → String → String → ℕ → BatchItem → World → License × World
unfolding item_purchase link_license log_transaction
grant_item s tx wallet idx item w =
    let (license, w') = grant s.licenses s.env item.asset (item_purchase tx wallet item) w in
    (license, log_transaction s item license tx wallet idx (link_license item license w'))

-- One item, given the database's answer to its key: a success, or a failure and nothing written.
abbrev pub settle_item :
    BatchService
    → String
    → String
    → ℕ
    → BatchItem
    → World
    → Option String
    → (BatchItemResult ⊎ BatchItemResult) × World
settle_item s tx wallet idx item w none =
    let (license, w') = grant_item s tx wallet idx item w in
    (inl (item_success item license.id license.download_token), w')
settle_item s tx wallet idx item w (some message) = (inr (item_failure item message), w)

abbrev pub add_result : BatchItemResult ⊎ BatchItemResult → Split → Split
add_result (inl r) (good, bad) = (r ∷ good, bad)
add_result (inr r) (good, bad) = (good, r ∷ bad)

-- The items in their order: one that is refused is reported and skipped.
abbrev pub settle_items :
    BatchService → String → String → ℕ → List BatchItem → World → Split × World
settle_items s tx wallet idx [] w = (([], []), w)
settle_items s tx wallet idx (item ∷ rest) w =
    let (outcome, w') = settle_item s tx wallet idx item w (s.grant_error (item_key tx item.id)) in
    let (split, w'') = settle_items s tx wallet (suc idx) rest w' in (add_result outcome split, w'')

abbrev pub final_status : List BatchItemResult → OrderStatus
final_status [] = settled
final_status (_ ∷ _) = partial

abbrev pub save_row : BatchOrder → BatchOrder → BatchOrder
save_row order o =
    if o.id == order.id
    then record o { status = order.status; payment_tx_sig = order.payment_tx_sig }
    else o

-- `order.save(update_fields=["status", "payment_tx_sig"])`
unfoldable pub save_order : BatchOrder → World → World
save_order order w = record w { orders = map (save_row order) w.orders }

abbrev event_type : OrderStatus → String
event_type quoted = "BATCH_PARTIAL"
event_type paid = "BATCH_PARTIAL"
event_type settled = "BATCH_SETTLED"
event_type partial = "BATCH_PARTIAL"
event_type failed = "BATCH_PARTIAL"

unfoldable pub record_order_event : BatchService → BatchOrder → OrderStatus → ℕ → ℕ → World → World
record_order_event s order status n_success n_fail w =
    best_effort s.has_recorder s.env (event_type status)
      (("order_id", text order.id)
        ∷ ("payment_tx_sig", text_or_null order.payment_tx_sig)
        ∷ ("successes", int (pos n_success))
        ∷ ("failures", int (pos n_fail))
        ∷ ("total_usdc", money order.total_usdc)
        ∷ [])
      none none w

-- The order takes its final status, and one event tells of it.
unfoldable pub close_order :
    BatchService → BatchOrder → String → Split × World → BatchSettleResult × World
unfolding save_order record_order_event
close_order s order tx ((good, bad), w) =
    let closed : BatchOrder = record order {
      status = final_status bad;
      payment_tx_sig = some tx;
    } in
    (
      done (final_status bad) closed good bad,
      record_order_event s closed (final_status bad) (length good) (length bad)
          (save_order closed w),
    )

abbrev pub license_by_id : String → World → Option License
license_by_id id w = find (λ l. l.id == id) w.licenses

abbrev pub token_of : Option License → Option String
token_of none = none
token_of (some l) = l.download_token

-- The loop of `_rebuild_result`.
abbrev pub rebuild_items : World → List BatchItem → Split
rebuild_items w [] = ([], [])
rebuild_items w (item ∷ rest) =
    let (good, bad) = rebuild_items w rest in
    elim item.license [
      | none ↦ (good, item_failure item "grant_failed" ∷ bad)
      | some id ↦ (item_success item id (token_of (license_by_id id w)) ∷ good, bad)
    ]

-- `order.items.order_by("id")`
abbrev pub items_of : BatchService → BatchOrder → World → List BatchItem
items_of s order w = s.order_by_id (select order.id w.items)
  where
    select : String → List BatchItem → List BatchItem
    select id [] = []
    select id (i ∷ rest) = if i.order == id then i ∷ select id rest else select id rest

abbrev pub rebuilt_status : OrderStatus → OrderStatus
rebuilt_status quoted = partial
rebuilt_status paid = partial
rebuilt_status settled = settled
rebuilt_status partial = partial
rebuilt_status failed = partial

unfoldable pub rebuild_result : BatchService → BatchOrder → World → BatchSettleResult
rebuild_result s order w =
    let (good, bad) = rebuild_items w (items_of s order w) in
    done (rebuilt_status order.status) order good bad

abbrev pub wallet_of : Option String → String → String
wallet_of none sender = sender
wallet_of (some wallet) sender = if wallet == "" then sender else wallet

abbrev pub after_verification :
    BatchService
    → BatchOrder
    → String
    → Option String
    → World
    → Option (Bool × String)
    → BatchSettleResult × World
after_verification s order tx wallet w none = (raised, w)
after_verification s order tx wallet w (some (false, sender)) = (refused "invalid_settlement", w)
after_verification s order tx wallet w (some (true, sender)) =
    close_order s order tx (settle_items s tx (wallet_of wallet sender) 0 (items_of s order w) w)

abbrev pub paid_by : String → Option String → Bool
paid_by tx none = false
paid_by tx (some sig) = sig == tx

abbrev pub settle_order :
    BatchService → BatchOrder → String → Option String → World → BatchSettleResult × World
settle_order s order tx wallet w =
    if paid_by tx order.payment_tx_sig && is_final order.status
    then (rebuild_result s order w, w)
    else if is_final order.status
    then (refused "already_settled", w)
    else after_verification s order tx wallet w (verify_payment s order (items_of s order w) tx)

-- `BatchOrder.objects.get(id=order_id)`
abbrev pub order_by_key : String → List BatchOrder → Option BatchOrder
order_by_key id orders = find (λ o. o.id == id) orders

unfoldable pub settle_batch_order :
    BatchService → String → String → Option String → World → BatchSettleResult × World
unfolding rebuild_result close_order verify_payment
settle_batch_order s order_id tx wallet w = elim (order_by_key order_id w.orders) [
  | none ↦ (refused "not_found", w)
  | some order ↦ settle_order s order tx wallet w
]
