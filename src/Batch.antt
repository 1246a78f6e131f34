-- ===== src/Batch.antt =====
-- veriproof/apps/settlement/batch_services.py: quoting a batch of assets, and settling the order.
-- Gemini's prices, the chain's verdict, the database's ordering and its refusals are parameters.
pub mod Settle
pub mod Totals
use veri_proof_hackerton.Prelude.{
  ℕ, suc, String, Bool, true, false, Option, none, some, List, [], ◌∷◌, ◌++◌, map, find, ◌==◌, ◌&&◌,
  ◌||◌, append_text, if◌then◌else◌, length, ltb, ℤ, pos, ◌+◌, ◌+ℤ◌,
}
use veri_proof_hackerton.Money.{Decimal, to_min_units, from_min_units}
use veri_proof_hackerton.Models.{
  IpAsset, License, BatchOrder, BatchItem, OrderStatus, quoted, paid, settled, partial, failed,
  Value, text, money, int, instant, null, values, World,
}
use veri_proof_hackerton.Env.{Env}
use veri_proof_hackerton.Events.{best_effort, audit_insert}
use veri_proof_hackerton.Payment.{resolve_pay_to}
use veri_proof_hackerton.License.{LicenseService, Purchase, grant}

-- `GeminiService.quote_batch`: the quotes by asset id, in its answer's order; `none` is a
-- `GeminiUnavailableError` or a `GeminiResponseError`, the exceptions that it raises.
abbrev pub QuoteBatch : Type 0
QuoteBatch = List (String × Option Decimal) → String → Option (List (String × Decimal))

-- `SolanaService.verify_usdc_payment`: whether the payment is valid, and its sender.
abbrev pub VerifyTransfer : Type 0
VerifyTransfer = String → String → Decimal → String → Option (Bool × String)

-- `BatchService`, with what it was built from.
pub record BatchService : Type 0 where
  pub env : Env
  pub quote_batch : QuoteBatch
  pub verify_usdc : VerifyTransfer
  pub licenses : LicenseService
  pub has_recorder : Bool
  pub usdc_mint : String
  pub batch_max_items : Option ℕ
  -- the exception with which the database refuses the license of a payment key
  pub grant_error : String → Option String
  -- the rows of `order_by("id")`
  pub order_by_id : List BatchItem → List BatchItem

-- `BatchValidationError` with its `invalid_ids`, Gemini's two errors, another exception, or a result.
pub data QuoteOutcome : Type 0 where
  invalid_items : List String → QuoteOutcome
  too_many_items unavailable raised : QuoteOutcome
  made : BatchOrder → List BatchItem → QuoteOutcome

unfoldable pub effective_batch_max_items : BatchService → ℕ
effective_batch_max_items s = elim s.batch_max_items [ none ↦ s.env.batch_max_items | some n ↦ n ]

-- `dict(...).get(key)` of a dict that is built in this order: the last entry of a key counts.
abbrev pub last_entry {ℓ} : {A : Type ℓ} → String → List (String × A) → Option A
last_entry key [] = none
last_entry key ((k, a) ∷ rest) = elim (last_entry key rest) [
  | none ↦ if k == key then some a else none
  | some b ↦ some b
]

-- `sequence`: every element, or none.
abbrev pub all_some {ℓ} : {A : Type ℓ} → List (Option A) → Option (List A)
all_some [] = some []
all_some (none ∷ xs) = none
all_some (some a ∷ xs) = elim (all_some xs) [ none ↦ none | some rest ↦ some (a ∷ rest) ]

abbrev contains : String → List String → Bool
contains x [] = false
contains x (y ∷ ys) = x == y || contains x ys

-- `found.get(aid)`: an asset of the queried ids whose printed id is `aid`.
abbrev pub found_asset : World → List String → String → Option IpAsset
found_asset w ids aid = find (λ a. a.id == aid && contains a.id ids) w.assets

abbrev pub unknown_ids : World → List String → List String → List String
unknown_ids w ids [] = []
unknown_ids w ids (aid ∷ rest) = elim (found_asset w ids aid) [
  | none ↦ aid ∷ unknown_ids w ids rest
  | some _ ↦ unknown_ids w ids rest
]

abbrev pub sum_units : List Decimal → ℤ
sum_units [] = pos 0
sum_units (p ∷ ps) = to_min_units p +ℤ sum_units ps

abbrev pub new_items : Env → String → ℕ → List (IpAsset × Decimal) → List BatchItem
new_items env order draws [] = []
new_items env order draws ((asset, price) ∷ rest) =
    record {
      id = env.uuid4 draws;
      order = order;
      asset = asset;
      unit_price_usdc = price;
      license = none;
    }
    ∷ new_items env order (suc draws) rest

abbrev pub zip {ℓ κ} : {A : Type ℓ} {B : Type κ} → List A → List B → List (A × B)
zip (x ∷ xs) (y ∷ ys) = (x, y) ∷ zip xs ys
zip [] ys = []
zip (x ∷ xs) [] = []

-- The order and its items are stored, with the total added up in minimum units.
unfoldable pub create_order :
    BatchService → String → List IpAsset → List Decimal → World → QuoteOutcome × World
create_order s buyer_agent_id assets prices w =
    let order : BatchOrder = record {
      id = s.env.uuid4 w.draws;
      buyer_agent_id = buyer_agent_id;
      total_usdc = from_min_units (sum_units prices);
      status = quoted;
      payment_tx_sig = none;
    } in
    let items : List BatchItem = new_items s.env order.id (suc w.draws) (zip assets prices) in
    (
      made order items,
      record w {
        orders = w.orders ++ order ∷ [];
        items = w.items ++ items;
        draws = suc w.draws + length items;
      },
    )

abbrev pub or_commercial : String → String
or_commercial usage = if usage == "" then "commercial" else usage

-- Every asked id takes its price from the answer; a missing one raises.
abbrev pub priced :
    BatchService
    → String
    → List String
    → List IpAsset
    → World
    → Option (List (String × Decimal))
    → QuoteOutcome × World
priced s buyer_agent_id asset_ids assets w none = (unavailable, w)
priced s buyer_agent_id asset_ids assets w (some quotes) =
    elim (all_some (map (λ aid. last_entry aid quotes) asset_ids)) [
      | none ↦ (raised, w)
      | some prices ↦ create_order s buyer_agent_id assets prices w
    ]

abbrev pub min_prices : List String → List IpAsset → List (String × Option Decimal)
min_prices ids assets = zip ids (map (λ a. a.min_price_usdc) assets)

abbrev pub quote_resolved :
    BatchService → String → List String → String → List String → World → QuoteOutcome × World
quote_resolved s buyer_agent_id asset_ids usage_type ids w =
    elim (all_some (map (found_asset w ids) asset_ids)) [
      | none ↦ (invalid_items (unknown_ids w ids asset_ids), w)
      | some assets ↦
          priced s buyer_agent_id asset_ids assets w
            (s.quote_batch (min_prices asset_ids assets) (or_commercial usage_type))
    ]

-- The query by id raises when a text is no UUID.
unfoldable pub quote_batch_order :
    BatchService → String → List String → String → World → QuoteOutcome × World
unfolding effective_batch_max_items
quote_batch_order s buyer_agent_id [] usage_type w = (invalid_items [], w)
quote_batch_order s buyer_agent_id (aid ∷ rest) usage_type w =
    let asset_ids : List String = aid ∷ rest in
    if ltb (effective_batch_max_items s) (length asset_ids)
    then (too_many_items, w)
    else elim (all_some (map s.env.parse_uuid asset_ids)) [
      | none ↦ (raised, w)
      | some ids ↦ quote_resolved s buyer_agent_id asset_ids usage_type ids w
    ]
