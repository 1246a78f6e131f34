-- ===== src/Web/Batches.antt =====
-- POST /api/v1/ip/batch/negotiate and .../settle: `batch_negotiate` and `batch_settle` of
-- veriproof/apps/settlement/views_api.py.
use veri_proof_hackerton.Prelude.{
  ℕ, String, not, Option, none, some, List, [], ◌∷◌, map, ◌⊎◌, inl, inr, ◌==◌, if◌then◌else◌, ◌≡◌,
  refl, sym, if-both,
}
use mathlib.Core.Path.{subst}
use veri_proof_hackerton.Models.{BatchOrder, BatchItem, OrderStatus, World}
use veri_proof_hackerton.Json.{Json, Fields, get, as_list, truthy}
use veri_proof_hackerton.Settlement.Pipeline.{IsConsistent}
use veri_proof_hackerton.Batch.{
  BatchService, QuoteOutcome, invalid_items, too_many_items, unavailable, made, quote_batch_order,
}
use veri_proof_hackerton.Batch.Totals.{IsQuoted, quote_batch_order-IsQuoted}
use veri_proof_hackerton.Batch.Settle.{
  BatchItemResult, BatchSettleResult, refused, done, settle_batch_order,
}
use veri_proof_hackerton.Batch.Settle.Outcome.{settle_batch_order-IsConsistent}
use veri_proof_hackerton.License.Idempotence.{HasUniqueTx}
use veri_proof_hackerton.Web.{Request, Library, Failure, failure, json_object, stripped}

-- 200 with the order and its items; 422 with the ids that are not known; or an error.
pub data QuoteReply : Type 0 where
  quoted : BatchOrder → List BatchItem → QuoteReply
  unknown_items : List String → QuoteReply
  error : Failure → QuoteReply
  crashed : QuoteReply

abbrev pub quote_reply : QuoteOutcome × World → QuoteReply × World
quote_reply (invalid_items [], w) = (error (failure "invalid_items" 422), w)
quote_reply (invalid_items (id ∷ ids), w) = (unknown_items (id ∷ ids), w)
quote_reply (too_many_items, w) = (error (failure "too_many_items" 422), w)
quote_reply (unavailable, w) = (error (failure "batch_pricing_unavailable" 503), w)
quote_reply (QuoteOutcome.raised, w) = (crashed, w)
quote_reply (made order items, w) = (quoted order items, w)

-- `data.get("usage_type") or "commercial"`, which is only compared and printed.
abbrev usage_text : Library → Json → String
usage_text lib usage = if truthy usage then lib.str_of usage else "commercial"

abbrev pub quote_items :
    BatchService → Library → Json → World → Option (List Json) → Option String → QuoteReply × World
quote_items s lib usage w none buyer = (error (failure "invalid_items" 422), w)
quote_items s lib usage w (some items) none = (crashed, w)
quote_items s lib usage w (some items) (some buyer) =
    quote_reply (quote_batch_order s buyer (map lib.str_of items) (usage_text lib usage) w)

abbrev pub quote_data : BatchService → Library → World → Failure ⊎ Fields → QuoteReply × World
quote_data s lib w (inl f) = (error f, w)
quote_data s lib w (inr data_) =
    quote_items s lib (get "usage_type" data_) w (as_list (get "items" data_))
      (stripped s.env (get "buyer_agent_id" data_))

unfoldable pub batch_negotiate : BatchService → Library → Request → World → QuoteReply × World
batch_negotiate s lib request w =
    if not request.is_post
    then (error (failure "method_not_allowed" 405), w)
    else quote_data s lib w (json_object lib request)

-- 200 with the status, the order, and the granted and the failed items; an error; or an exception.
pub data BatchReply : Type 0 where
  settled : OrderStatus → BatchOrder → List BatchItemResult → List BatchItemResult → BatchReply
  error : Failure → BatchReply
  crashed : BatchReply

-- `{...}.get(result.error or "", 400)`
unfoldable pub refusal_status : String → ℕ
refusal_status code =
    if code == "invalid_settlement"
    then 400
    else if code == "not_found"
    then 404
    else if code == "already_settled"
    then 409
    else 400

abbrev pub batch_reply : BatchSettleResult × World → BatchReply × World
batch_reply (refused code, w) = (error (failure code (refusal_status code)), w)
batch_reply (BatchSettleResult.raised, w) = (crashed, w)
batch_reply (done status order good bad, w) = (settled status order good bad, w)

abbrev or_none : String → Option String
or_none wallet = if wallet == "" then none else some wallet

abbrev settle_wallet : BatchService → String → String → World → Option String → BatchReply × World
settle_wallet s order_id tx w none = (crashed, w)
settle_wallet s order_id tx w (some wallet) =
    batch_reply (settle_batch_order s order_id tx (or_none wallet) w)

-- The query of the order by id raises for a text that is no UUID.
abbrev known_order :
    BatchService → String → String → World → Option String → Option String → BatchReply × World
known_order s tx id w none wallet = (crashed, w)
known_order s tx id w (some order_id) wallet = settle_wallet s order_id tx w wallet

abbrev pub settle_fields :
    BatchService → World → Json → Option String → Option String → BatchReply × World
settle_fields s w wallet none tx = (crashed, w)
settle_fields s w wallet (some order_id) none = (crashed, w)
settle_fields s w wallet (some order_id) (some tx) =
    if order_id == ""
    then (error (failure "invalid_order_id" 422), w)
    else if tx == ""
    then (error (failure "invalid_tx_signature" 422), w)
    else known_order s tx order_id w (s.env.parse_uuid order_id) (stripped s.env wallet)

abbrev pub settle_data : BatchService → World → Failure ⊎ Fields → BatchReply × World
settle_data s w (inl f) = (error f, w)
settle_data s w (inr data_) =
    settle_fields s w (get "buyer_wallet" data_) (stripped s.env (get "order_id" data_))
      (stripped s.env (get "tx_signature" data_))

unfoldable pub batch_settle : BatchService → Library → Request → World → BatchReply × World
unfolding refusal_status
batch_settle s lib request w =
    if not request.is_post
    then (error (failure "method_not_allowed" 405), w)
    else settle_data s w (json_object lib request)

-- How a request for a quote is answered: a 200 prices the asked items as `IsQuoted` says, and every
-- other answer has changed nothing.
abbrev pub IsQuoteAnswered : BatchService → World → QuoteReply × World → Type 0
IsQuoteAnswered s w (quoted order items, w') =
    (ids : List String) × (usage : String) × IsQuoted s ids usage w (made order items, w')
IsQuoteAnswered s w (unknown_items ids, w') = w' ≡ w
IsQuoteAnswered s w (error f, w') = w' ≡ w
IsQuoteAnswered s w (crashed, w') = w' ≡ w

quote_reply-IsQuoteAnswered :
    (s : BatchService) (ids : List String) (usage : String) (w : World) (o : QuoteOutcome × World)
    → IsQuoted s ids usage w o
    → IsQuoteAnswered s w (quote_reply o)
quote_reply-IsQuoteAnswered s ids usage w (invalid_items [], w') h = h
quote_reply-IsQuoteAnswered s ids usage w (invalid_items (id ∷ rest), w') h = h
quote_reply-IsQuoteAnswered s ids usage w (too_many_items, w') h = h
quote_reply-IsQuoteAnswered s ids usage w (unavailable, w') h = h
quote_reply-IsQuoteAnswered s ids usage w (QuoteOutcome.raised, w') h = h
quote_reply-IsQuoteAnswered s ids usage w (made order items, w') h = (ids, usage, h)

-- Whatever is sent to negotiate a batch: a 200 comes with a stored order that prices every item
-- that was asked for, with the sum of the prices as its total; every other answer, a crash
-- included, has changed nothing.
pub batch_negotiate-IsQuoteAnswered :
    (s : BatchService) (lib : Library) (request : Request) (w : World)
    → IsQuoteAnswered s w (batch_negotiate s lib request w)
unfolding batch_negotiate
batch_negotiate-IsQuoteAnswered s lib request w =
    if-both (IsQuoteAnswered s w) (not request.is_post) _ _ refl (go (json_object lib request))
  where
    asked :
        (usage : Json) (items : Option (List Json)) (buyer : Option String)
        → IsQuoteAnswered s w (quote_items s lib usage w items buyer)
    asked usage none buyer = refl
    asked usage (some items) none = refl
    asked usage (some items) (some buyer) =
        quote_reply-IsQuoteAnswered s (map lib.str_of items) (usage_text lib usage) w _
          (quote_batch_order-IsQuoted s buyer (map lib.str_of items) (usage_text lib usage) w)

    go : (r : Failure ⊎ Fields) → IsQuoteAnswered s w (quote_data s lib w r)
    go (inl f) = refl
    go (inr data_) =
        asked (get "usage_type" data_) (as_list (get "items" data_))
          (stripped s.env (get "buyer_agent_id" data_))

abbrev Ends : BatchReply × World → Type 0
Ends x = IsConsistent x.1

batch_reply-Ends : (o : BatchSettleResult × World) → IsConsistent o.1 → Ends (batch_reply o)
batch_reply-Ends (refused code, w) ok = ok
batch_reply-Ends (BatchSettleResult.raised, w) ok = ok
batch_reply-Ends (done status order good bad, w) ok = ok

-- The endpoint that settles a batch keeps the tables consistent, whatever it is sent.
pub batch_settle-IsConsistent :
    (s : BatchService) (lib : Library) (request : Request) (w : World)
    → IsConsistent w
    → IsConsistent (batch_settle s lib request w).1
unfolding batch_settle
batch_settle-IsConsistent s lib request w ok =
    if-both Ends (not request.is_post) _ _ ok (go (json_object lib request))
  where
    paid :
        (key tx : String) (order_id wallet : Option String)
        → Ends (known_order s tx key w order_id wallet)
    paid key tx none wallet = ok
    paid key tx (some order_id) none = ok
    paid key tx (some order_id) (some wallet) =
        batch_reply-Ends _ (settle_batch_order-IsConsistent s order_id tx (or_none wallet) w ok)

    fields :
        (wallet : Json) (order_id tx : Option String) → Ends (settle_fields s w wallet order_id tx)
    fields wallet none tx = ok
    fields wallet (some order_id) none = ok
    fields wallet (some order_id) (some tx) = if-both Ends (order_id == "") _ _ ok (
        if-both Ends (tx == "") _ _ ok
          (paid order_id tx (s.env.parse_uuid order_id) (stripped s.env wallet)))

    go : (r : Failure ⊎ Fields) → Ends (settle_data s w r)
    go (inl f) = ok
    go (inr data_) =
        fields (get "buyer_wallet" data_) (stripped s.env (get "order_id" data_))
          (stripped s.env (get "tx_signature" data_))

pub batch_negotiate-IsConsistent :
    (s : BatchService) (lib : Library) (request : Request) (w : World)
    → IsConsistent w
    → IsConsistent (batch_negotiate s lib request w).1
batch_negotiate-IsConsistent s lib request w ok =
    go (batch_negotiate s lib request w) (batch_negotiate-IsQuoteAnswered s lib request w)
  where
    go : (o : QuoteReply × World) → IsQuoteAnswered s w o → IsConsistent o.1
    go (quoted order items, w')
          (ids, usage, (_, _, _, _, _, _, licenses, _, distributions, transfers)) =
        (subst HasUniqueTx (sym licenses) ok.0, rw (distributions, transfers) ok.1)
    go (unknown_items ids, w') h = subst IsConsistent (sym h) ok
    go (error f, w') h = subst IsConsistent (sym h) ok
    go (crashed, w') h = subst IsConsistent (sym h) ok
