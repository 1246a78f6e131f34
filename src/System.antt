-- ===== src/System.antt =====
-- The server as a whole: the requests of veriproof/apps/negotiation/views_api.py and
-- veriproof/apps/settlement/views_api.py in any order, on one set of tables.
use veri_proof_hackerton.Prelude.{String}
use veri_proof_hackerton.Models.{World}
use veri_proof_hackerton.Env.{Env}
use veri_proof_hackerton.Negotiation.Engine.{Negotiate}
use veri_proof_hackerton.Negotiation.View.{ParseDecimal, Request as Offer}
use veri_proof_hackerton.Negotiation.View.Handler.{negotiate}
use veri_proof_hackerton.Negotiation.View.Handler.Rows.{negotiate_rows}
use veri_proof_hackerton.Settlement.{SettlementService}
use veri_proof_hackerton.Settlement.Pipeline.{IsConsistent, IsConsistent-SameRows}
use veri_proof_hackerton.Batch.{BatchService}
use veri_proof_hackerton.Web.{Request, Library}
use veri_proof_hackerton.Web.Settle.{settle, settle-IsConsistent}
use veri_proof_hackerton.Web.Webhook.{Webhook, paysh_webhook, paysh_webhook-IsConsistent}
use veri_proof_hackerton.Web.Batches.{
  batch_negotiate, batch_settle, batch_negotiate-IsConsistent, batch_settle-IsConsistent,
}

-- One request. What the clock, the chain, the model and the other services answer may differ from
-- request to request.
infix 40 ◌⟶◌ ◌⟶*◌
pub data ◌⟶◌ : World → World → Type 0 where
  negotiated :
      (env : Env) (parse : ParseDecimal) (gemini : Negotiate) (offer : Offer) (w : World)
      → w ⟶ (negotiate env parse gemini offer w).1
  settled :
      (s : SettlementService) (lib : Library) (request : Request) (asset_id : String) (w : World)
      → w ⟶ (settle s lib request asset_id w).1
  notified :
      (s : SettlementService) (lib : Library) (hook : Webhook) (request : Request) (w : World)
      → w ⟶ (paysh_webhook s lib hook request w).1
  batch_negotiated :
      (s : BatchService) (lib : Library) (request : Request) (w : World)
      → w ⟶ (batch_negotiate s lib request w).1
  batch_settled :
      (s : BatchService) (lib : Library) (request : Request) (w : World)
      → w ⟶ (batch_settle s lib request w).1

-- Any number of requests, one after the other.
pub data ◌⟶*◌ : World → World → Type 0 where
  here : {w : World} → w ⟶* w
  next : {w w' w'' : World} → w ⟶ w' → w' ⟶* w'' → w ⟶* w''

⟶-IsConsistent : {w w' : World} → w ⟶ w' → IsConsistent w → IsConsistent w'
⟶-IsConsistent (negotiated env parse gemini offer w) ok =
    negotiate_rows IsConsistent IsConsistent-SameRows (λ w rows h. h) (λ w n h. h) env parse gemini
      offer w ok
⟶-IsConsistent (settled s lib request asset_id w) ok =
    settle-IsConsistent s lib request asset_id w ok
⟶-IsConsistent (notified s lib hook request w) ok =
    paysh_webhook-IsConsistent s lib hook request w ok
⟶-IsConsistent (batch_negotiated s lib request w) ok =
    batch_negotiate-IsConsistent s lib request w ok
⟶-IsConsistent (batch_settled s lib request w) ok = batch_settle-IsConsistent s lib request w ok

-- From consistent tables, after any requests in any order, whatever they hold and whatever the
-- other services answer: no two licenses have the same payment, and the settled royalty rows are the
-- transfers that the escrow has delivered, with the same wallets, amounts and signatures in order.
pub server-IsConsistent : {w w' : World} → w ⟶* w' → IsConsistent w → IsConsistent w'
server-IsConsistent here ok = ok
server-IsConsistent (next step rest) ok = server-IsConsistent rest (⟶-IsConsistent step ok)
