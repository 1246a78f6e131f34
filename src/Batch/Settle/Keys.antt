-- ===== src/Batch/Settle/Keys.antt =====
-- The payment keys of a batch's items in veriproof/apps/settlement/batch_services.py, and the width
-- of the column `License.payment_tx_sig` of veriproof/apps/settlement/models.py, 90 characters.
use veri_proof_hackerton.Prelude.{
  ℕ, suc, String, Option, none, some, List, [], ◌∷◌, ◌+◌, ◌≤◌, ◌<◌, ◌≡◌, ◌≢◌, refl, ◌∙◌, arith,
  append_text, append_cancel_left, All,
}
use Prim.Native.String.{count}
use text.Mathlib.TextLemmas.{length-append}
use veri_proof_hackerton.Models.{BatchItem, World}
use veri_proof_hackerton.Batch.{BatchService}
use veri_proof_hackerton.Batch.Settle.{item_key, settle_item, settle_items, add_result}

pub count-item_key :
    (tx item_id : String) → count (item_key tx item_id) ≡ 7 + (count tx + count item_id)
unfolding item_key
count-item_key tx item_id =
    let h1 = length-append "batch:" (append_text tx (append_text ":" item_id)) in
    let h2 = length-append tx (append_text ":" item_id) in
    let h3 = length-append ":" item_id in omega (arith, h1, h2, h3)

-- Under one payment, different items have different keys.
pub item_key_injective :
    (tx item_id item_id' : String) → item_key tx item_id ≡ item_key tx item_id' → item_id ≡ item_id'
unfolding item_key
item_key_injective tx item_id item_id' h =
    append_cancel_left ":" _ _ (append_cancel_left tx _ _ (append_cancel_left "batch:" _ _ h))

refused_key :
    (s : BatchService) (tx : String) (item : BatchItem)
    → ((key : String) → 90 < count key → s.grant_error key ≢ none)
    → 48 ≤ count tx
    → count item.id ≡ 36
    → s.grant_error (item_key tx item.id) ≢ none
refused_key s tx item refuses long uuid =
    refuses (item_key tx item.id) (omega (arith, count-item_key tx item.id, long, uuid))

after_refusal :
    (s : BatchService) (tx wallet : String) (idx : ℕ) (item : BatchItem) (rest : List BatchItem)
    (w : World) (answer : Option String)
    → answer ≢ none
    → let w' : World = (settle_item s tx wallet idx item w answer).1 in
      let outcome = (settle_item s tx wallet idx item w answer).0 in
      let later = settle_items s tx wallet (suc idx) rest w' in
      let first = settle_items s tx wallet (suc idx) rest w in
      ((add_result outcome later.0).0 ≡ first.0.0) × (later.1 ≡ first.1)
after_refusal s tx wallet idx item rest w none h = absurd (h refl)
after_refusal s tx wallet idx item rest w (some message) h = (refl, refl)

-- Where the database refuses a key longer than the column's 90 characters, a batch whose item ids
-- have 36 characters and whose payment signature has 48 or more is granted nothing: no item
-- succeeds, and nothing is written.
pub settle_items-overlong :
    (s : BatchService) (tx wallet : String) (idx : ℕ) (items : List BatchItem) (w : World)
    → ((key : String) → 90 < count key → s.grant_error key ≢ none)
    → 48 ≤ count tx
    → All (λ i. count i.id ≡ 36) items
    → ((settle_items s tx wallet idx items w).0.0 ≡ [])
      × ((settle_items s tx wallet idx items w).1 ≡ w)
settle_items-overlong s tx wallet idx [] w refuses long uuids = (refl, refl)
settle_items-overlong s tx wallet idx (item ∷ rest) w refuses long (uuid, uuids) =
    let (good, same) = settle_items-overlong s tx wallet (suc idx) rest w refuses long uuids in
    let (good', same') =
      after_refusal s tx wallet idx item rest w (s.grant_error (item_key tx item.id))
        (refused_key s tx item refuses long uuid) in
    (good' ∙ good, same' ∙ same)
