-- ===== src/Batch/Settle/Reports.antt =====
-- The results that the loop of `settle_batch_order` of
-- veriproof/apps/settlement/batch_services.py reports for the items.
use veri_proof_hackerton.Prelude.{
  any, All, All-map, ◌||◌, ◌==◌, ℕ, suc, String, Bool, true, Option, none, some, List, [], ◌∷◌, ◌+◌,
  length, ◌≡◌, refl, ap, ◌∙◌, arith,
}
use text.Mathlib.TextPositions.{eq_refl}
use veri_proof_hackerton.Models.{BatchItem, World}
use mathlib.Core.Logic.{◌⊎◌, inl, inr}
use veri_proof_hackerton.Batch.{BatchService}
use veri_proof_hackerton.Batch.Settle.{
  BatchItemResult, settle_items, item_key, Split, settle_item, add_result,
}

length-add_result :
    (r : BatchItemResult ⊎ BatchItemResult) (x : Split)
    → length (add_result r x).0 + length (add_result r x).1 ≡ suc (length x.0 + length x.1)
length-add_result (inl r) (good, bad) = omega arith
length-add_result (inr r) (good, bad) = omega arith

pub settle_items-length :
    (s : BatchService) (tx wallet : String) (idx : ℕ) (items : List BatchItem) (w : World)
    → length (settle_items s tx wallet idx items w).0.0
        + length (settle_items s tx wallet idx items w).0.1
      ≡ length items
settle_items-length s tx wallet idx [] w = refl
settle_items-length s tx wallet idx (item ∷ rest) w =
    let (outcome, w') = settle_item s tx wallet idx item w (s.grant_error (item_key tx item.id)) in
    length-add_result outcome (settle_items s tx wallet (suc idx) rest w').0
    ∙ ap suc (settle_items-length s tx wallet (suc idx) rest w')

-- Whether an item has a result, granted or failed.
abbrev pub is_reported : Split → BatchItem → Bool
is_reported (good, bad) item =
    any (λ (r : BatchItemResult). r.item_id == item.id) good
    || any (λ (r : BatchItemResult). r.item_id == item.id) bad

abbrev pub AllReported : Split → List BatchItem → Type 0
AllReported x items = All (λ i. is_reported x i ≡ true) items

is_reported-add_result :
    (r : BatchItemResult ⊎ BatchItemResult) (x : Split) (i : BatchItem)
    → is_reported x i ≡ true
    → is_reported (add_result r x) i ≡ true
is_reported-add_result (inl r) (good, bad) i h = ground arith
is_reported-add_result (inr r) (good, bad) i h = ground arith

is_reported-settle_item :
    (s : BatchService) (tx wallet : String) (idx : ℕ) (item : BatchItem) (w : World)
    (answer : Option String) (x : Split)
    → is_reported (add_result (settle_item s tx wallet idx item w answer).0 x) item ≡ true
is_reported-settle_item s tx wallet idx item w none (good, bad) = ground (arith, eq_refl item.id)
is_reported-settle_item s tx wallet idx item w (some message) (good, bad) =
    ground (arith, eq_refl item.id)

pub settle_items-AllReported :
    (s : BatchService) (tx wallet : String) (idx : ℕ) (items : List BatchItem) (w : World)
    → AllReported (settle_items s tx wallet idx items w).0 items
settle_items-AllReported s tx wallet idx [] w = tt
settle_items-AllReported s tx wallet idx (item ∷ rest) w =
    let answer : Option String = s.grant_error (item_key tx item.id) in
    let (outcome, w') = settle_item s tx wallet idx item w answer in
    (
      is_reported-settle_item s tx wallet idx item w answer
          (settle_items s tx wallet (suc idx) rest w').0,
      All-map _ _ rest
          (is_reported-add_result outcome (settle_items s tx wallet (suc idx) rest w').0)
          (settle_items-AllReported s tx wallet (suc idx) rest w'),
    )
