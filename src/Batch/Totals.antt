-- ===== src/Batch/Totals.antt =====
-- What `quote_batch_order` of veriproof/apps/settlement/batch_services.py stores.
use veri_proof_hackerton.Prelude.{
  ℕ, suc, String, Option, none, some, List, [], ◌∷◌, ◌++◌, map, ◌==◌, both_true, length, ltb, ◌≡◌,
  refl, sym, ap, ◌∙◌, arith, eq_iff, find_sound, find-Any, if-both, All, Any,
}
use mathlib.Core.Path.{subst}
use veri_proof_hackerton.Money.{Decimal, to_min_units}
use veri_proof_hackerton.Money.Rounding.{to_min_units-from_min_units}
use veri_proof_hackerton.Models.{IpAsset, quoted, World}
use veri_proof_hackerton.Env.{Env}
use veri_proof_hackerton.Batch.{
  BatchService, QuoteOutcome, invalid_items, too_many_items, unavailable, raised, made,
  effective_batch_max_items, last_entry, all_some, sum_units, zip, create_order, priced,
  quote_resolved, quote_batch_order, found_asset, new_items, min_prices, or_commercial, unknown_ids,
}

-- What a quote has done, by how it ended. Each item's price is the last that the pricing service has
-- answered for its asset, asked with the assets' minimum prices and the usage.
abbrev pub IsQuoted : BatchService → List String → String → World → QuoteOutcome × World → Type 0
IsQuoted s asset_ids usage w (invalid_items ids, w') = w' ≡ w
IsQuoted s asset_ids usage w (too_many_items, w') = w' ≡ w
IsQuoted s asset_ids usage w (unavailable, w') = w' ≡ w
IsQuoted s asset_ids usage w (raised, w') = w' ≡ w
IsQuoted s asset_ids usage w (made order items, w') =
    (to_min_units order.total_usdc ≡ sum_units (map (λ i. i.unit_price_usdc) items))
    × (map (λ i. i.asset.id) items ≡ asset_ids)
    × ((assets : List IpAsset) × (quotes : List (String × Decimal)) × (map (λ a. a.id) assets
          ≡ asset_ids)
        × All (λ a. Any (λ x. x ≡ a) w.assets) assets
        × (s.quote_batch (min_prices asset_ids assets) (or_commercial usage) ≡ some quotes)
        × (map (λ i. some i.unit_price_usdc) items ≡ map (λ aid. last_entry aid quotes) asset_ids))
    × (order.status ≡ quoted)
    × (w'.orders ≡ w.orders ++ order ∷ [])
    × (w'.items ≡ w.items ++ items)
    × (w'.licenses ≡ w.licenses)
    × (w'.sessions ≡ w.sessions)
    × (w'.distributions ≡ w.distributions)
    × (w'.transfers ≡ w.transfers)

-- What a list of answers that are all there begins with.
all_some_uncons {ℓ} :
    {A : Type ℓ} (o : Option A) (xs : List (Option A)) (ys : List A)
    → all_some (o ∷ xs) ≡ some ys
    → (a : A) × (rest : List A) × (o ≡ some a) × (all_some xs ≡ some rest) × (ys ≡ a ∷ rest)
all_some_uncons none xs ys h = cc
all_some_uncons {A = A} (some a) xs ys h = go (all_some xs) refl
  where
    go :
        (r : Option (List A))
        → all_some xs ≡ r
        → (b : A) × (rest : List A) × (some a ≡ some b)
          × (all_some xs ≡ some rest)
          × (ys ≡ b ∷ rest)
    go none e = ground arith
    go (some rest) e = (a, rest, refl, e, ground arith)

length-all_some {ℓ} :
    {A : Type ℓ} (xs : List (Option A)) (ys : List A)
    → all_some xs ≡ some ys
    → length ys ≡ length xs
length-all_some [] ys h = ground arith
length-all_some (o ∷ xs) ys h =
    let (a, rest, _, later, same) = all_some_uncons o xs ys h in
    ap length same ∙ ap suc (length-all_some xs rest later)

length-map {ℓ κ} :
    {A : Type ℓ} {B : Type κ} (f : A → B) (xs : List A) → length (map f xs) ≡ length xs
length-map f [] = refl
length-map f (x ∷ xs) = ap suc (length-map f xs)

found_asset-id :
    (w : World) (ids : List String) (aid : String) (a : IpAsset)
    → found_asset w ids aid ≡ some a
    → a.id ≡ aid
found_asset-id w ids aid a h =
    (eq_iff a.id aid).0 (both_true (a.id == aid) _ (find_sound _ w.assets a h)).0

ids-all_some :
    (w : World) (ids asset_ids : List String) (assets : List IpAsset)
    → all_some (map (found_asset w ids) asset_ids) ≡ some assets
    → map (λ a. a.id) assets ≡ asset_ids
ids-all_some w ids [] assets h = ground arith
ids-all_some w ids (aid ∷ rest) assets h =
    let (a, later_assets, first, later, same) =
      all_some_uncons (found_asset w ids aid) (map (found_asset w ids) rest) assets h in
    ap (map (λ x. x.id)) same
    ∙ ap (λ id. id ∷ map (λ x. x.id) later_assets) (found_asset-id w ids aid a first)
    ∙ ap (λ xs. aid ∷ xs) (ids-all_some w ids rest later_assets later)

prices-new_items :
    (env : Env) (order : String) (draws : ℕ) (assets : List IpAsset) (prices : List Decimal)
    → length assets ≡ length prices
    → map (λ i. i.unit_price_usdc) (new_items env order draws (zip assets prices)) ≡ prices
prices-new_items env order draws [] [] h = refl
prices-new_items env order draws [] (p ∷ prices) h = ground (arith, h)
prices-new_items env order draws (a ∷ assets) [] h = ground (arith, h)
prices-new_items env order draws (a ∷ assets) (p ∷ prices) h =
    ap (λ xs. p ∷ xs) (prices-new_items env order (suc draws) assets prices (omega arith))

assets-new_items :
    (env : Env) (order : String) (draws : ℕ) (assets : List IpAsset) (prices : List Decimal)
    → length assets ≡ length prices
    → map (λ i. i.asset.id) (new_items env order draws (zip assets prices)) ≡ map (λ a. a.id) assets
assets-new_items env order draws [] [] h = refl
assets-new_items env order draws [] (p ∷ prices) h = refl
assets-new_items env order draws (a ∷ assets) [] h = ground (arith, h)
assets-new_items env order draws (a ∷ assets) (p ∷ prices) h =
    ap (λ xs. a.id ∷ xs) (assets-new_items env order (suc draws) assets prices (omega arith))

map-all_some :
    {A : Type 0} (xs : List (Option A)) (ys : List A)
    → all_some xs ≡ some ys
    → map (λ y. some y) ys ≡ xs
map-all_some [] ys h = ground arith
map-all_some (o ∷ xs) ys h =
    let (a, rest, first, later, same) = all_some_uncons o xs ys h in
    ap (map (λ y. some y)) same
    ∙ ap (λ x. x ∷ map (λ y. some y) rest) (sym first)
    ∙ ap (λ zs. o ∷ zs) (map-all_some xs rest later)

map-map :
    {A B C : Type 0} (g : B → C) (f : A → B) (xs : List A)
    → map (λ x. g (f x)) xs ≡ map g (map f xs)
map-map g f [] = refl
map-map g f (x ∷ xs) = ap (λ ys. g (f x) ∷ ys) (map-map g f xs)

found-all_some :
    (w : World) (ids asset_ids : List String) (assets : List IpAsset)
    → all_some (map (found_asset w ids) asset_ids) ≡ some assets
    → All (λ a. Any (λ x. x ≡ a) w.assets) assets
found-all_some w ids [] [] h = tt
found-all_some w ids [] (a ∷ assets) h = absurd cc
found-all_some w ids (aid ∷ rest) assets h =
    let (a, later_assets, first, later, same) =
      all_some_uncons (found_asset w ids aid) (map (found_asset w ids) rest) assets h in
    subst (All (λ a. Any (λ x. x ≡ a) w.assets)) (sym same)
      (find-Any _ w.assets a first, found-all_some w ids rest later_assets later)

create_order-IsQuoted :
    (s : BatchService) (buyer : String) (asset_ids : List String) (usage : String)
    (assets : List IpAsset) (quotes : List (String × Decimal)) (prices : List Decimal) (w : World)
    → map (λ a. a.id) assets ≡ asset_ids
    → All (λ a. Any (λ x. x ≡ a) w.assets) assets
    → s.quote_batch (min_prices asset_ids assets) (or_commercial usage) ≡ some quotes
    → all_some (map (λ aid. last_entry aid quotes) asset_ids) ≡ some prices
    → IsQuoted s asset_ids usage w (create_order s buyer assets prices w)
unfolding create_order
create_order-IsQuoted s buyer asset_ids usage assets quotes prices w same stored answer each =
    let matched : length assets ≡ length prices =
      sym (length-map (λ a. a.id) assets)
      ∙ ap length same
      ∙ sym (length-all_some _ prices each ∙ length-map _ asset_ids) in
    let items_prices = prices-new_items s.env _ _ assets prices matched in
    (
      to_min_units-from_min_units (sum_units prices) ∙ ap sum_units (sym items_prices),
      assets-new_items s.env _ _ assets prices matched ∙ same,
      (
        assets,
        quotes,
        same,
        stored,
        answer,
        map-map (λ p. some p) (λ i. i.unit_price_usdc) _
            ∙ ap (map (λ p. some p)) items_prices
            ∙ map-all_some _ prices each,
      ),
      refl,
      refl,
      refl,
      refl,
      refl,
      refl,
      refl,
    )

priced-IsQuoted :
    (s : BatchService) (buyer : String) (asset_ids : List String) (usage : String)
    (assets : List IpAsset) (w : World) (answer : Option (List (String × Decimal)))
    → map (λ a. a.id) assets ≡ asset_ids
    → All (λ a. Any (λ x. x ≡ a) w.assets) assets
    → s.quote_batch (min_prices asset_ids assets) (or_commercial usage) ≡ answer
    → IsQuoted s asset_ids usage w (priced s buyer asset_ids assets w answer)
priced-IsQuoted s buyer asset_ids usage assets w none same stored e = refl
priced-IsQuoted s buyer asset_ids usage assets w (some quotes) same stored e =
    go (all_some (map (λ aid. last_entry aid quotes) asset_ids)) refl
  where
    go :
        (prices : Option (List Decimal))
        → all_some (map (λ aid. last_entry aid quotes) asset_ids) ≡ prices
        → IsQuoted s asset_ids usage w (elim prices [
          | none ↦ (raised, w)
          | some prices ↦ create_order s buyer assets prices w
        ])
    go none k = refl
    go (some prices) k =
        create_order-IsQuoted s buyer asset_ids usage assets quotes prices w same stored e k

quote_resolved-IsQuoted :
    (s : BatchService) (buyer : String) (asset_ids : List String) (usage : String)
    (ids : List String) (w : World)
    → IsQuoted s asset_ids usage w (quote_resolved s buyer asset_ids usage ids w)
quote_resolved-IsQuoted s buyer asset_ids usage ids w =
    go (all_some (map (found_asset w ids) asset_ids)) refl
  where
    go :
        (found : Option (List IpAsset))
        → all_some (map (found_asset w ids) asset_ids) ≡ found
        → IsQuoted s asset_ids usage w (elim found [
          | none ↦ (invalid_items (unknown_ids w ids asset_ids), w)
          | some assets ↦
              priced s buyer asset_ids assets w
                (s.quote_batch (min_prices asset_ids assets) (or_commercial usage))
        ])
    go none e = refl
    go (some assets) e =
        priced-IsQuoted s buyer asset_ids usage assets w _ (ids-all_some w ids asset_ids assets e)
          (found-all_some w ids asset_ids assets e) refl

pub quote_batch_order-IsQuoted :
    (s : BatchService) (buyer : String) (asset_ids : List String) (usage : String) (w : World)
    → IsQuoted s asset_ids usage w (quote_batch_order s buyer asset_ids usage w)
unfolding quote_batch_order
quote_batch_order-IsQuoted s buyer [] usage w = refl
quote_batch_order-IsQuoted s buyer (aid ∷ rest) usage w =
    if-both (IsQuoted s (aid ∷ rest) usage w)
      (ltb (effective_batch_max_items s) (length (aid ∷ rest))) _ _ refl
      (go (all_some (map s.env.parse_uuid (aid ∷ rest))))
  where
    go :
        (parsed : Option (List String))
        → IsQuoted s (aid ∷ rest) usage w (elim parsed [
          | none ↦ (raised, w)
          | some ids ↦ quote_resolved s buyer (aid ∷ rest) usage ids w
        ])
    go none = refl
    go (some ids) = quote_resolved-IsQuoted s buyer (aid ∷ rest) usage ids w
