-- ===== src/Registration/Transaction.antt =====
-- The transaction of `RegistrationService.register` of veriproof/services/registration_service.py: the
-- rows that it adds, and the use of a subscription that it counts.
use veri_proof_hackerton.Prelude.{
  ℕ, suc, String, Bool, true, false, Option, none, some, List, [], ◌∷◌, ◌++◌, ◌≡◌, refl, ap, sym,
  if◌then◌else◌, if-both, if-split,
}
use veri_proof_hackerton.Models.{IpAsset}
use veri_proof_hackerton.Flow.{
  raised, pure, raise, modify, from_option, Ends, Ends-bind, Ends-pure, Ends-raise, Ends-modify,
  Ends-from_option,
}
use veri_proof_hackerton.Registration.{
  RegistrationService, Office, Upload, AssetImage, AssetComponent, CreatorSubscription,
}
use veri_proof_hackerton.Draft.{contains}
use veri_proof_hackerton.Registration.Subscription.{
  consume_registration, current_subscription, has_capacity, use_one, charged,
}
use veri_proof_hackerton.Registration.Register.{Application, Prepared, new_asset}
use veri_proof_hackerton.Registration.Completion.{
  ensure_creator, with_creator, add_asset, create_asset, add_components, add_images,
  use_subscription, enter,
}

-- The tables but for the creators, the components and the images, after the row was added.
pub record Entered (asset : IpAsset) (before after : Office) : Type 0 where
  pub assets : after.world.assets ≡ before.world.assets ++ asset ∷ []
  pub licenses : after.world.licenses ≡ before.world.licenses
  pub distributions : after.world.distributions ≡ before.world.distributions
  pub transfers : after.world.transfers ≡ before.world.transfers
  pub drafts : after.drafts.drafts ≡ before.drafts.drafts
  pub intents : after.intents ≡ before.intents

-- One use of a current subscription that had one left, with its charge; or nothing changes.
abbrev pub Charged : Bool → ℕ → String → String → Office → Office → Type 0
Charged false now wallet asset_id before after =
    (after.subscriptions ≡ before.subscriptions) × (after.charges ≡ before.charges)
Charged true now wallet asset_id before after =
    (c : CreatorSubscription) × (current_subscription wallet now before.subscriptions ≡ some c)
    × (has_capacity c ≡ true)
    × (after.subscriptions ≡ use_one c before.subscriptions)
    × (after.charges ≡ before.charges ++ record { subscription = c.id; asset = asset_id } ∷ [])

module _ (s : RegistrationService) (a : Application) where
  -- The two together, for the row of a prepared registration.
  abbrev pub Stored : Office → Office → IpAsset → Type 0
  Stored before after asset =
      Entered asset before after
      × Charged s.has_subscription s.env.now a.metadata.creator_wallet asset.id before after

  -- Before the subscription is used.
  abbrev Added : Office → Office → IpAsset → Type 0
  Added before after asset =
      Entered asset before after
      × (after.subscriptions ≡ before.subscriptions)
      × (after.charges ≡ before.charges)

  abbrev pub Anything : Office → Type 0
  Anything o = Unit

  add_asset-Added :
      (o : Office) (asset : IpAsset) (creators : List String)
      → Added o
          (add_asset s a asset (record o { drafts = record o.drafts { creators = creators } }))
          asset
  add_asset-Added o asset creators = (
    record {
      assets = refl;
      licenses = refl;
      distributions = refl;
      transfers = refl;
      drafts = refl;
      intents = refl;
    },
    refl,
    refl,
  )

  added :
      (o : Office) (asset : IpAsset) → Added o (add_asset s a asset (ensure_creator s a o)) asset
  added o asset =
      if-both (λ x. Added o (add_asset s a asset x) asset)
        (contains a.metadata.creator_wallet o.drafts.creators) o (with_creator s a o)
        (add_asset-Added o asset o.drafts.creators)
        (add_asset-Added o asset (with_creator s a o).drafts.creators)

  with_component :
      (before o : Office) (asset : IpAsset) (rows : List AssetComponent)
      → Added before o asset
      → Added before (record o { components = rows }) asset
  with_component before o asset rows (entered, subscriptions, charges) = (
    record {
      assets = entered.assets;
      licenses = entered.licenses;
      distributions = entered.distributions;
      transfers = entered.transfers;
      drafts = entered.drafts;
      intents = entered.intents;
    },
    subscriptions,
    charges,
  )

  with_images :
      (before o : Office) (asset : IpAsset) (rows : List AssetImage)
      → Added before o asset
      → Added before (add_images s a rows o) asset
  with_images before o asset rows (entered, subscriptions, charges) = (
    record {
      assets = entered.assets;
      licenses = entered.licenses;
      distributions = entered.distributions;
      transfers = entered.transfers;
      drafts = entered.drafts;
      intents = entered.intents;
    },
    subscriptions,
    charges,
  )

  add_components-Ends :
      (index_text : ℕ → String) (before o : Office) (asset : IpAsset) (index : ℕ)
      (files : List Upload)
      → Added before o asset
      → Ends
          (λ _ o'. Added before o' asset)
          Anything
          (add_components s a index_text asset index files o)
  unfolding add_components
  add_components-Ends index_text before o asset index [] h = Ends-pure _ o _ _ h
  add_components-Ends index_text before o asset index (u ∷ rest) h =
      Ends-bind (from_option raised _) _ o (λ _ o'. Added before o' asset)
        (λ _ o'. Added before o' asset) Anything Anything
        (Ends-from_option raised _ o (λ _ o'. Added before o' asset) Anything (λ url. h) tt)
        (λ o' _. tt)
        (λ url o' h'.
          Ends-bind (modify _) _ o' (λ _ o''. Added before o'' asset)
            (λ _ o''. Added before o'' asset) Anything Anything
            (Ends-modify _ o' (λ _ o''. Added before o'' asset) Anything
              (with_component before o' asset _ h'))
            (λ o'' _. tt)
            (λ _ o'' h''. add_components-Ends index_text before o'' asset (suc index) rest h''))

  create_asset-Ends :
      (before o : Office) (asset : IpAsset)
      → o ≡ ensure_creator s a before
      → Ends (λ _ o'. Added before o' asset) Anything (create_asset s a asset o)
  create_asset-Ends before o asset e =
      if-both (λ m. Ends (λ _ o'. Added before o' asset) Anything (m o)) (s.insert_asset asset)
        (modify (add_asset s a asset)) (raise raised)
        (Ends-modify _ o (λ _ o'. Added before o' asset) Anything (rw e (added before asset)))
        (Ends-raise raised o (λ _ o'. Added before o' asset) Anything tt)

  charged-Ends :
      (before o : Office) (asset : IpAsset) (found : Option CreatorSubscription)
      → Added before o asset
      → current_subscription a.metadata.creator_wallet s.env.now o.subscriptions ≡ found
      → Ends
          (λ _ o'.
            Entered asset before o'
            × Charged true s.env.now a.metadata.creator_wallet asset.id before o')
          Anything
          (charged asset.id found o)
  charged-Ends before o asset none h e = tt
  charged-Ends before o asset (some c) (entered, subscriptions, charges) e =
      if-split
        (Ends
          (λ _ o'.
            Entered asset before o'
            × Charged true s.env.now a.metadata.creator_wallet asset.id before o')
          Anything)
        (has_capacity c) _ _
        (λ capacity. (
          record {
            assets = entered.assets;
            licenses = entered.licenses;
            distributions = entered.distributions;
            transfers = entered.transfers;
            drafts = entered.drafts;
            intents = entered.intents;
          },
          (
            c,
            rw (sym subscriptions) e,
            capacity,
            ap (use_one c) subscriptions,
            ap (λ rows. rows ++ record { subscription = c.id; asset = asset.id } ∷ []) charges,
          ),
        ))
        (λ _. tt)

  with_subscription-Ends :
      (has_subscription : Bool) (before o : Office) (asset : IpAsset)
      → Added before o asset
      → Ends
          (λ _ o'.
            Entered asset before o'
            × Charged has_subscription s.env.now a.metadata.creator_wallet asset.id before o')
          Anything
          ((if has_subscription
              then consume_registration s.env.now a.metadata.creator_wallet asset.id
              else pure tt)
            o)
  unfolding consume_registration
  with_subscription-Ends true before o asset h = charged-Ends before o asset _ h refl
  with_subscription-Ends false before o asset h =
      Ends-pure tt o
        (λ _ o'.
          Entered asset before o'
          × Charged false s.env.now a.metadata.creator_wallet asset.id before o')
        Anything (h.0, (h.1, h.2))

  use_subscription-Ends :
      (before o : Office) (p : Prepared)
      → Added before o (new_asset s a p)
      → Ends
          (λ _ o'. Stored before o' (new_asset s a p))
          Anything
          (use_subscription s a (new_asset s a p) o)
  unfolding new_asset
  use_subscription-Ends before o p h =
      with_subscription-Ends s.has_subscription before o (new_asset s a p) h

  pub enter-Ends :
      (index_text : ℕ → String) (o : Office) (p : Prepared)
      → Ends
          (λ asset o'. Stored o o' asset × (asset ≡ new_asset s a p))
          Anything
          (enter s a index_text p o)
  unfolding enter
  enter-Ends index_text o p =
      let asset = new_asset s a p in
      let Goal : IpAsset → Office → Type 0 = λ x o'. Stored o o' x × (x ≡ asset) in
      let anyhow : (o' : Office) → Anything o' → Anything o' = λ o' h. h in
      Ends-bind (modify _) _ o (λ _ o'. o' ≡ ensure_creator s a o) Goal Anything Anything
        (Ends-modify _ o (λ _ o'. o' ≡ ensure_creator s a o) Anything refl) anyhow
        (λ _ o1 e.
          Ends-bind (create_asset s a asset) _ o1 (λ _ o'. Added o o' asset) Goal Anything Anything
            (create_asset-Ends o o1 asset e) anyhow
            (λ _ o2 h2.
              Ends-bind _ _ o2 (λ _ o'. Added o o' asset) Goal Anything Anything
                (add_components-Ends index_text o o2 asset 0 a.supporting h2) anyhow
                (λ _ o3 h3.
                  Ends-bind (modify _) _ o3 (λ _ o'. Added o o' asset) Goal Anything Anything
                    (Ends-modify _ o3 (λ _ o'. Added o o' asset) Anything
                      (with_images o o3 asset p.images h3))
                    anyhow
                    (λ _ o4 h4.
                      Ends-bind _ _ o4 (λ _ o'. Stored o o' asset) Goal Anything Anything
                        (use_subscription-Ends o o4 p h4) anyhow
                        (λ _ o5 h5. Ends-pure asset o5 Goal Anything (h5, refl))))))
