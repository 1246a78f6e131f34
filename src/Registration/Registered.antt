-- ===== src/Registration/Registered.antt =====
-- What `RegistrationService.register` of veriproof/services/registration_service.py has done when it
-- ends.
use veri_proof_hackerton.Prelude.{
  ℕ, String, Bool, true, false, none, some, [], ◌∷◌, ◌++◌, ◌≡◌, refl, ap, sym, ◌∙◌, ◌⊎◌, inl, inr,
}
use mathlib.Core.Path.{subst}
use veri_proof_hackerton.Models.{IpAsset}
use veri_proof_hackerton.Events.{record_event-SameRows}
use veri_proof_hackerton.Flow.{
  Result, modify, atomic, Ends, Ends-bind, Ends-pure, Ends-atomic, Ends-map,
}
use veri_proof_hackerton.Registration.{RegistrationService, RegistrationOutcome, Office}
use veri_proof_hackerton.Registration.Subscription.{use_one}
use veri_proof_hackerton.Registration.Register.{Application, Prepared, new_asset}
use veri_proof_hackerton.Registration.Completion.{
  attach_events, announce_registered, finish, prepare, register,
}
use veri_proof_hackerton.Registration.Quiet.{
  SameOffice, SameOffice-refl, Quiet, Known, chain, written-SameOffice, with_world-SameOffice,
}
use veri_proof_hackerton.Registration.Prepared.{IsPrepared, prepare-Ends}
use veri_proof_hackerton.Registration.Transaction.{Entered, Charged, Stored, Anything, enter-Ends}

module _ (s : RegistrationService) (a : Application) where
  attach_events-SameOffice :
      (asset : IpAsset) (o : Office) → SameOffice (attach_events s a asset o) o
  unfolding attach_events
  attach_events-SameOffice asset o = with_world-SameOffice o _ (record {
    assets = refl;
    sessions = refl;
    licenses = refl;
    distributions = refl;
    orders = refl;
    items = refl;
    transfers = refl;
  })

  attach-Quiet : (asset : IpAsset) → Quiet Known (modify (attach_events s a asset))
  unfolding modify
  attach-Quiet asset = record { run = λ o. (attach_events-SameOffice asset o, tt) }

  announce_registered-Quiet : (asset : IpAsset) → Quiet Known (announce_registered s a asset)
  unfolding announce_registered
  announce_registered-Quiet asset = record {
    run = λ o.
        written-SameOffice o _
          (λ w e. record_event-SameRows s.env _ _ (some asset) none _ o.world w e);
  }

  finish-Ends :
      (p : Prepared) (asset : IpAsset) (o : Office)
      → Ends
          (λ out o'. SameOffice o' o × (out.asset ≡ asset))
          (λ o'. SameOffice o' o)
          (finish s a p asset o)
  unfolding finish
  finish-Ends p asset o =
      let P : RegistrationOutcome → Office → Type 0 =
        λ out o'. SameOffice o' o × (out.asset ≡ asset) in
      let E : Office → Type 0 = λ o'. SameOffice o' o in
      let stay : (o' : Office) → SameOffice o' o → E o' = λ o' h. h in
      chain o o _ _ _ P E (SameOffice-refl o) (attach-Quiet asset) stay (λ _ o1 h1 _.
        chain o o1 _ _ _ P E h1 (announce_registered-Quiet asset) stay
          (λ _ o2 h2 _. Ends-pure _ o2 P E (h2, refl)))

  -- The work is stored: new, with a valid parent, and proved on the chain.
  pub record Registered (before after : Office) (asset : IpAsset) : Type 0 where
    pub prepared : Prepared
    pub ready : IsPrepared s a before prepared
    pub row : asset ≡ new_asset s a prepared
    pub stored : Stored s a before after asset

  -- What a registration has done, by its end. An exception after the transaction leaves the row.
  abbrev pub RegistrationEnds : Office → Result RegistrationOutcome × Office → Type 0
  RegistrationEnds before =
      Ends (λ out after. Registered before after out.asset)
        (λ after. SameOffice after before ⊎ ((asset : IpAsset) × Registered before after asset))

  Entered-SameOffice :
      (before mid mid' after : Office) (asset : IpAsset)
      → SameOffice mid before
      → Entered asset mid mid'
      → SameOffice after mid'
      → Entered asset before after
  Entered-SameOffice before mid mid' after asset h entered k = record {
    assets = k.rows.assets ∙ entered.assets ∙ ap (λ rows. rows ++ asset ∷ []) h.rows.assets;
    licenses = k.rows.licenses ∙ entered.licenses ∙ h.rows.licenses;
    distributions = k.rows.distributions ∙ entered.distributions ∙ h.rows.distributions;
    transfers = k.rows.transfers ∙ entered.transfers ∙ h.rows.transfers;
    drafts = ap (λ d. d.drafts) k.drafts ∙ entered.drafts ∙ ap (λ d. d.drafts) h.drafts;
    intents = k.intents ∙ entered.intents ∙ h.intents;
  }

  Charged-SameOffice :
      (has_subscription : Bool) (now : ℕ) (wallet id : String) (before mid mid' after : Office)
      → SameOffice mid before
      → Charged has_subscription now wallet id mid mid'
      → SameOffice after mid'
      → Charged has_subscription now wallet id before after
  Charged-SameOffice true now wallet id before mid mid' after h (c, found, capacity, used, charge)
        k =
      (
        c,
        rw (sym h.subscriptions) found,
        capacity,
        k.subscriptions ∙ used ∙ ap (use_one c) h.subscriptions,
        k.charges
            ∙ charge
            ∙ ap (λ rows. rows ++ record { subscription = c.id; asset = id } ∷ []) h.charges,
      )
  Charged-SameOffice false now wallet id before mid mid' after h (subscriptions, charges) k =
      (k.subscriptions ∙ subscriptions ∙ h.subscriptions, k.charges ∙ charges ∙ h.charges)

  Registered-SameOffice :
      (before mid mid' after : Office) (p : Prepared) (asset : IpAsset)
      → SameOffice mid before
      → IsPrepared s a before p
      → Stored s a mid mid' asset × (asset ≡ new_asset s a p)
      → SameOffice after mid'
      → Registered before after asset
  Registered-SameOffice before mid mid' after p asset h ready stored k = record {
    prepared = p;
    ready = ready;
    row = stored.1;
    stored = (
      Entered-SameOffice before mid mid' after asset h stored.0.0 k,
      Charged-SameOffice s.has_subscription s.env.now a.metadata.creator_wallet asset.id before mid
          mid' after h stored.0.1 k,
    );
  }

  -- A registration that is answered has stored its work, which is new, whose parent and royalty
  -- share are valid, and whose hash and certificate the chain has taken; one use of a current
  -- subscription is counted where subscriptions are on. After a failure the tables but the events
  -- are as before, or the work is stored in the same way and only what followed has failed.
  pub register-RegistrationEnds :
      (index_text : ℕ → String) (o : Office) → RegistrationEnds o (register s a index_text o)
  unfolding register
  register-RegistrationEnds index_text o =
      let P : RegistrationOutcome → Office → Type 0 = λ out after. Registered o after out.asset in
      let E : Office → Type 0 =
        λ after. SameOffice after o ⊎ ((asset : IpAsset) × Registered o after asset) in
      Ends-bind (prepare s a) _ o (λ p o'. SameOffice o' o × IsPrepared s a o p) P E
        (λ o'. SameOffice o' o) (prepare-Ends s a o) (λ o' h. inl h)
        (λ p o1 h1.
          Ends-bind (atomic _) _ o1 (λ asset o'. Stored s a o1 o' asset × (asset ≡ new_asset s a p))
            P E (λ o'. SameOffice o' o)
            (Ends-atomic _ o1 (λ asset o'. Stored s a o1 o' asset × (asset ≡ new_asset s a p))
              (λ o'. SameOffice o' o) (Anything s a) (enter-Ends s a index_text o1 p) h1.0)
            (λ o' h. inl h)
            (λ asset o2 h2.
              Ends-map _ (λ out o'. SameOffice o' o2 × (out.asset ≡ asset)) P
                (λ o'. SameOffice o' o2) E (finish-Ends p asset o2)
                (λ out o3 h3.
                  subst (λ x. Registered o o3 x) (sym h3.1)
                    (Registered-SameOffice o o1 o2 o3 p asset h1.0 h1.1 h2 h3.0))
                (λ o3 h3. inr (asset, Registered-SameOffice o o1 o2 o3 p asset h1.0 h1.1 h2 h3))))
