-- ===== src/Sponsored/Sound.antt =====
-- What each step of the sponsored payments of veriproof/apps/ip/views_api.py keeps true of the tables.
use veri_proof_hackerton.Prelude.{
  ℕ, String, Option, none, some, List, [], ◌∷◌, map, ◌==◌, ◌≡◌, refl, sym, if-both, All, All-append,
  All-map, if◌then◌else◌, not, ◌||◌, ◌&&◌, leb,
}
use mathlib.Core.Path.{subst}
use veri_proof_hackerton.Models.{IpAsset, NegotiationSession, World, asset_by_id}
use veri_proof_hackerton.Money.{Decimal}
use veri_proof_hackerton.Json.{Json, truthy}
use veri_proof_hackerton.Payment.{resolve_pay_to}
use veri_proof_hackerton.Settlement.{SettlementService, Outcome, success, invalid, raised}
use veri_proof_hackerton.Settlement.Pipeline.{IsConsistent, Settled, settle_pipeline-Settled}
use veri_proof_hackerton.Settlement.Persistence.{IsLicensed, settle_pipeline-IsLicensed}
use veri_proof_hackerton.Sponsored.{
  SponsoredPaymentIntent, IntentStatus, created, submitted, settled, expired, Channel, Checkout,
  Sponsored, transaction, misconfigured, IntentReply, replace_intent, expire_stale, is_stale,
  is_for_sale, positive, accepted_usdc_session, amount_for,
}
use veri_proof_hackerton.Sponsored.Open.{
  Tables, store_intent, with_amount, with_session, with_asset, create_sponsored_usdc_intent,
  is_missing,
}
use veri_proof_hackerton.Sponsored.Settle.{
  Till, PaidReply, Checked, is_settled, intent_by_id, commit, check, settle_locked, settlement_of,
  after_settlement, bound_to_another, is_taken,
}

-- A settled intent carries a signature, and that payment has a license.
abbrev pub PaidIn : World → Option String → IntentStatus → Type 0
PaidIn w signature created = Unit
PaidIn w signature submitted = Unit
PaidIn w signature expired = Unit
PaidIn w signature settled = (tx : String) × (signature ≡ some tx) × IsLicensed tx w

abbrev pub IsPaid : World → SponsoredPaymentIntent → Type 0
IsPaid w i = PaidIn w i.transaction_signature i.status

abbrev pub IsHonoured : Tables → Type 0
IsHonoured (intents, w) = All (IsPaid w) intents

PaidIn-later :
    (w w' : World)
    → ((tx : String) → IsLicensed tx w → IsLicensed tx w')
    → (signature : Option String) (status : IntentStatus) → PaidIn w signature status
    → PaidIn w' signature status
PaidIn-later w w' keeps signature created h = tt
PaidIn-later w w' keeps signature submitted h = tt
PaidIn-later w w' keeps signature expired h = tt
PaidIn-later w w' keeps signature settled (tx, same, licensed) = (tx, same, keeps tx licensed)

pub IsHonoured-later :
    (intents : List SponsoredPaymentIntent) (w w' : World)
    → ((tx : String) → IsLicensed tx w → IsLicensed tx w')
    → IsHonoured (intents, w)
    → IsHonoured (intents, w')
IsHonoured-later intents w w' keeps =
    All-map (IsPaid w) (IsPaid w') intents
      (λ i. PaidIn-later w w' keeps i.transaction_signature i.status)

IsHonoured-change :
    (w : World) (f : SponsoredPaymentIntent → SponsoredPaymentIntent)
    (intents : List SponsoredPaymentIntent)
    → ((i : SponsoredPaymentIntent) → IsPaid w i → IsPaid w (f i))
    → IsHonoured (intents, w)
    → IsHonoured (map f intents, w)
IsHonoured-change w f [] keeps h = tt
IsHonoured-change w f (i ∷ intents) keeps h = (keeps i h.0, IsHonoured-change w f intents keeps h.1)

replace_intent-IsHonoured :
    (j : SponsoredPaymentIntent) (intents : List SponsoredPaymentIntent) (w : World)
    → IsPaid w j
    → IsHonoured (intents, w)
    → IsHonoured (replace_intent j intents, w)
replace_intent-IsHonoured j intents w hj =
    IsHonoured-change w (λ i. if i.id == j.id then j else i) intents
      (λ i hi. if-both (IsPaid w) (i.id == j.id) j i hj hi)

-- What holds of the tables between any two steps.
abbrev pub IsSound : Tables → Type 0
IsSound t = IsHonoured t × IsConsistent t.1

after_settlement-IsSound :
    (s : SettlementService) (k : SponsoredPaymentIntent) (now : ℕ) (signature : String)
    (user : Option String) (intents : List SponsoredPaymentIntent) (w : World) (o : Outcome × World)
    → Settled s (settlement_of k signature user) w o
    → ((tx : String) → IsLicensed tx w → IsLicensed tx o.1)
    → IsSound (intents, w)
    → IsSound (after_settlement now k signature intents w o).1
unfolding settlement_of
after_settlement-IsSound s k now signature user intents w (success r, w') (_, stored, ok) keeps h =
    (
      replace_intent-IsHonoured _ intents w' (signature, refl, (r.license, stored))
          (IsHonoured-later intents w w' keeps h.0),
      ok,
    )
after_settlement-IsSound s k now signature user intents w (invalid, w') (_, same) keeps h = (
  replace_intent-IsHonoured _ intents w' tt (IsHonoured-later intents w w' keeps h.0),
  subst IsConsistent (sym same) h.1,
)
after_settlement-IsSound s k now signature user intents w (raised, w') (ok, rows, sent) keeps h =
    (h.0, (h.1.0, rw sent h.1.1))

pub commit-IsSound :
    (till : Till) (id signature : String) (user : Option String) (t : Tables)
    → IsSound t
    → IsSound (commit till id signature user t).1
unfolding commit
commit-IsSound till id signature user t h = go (intent_by_id id t.0)
  where
    go : (k : Option SponsoredPaymentIntent) → IsSound (settle_locked till signature user t k).1
    go none = h
    go (some k) =
        let Ends : PaidReply × Tables → Type 0 = λ x. IsSound x.1 in
        if-both Ends (is_settled k.status) _ _ h (
          if-both Ends (bound_to_another signature k.transaction_signature) _ _ h (
            if-both Ends (is_taken signature k t.0) _ _ h (
              after_settlement-IsSound till.settlement k till.settlement.env.now signature user t.0
                t.1 _
                (settle_pipeline-Settled till.settlement (settlement_of k signature user) t.1 h.1)
                (λ tx.
                  settle_pipeline-IsLicensed till.settlement (settlement_of k signature user) tx
                    t.1)
                h)))

pub check-IsHonoured :
    (till : Till) (k : SponsoredPaymentIntent) (signature : String) (t : Tables)
    → IsHonoured t
    → IsHonoured ((check till k signature t).1, t.1)
unfolding check
check-IsHonoured till k signature t h =
    let Ends : Checked × List SponsoredPaymentIntent → Type 0 = λ x. IsHonoured (x.1, t.1) in
    if-both Ends (is_settled k.status) _ _ h (
      if-both Ends (leb k.expires_at till.settlement.env.now) _ _
        (replace_intent-IsHonoured (record k { status = expired }) t.0 t.1 tt h)
        (if-both Ends (bound_to_another signature k.transaction_signature) _ _ h
          (if-both Ends (is_taken signature k t.0) _ _ h h)))

store_intent-IsSound :
    (j : SponsoredPaymentIntent) (intents : List SponsoredPaymentIntent) (w : World) (o : Sponsored)
    → IsPaid w j
    → IsSound (intents, w)
    → IsSound (store_intent j intents w o).1
store_intent-IsSound j intents w misconfigured hj h = h
store_intent-IsSound j intents w (transaction serialized payer) hj h =
    (All-append (IsPaid w) intents (j ∷ []) h.0 (hj, tt), h.1)

expire_stale-IsHonoured :
    (now : ℕ) (user : Option String) (asset wallet : String) (intents : List SponsoredPaymentIntent)
    (w : World)
    → IsHonoured (intents, w)
    → IsHonoured (expire_stale now user asset wallet intents, w)
unfolding expire_stale
expire_stale-IsHonoured now user asset wallet intents w = IsHonoured-change w _ intents (λ i hi.
    if-both (IsPaid w) (is_stale now user asset wallet i) (record i { status = expired }) i tt hi)

module _ (c : Checkout) (user : Option String) (wallet : String) (channel : Channel)
    (session_id : Json) (t : Tables) (h : IsSound t) where
  abbrev Opens : IntentReply × Tables → Type 0
  Opens x = IsSound x.1

  with_amount-IsSound :
      (asset : IpAsset) (session : Option NegotiationSession) (amount : Option Decimal)
      → Opens (with_amount c asset session user wallet channel t amount)
  with_amount-IsSound asset session none = h
  with_amount-IsSound asset session (some amount) =
      if-both Opens
        (not (c.is_valid_pubkey (resolve_pay_to c.env.platform_escrow_pubkey asset none))) _ _ h
        (store_intent-IsSound _ (expire_stale c.env.now user asset.id wallet t.0) t.1 _ tt
          (expire_stale-IsHonoured c.env.now user asset.id wallet t.0 t.1 h.0, h.1))

  with_session-IsSound :
      (asset : IpAsset) (session : Option (Option NegotiationSession))
      → Opens (with_session c asset user wallet channel session_id t session)
  with_session-IsSound asset none = h
  with_session-IsSound asset (some session) =
      if-both Opens (truthy session_id && is_missing session) _ _ h
        (with_amount-IsSound asset session (amount_for asset.target_amount session))

  pub create-IsSound :
      (asset_id : String)
      → Opens (create_sponsored_usdc_intent c asset_id user wallet channel session_id t)
  unfolding create_sponsored_usdc_intent
  create-IsSound asset_id = go (asset_by_id asset_id t.1)
    where
      go : (asset : Option IpAsset) → Opens (with_asset c user wallet channel session_id t asset)
      go none = h
      go (some asset) = if-both Opens (not (is_for_sale asset)) _ _ h (
          if-both Opens (not (asset.currency == "USDC") || not (positive asset.target_amount)) _ _ h
            (with_session-IsSound asset (accepted_usdc_session c.lib c.env asset session_id t.1)))
