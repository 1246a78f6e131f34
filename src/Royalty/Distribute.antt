-- ===== src/Royalty/Distribute.antt =====
-- `distribute` of veriproof/services/royalty_service.py as a whole.
use veri_proof_hackerton.Prelude.{
  String, Option, none, some, List, [], ◌∷◌, ◌≡◌, refl, ap, ◌∙◌, sym, inl, inr, find, ◌==◌,
}
use mathlib.Core.Path.{subst, subst₂}
use mathlib.Core.Option.{some-injective}
use veri_proof_hackerton.Money.{Decimal}
use veri_proof_hackerton.Models.{IpAsset, License, RoyaltyDistribution, World, asset_by_id}
use veri_proof_hackerton.Env.{Env}
use veri_proof_hackerton.Events.{SameRows, try_record_event-SameRows}
use veri_proof_hackerton.Royalty.{
  TransferUsdc, Leg, settle_leg, settle_legs, attempt, distribute, distribute_priced, legs_of,
  record_royalty_split, or_zero, parent_of,
}
use veri_proof_hackerton.Royalty.Legs.{
  AllSettled, Found, Found-rows, settle_leg_cases, settle_legs-Found, settle_legs-Found',
}
use veri_proof_hackerton.Royalty.Ledger.{IsBalanced, settle_legs-IsBalanced}

-- The tables that a leg never writes.
record Untouched (w w' : World) : Type 0 where
  assets : w'.assets ≡ w.assets
  licenses : w'.licenses ≡ w.licenses

attempt-Untouched :
    (solana : Option TransferUsdc) (license : License) (leg : Leg) (w : World)
    → Untouched w (attempt solana license leg w).1
attempt-Untouched none license leg w = record { assets = refl; licenses = refl }
attempt-Untouched (some transfer) license leg w = record { assets = refl; licenses = refl }

settle_leg-Untouched :
    (solana : Option TransferUsdc) (license : License) (leg : Leg) (w : World)
    → Untouched w (settle_leg solana license leg w).1
settle_leg-Untouched solana license leg w = elim (settle_leg_cases solana license leg w) [
  | inl (rec, done, same) ↦
      subst (λ x. Untouched w x.1) (sym same) (record { assets = refl; licenses = refl })
  | inr (open_leg, tried) ↦
      subst (λ x. Untouched w x.1) (sym tried) (attempt-Untouched solana license leg w)
]

settle_legs-Untouched :
    (solana : Option TransferUsdc) (license : License) (legs : List Leg) (w : World)
    → Untouched w (settle_legs solana license legs w).1
unfolding settle_legs
settle_legs-Untouched solana license [] w = record { assets = refl; licenses = refl }
settle_legs-Untouched solana license (leg ∷ legs) w =
    let one = settle_leg-Untouched solana license leg w in
    let rest = settle_legs-Untouched solana license legs (settle_leg solana license leg w).1 in
    record { assets = rest.assets ∙ one.assets; licenses = rest.licenses ∙ one.licenses }

abbrev legs_at : IpAsset → Decimal → IpAsset → List Leg
legs_at asset price parent =
    legs_of parent.creator.wallet_address asset.creator.wallet_address price
      (or_zero asset.royalty_share_bps)

-- A distribution that does not raise has settled the legs and recorded the event, no more.
distribute_run :
    (env : Env) (solana : Option TransferUsdc) (license : License) (asset : IpAsset) (w : World)
    (price : Option Decimal) (parent : Option IpAsset) {recs : List RoyaltyDistribution}
    {w' : World}
    → distribute_priced env solana license asset w price parent ≡ some (recs, w')
    → (amount : Decimal) × (from : IpAsset) × (price ≡ some amount)
      × (parent ≡ some from)
      × (recs ≡ (settle_legs solana license (legs_at asset amount from) w).0)
      × SameRows w' (settle_legs solana license (legs_at asset amount from) w).1
unfolding record_royalty_split
distribute_run env solana license asset w none parent h = absurd (cc)
distribute_run env solana license asset w (some price) none h = absurd (cc)
distribute_run env solana license asset w (some price) (some parent) {recs} {w'} h =
    let legs : List Leg = legs_at asset price parent in
    let (recs', settled) = settle_legs solana license legs w in
    let logged : World =
      record_royalty_split env license asset (or_zero asset.royalty_share_bps) price legs recs'
        settled in
    let same : ◌≡◌ {A = List RoyaltyDistribution × World} (recs', logged) (recs, w') =
      some-injective _ _ h in
    (
      price,
      parent,
      refl,
      refl,
      ap (λ x. x.0) (sym same),
      subst (λ x. SameRows x settled) (ap (λ x. x.1) same)
          (try_record_event-SameRows env "ROYALTY_SPLIT" _ (some asset) none settled),
    )

parent_of-assets :
    (asset : IpAsset) (w w' : World) → w'.assets ≡ w.assets → parent_of asset w' ≡ parent_of asset w
parent_of-assets asset w w' e = go asset.parent_asset_id
  where
    go :
        (id : Option String)
        → ◌≡◌ {A = Option IpAsset}
            (elim id [ none ↦ none | some i ↦ asset_by_id i w' ])
            (elim id [ none ↦ none | some i ↦ asset_by_id i w ])
    go none = refl
    go (some i) = ap (find (λ a. a.id == i)) e

-- A distribution writes no license.
pub distribute-licenses :
    (env : Env) (solana : Option TransferUsdc) (license : License) (asset : IpAsset) (w : World)
    {recs : List RoyaltyDistribution} {w' : World}
    → distribute env solana license asset w ≡ some (recs, w')
    → w'.licenses ≡ w.licenses
unfolding distribute
distribute-licenses env solana license asset w h =
    let (amount, from, _, _, _, rows) = distribute_run env solana license asset w _ _ h in
    rows.licenses ∙ (settle_legs-Untouched solana license (legs_at asset amount from) w).licenses

-- A distribution keeps the settled rows equal to what the escrow has sent.
pub distribute-IsBalanced :
    (env : Env) (solana : Option TransferUsdc) (license : License) (asset : IpAsset) (w : World)
    {recs : List RoyaltyDistribution} {w' : World}
    → IsBalanced w
    → distribute env solana license asset w ≡ some (recs, w')
    → IsBalanced w'
unfolding distribute
distribute-IsBalanced env solana license asset w balanced h =
    let (amount, from, _, _, _, rows) = distribute_run env solana license asset w _ _ h in
    rw (rows.distributions, rows.transfers)
      (settle_legs-IsBalanced solana license (legs_at asset amount from) w balanced)

-- If a distribution has settled every leg, a second one for the same license and asset, whatever
-- the backend then, returns the same rows, makes no transfer and adds no row.
pub distribute_replay :
    (env env' : Env) (solana solana' : Option TransferUsdc) (license : License) (asset : IpAsset)
    (w : World) {recs recs' : List RoyaltyDistribution} {w' w'' : World}
    → distribute env solana license asset w ≡ some (recs, w')
    → AllSettled recs
    → distribute env' solana' license asset w' ≡ some (recs', w'')
    → (recs' ≡ recs) × (w''.transfers ≡ w'.transfers) × (w''.distributions ≡ w'.distributions)
unfolding distribute
distribute_replay env env' solana solana' license asset w {w'} first done second =
    let (amount, from, ep, ef, er, rows) = distribute_run env solana license asset w _ _ first in
    let (amount', from', ep', ef', er', rows') =
      distribute_run env' solana' license asset _ _ _ second in
    let legs : List Leg = legs_at asset amount from in
    let same_price : amount' ≡ amount = some-injective _ _ (sym ep' ∙ ep) in
    let assets : w'.assets ≡ w.assets =
      rows.assets ∙ (settle_legs-Untouched solana license legs w).assets in
    let same_parent : from' ≡ from =
      some-injective _ _ (sym ef' ∙ parent_of-assets asset w w' assets ∙ ef) in
    let settled : AllSettled (settle_legs solana license legs w).0 = subst AllSettled er done in
    let found : Found license w' legs (settle_legs solana license legs w).0 =
      Found-rows license legs _ (settle_legs solana license legs w).1 w' rows.distributions
        (settle_legs-Found solana license legs w settled) in
    let run : settle_legs solana' license (legs_at asset amount' from') w'
        ≡ ((settle_legs solana license legs w).0, w') =
      subst₂
        (λ a f.
          settle_legs solana' license (legs_at asset a f) w'
          ≡ ((settle_legs solana license legs w).0, w'))
        (sym same_price) (sym same_parent) (settle_legs-Found' solana' license legs _ w' found) in
    (
      er' ∙ ap (λ x. x.0) run ∙ sym er,
      rows'.transfers ∙ ap (λ x. x.1.transfers) run,
      rows'.distributions ∙ ap (λ x. x.1.distributions) run,
    )
