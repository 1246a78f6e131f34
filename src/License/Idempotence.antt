-- ===== src/License/Idempotence.antt =====
-- `LicenseService.grant` of veriproof/services/license_service.py, called again for a payment.
use veri_proof_hackerton.Prelude.{
  String, none, some, List, [], ◌∷◌, ◌++◌, ◌==◌, ◌≡◌, ◌≢◌, refl, arith, ◌⊎◌, inl, inr, Option-cases,
  eq_iff, find-append_none,
}
use mathlib.Core.Path.{subst, sym, ap, ◌∙◌}
use text.Mathlib.TextPositions.{eq_refl}
use veri_proof_hackerton.Models.{IpAsset, License, World}
use veri_proof_hackerton.Env.{Env}
use veri_proof_hackerton.Events.{best_effort-SameRows, SameRows, SameRows-trans}
use veri_proof_hackerton.License.{
  LicenseService, Purchase, license_by_tx, new_license, grant, add_license, record_payment_verified,
  record_license_issued, grant_found, grant_new,
}

-- A first grant changes no row but the licenses: it adds one.
pub grant_new-SameRows :
    (service : LicenseService) (env : Env) (asset : IpAsset) (p : Purchase) (w : World)
    → SameRows
        (grant_new service env asset p w).1
        (add_license (new_license service env asset p w.draws) w)
unfolding record_payment_verified record_license_issued
grant_new-SameRows service env asset p w =
    SameRows-trans _ _ _ (best_effort-SameRows service.has_recorder env _ _ _ _ _)
      (best_effort-SameRows service.has_recorder env _ _ _ _ _)

module _ (service : LicenseService) (env : Env) (asset : IpAsset) (p : Purchase) (w : World) where
  -- Either the payment has a license, and nothing happens, or the new one is added.
  pub grant_cases :
      ((l : License) × (license_by_tx p.payment_tx w.licenses ≡ some l)
        × (grant service env asset p w ≡ (l, w)))
      ⊎ ((license_by_tx p.payment_tx w.licenses ≡ none)
          × (grant service env asset p w ≡ grant_new service env asset p w))
  unfolding grant
  grant_cases = elim (Option-cases (license_by_tx p.payment_tx w.licenses)) [
    | inl fresh ↦ inr (fresh, ap (grant_found service env asset p w) fresh)
    | inr (l, known) ↦ inl (l, known, ap (grant_found service env asset p w) known)
  ]

  pub licenses-grant_new :
      (grant_new service env asset p w).1.licenses
      ≡ w.licenses ++ new_license service env asset p w.draws ∷ []
  unfolding add_license
  licenses-grant_new = (grant_new-SameRows service env asset p w).licenses

  -- The license that comes back is for the payment that was asked about.
  tx-new_license : (new_license service env asset p w.draws).payment_tx_sig ≡ p.payment_tx
  unfolding new_license
  tx-new_license = refl

  -- After a grant the payment's license is the one that was returned.
  pub grant_stores :
      let (l, w') = grant service env asset p w in license_by_tx p.payment_tx w'.licenses ≡ some l
  grant_stores = elim grant_cases [
    | inl (l, known, same) ↦
        subst (λ x. license_by_tx p.payment_tx x.1.licenses ≡ some x.0) (sym same) known
    | inr (fresh, made) ↦
        subst (λ x. license_by_tx p.payment_tx x.1.licenses ≡ some x.0) (sym made)
          (rw (
            licenses-grant_new,
            find-append_none (λ l. l.payment_tx_sig == p.payment_tx) w.licenses _ fresh,
            tx-new_license,
            eq_refl,
          ))
  ]

  -- A payment other than the one that is granted keeps its license, or has none as before.
  pub grant_others :
      (tx : String)
      → tx ≢ p.payment_tx
      → license_by_tx tx (grant service env asset p w).1.licenses ≡ license_by_tx tx w.licenses
  grant_others tx other = elim grant_cases [
    | inl (l, known, same) ↦ rw same
    | inr (fresh, made) ↦ rw (made, licenses-grant_new) (last tx other w.licenses)
  ]
    where
      last :
          (tx : String)
          → tx ≢ p.payment_tx
          → (rows : List License)
          → license_by_tx tx (rows ++ new_license service env asset p w.draws ∷ [])
            ≡ license_by_tx tx rows
      last tx other [] = ground (arith, tx-new_license, eq_iff p.payment_tx tx)
      last tx other (l ∷ rows) = ground (arith, last tx other rows)

-- No two licenses are for one payment.
abbrev pub HasUniqueTx : List License → Type 0
HasUniqueTx [] = Unit
HasUniqueTx (l ∷ rows) = (license_by_tx l.payment_tx_sig rows ≡ none) × HasUniqueTx rows

HasUniqueTx-append :
    (rows : List License) (l : License)
    → license_by_tx l.payment_tx_sig rows ≡ none
    → HasUniqueTx rows
    → HasUniqueTx (rows ++ l ∷ [])
HasUniqueTx-append [] l new h = (refl, tt)
HasUniqueTx-append (x ∷ rows) l new h = ground (
  arith,
  HasUniqueTx-append rows l,
  eq_iff x.payment_tx_sig l.payment_tx_sig,
  eq_iff l.payment_tx_sig x.payment_tx_sig,
  find-append_none (λ (y : License). y.payment_tx_sig == x.payment_tx_sig) rows (l ∷ []),
)

-- A grant keeps payments unique: a payment that is already licensed never gets a second row.
pub grant-HasUniqueTx :
    (service : LicenseService) (env : Env) (asset : IpAsset) (p : Purchase) (w : World)
    → HasUniqueTx w.licenses
    → HasUniqueTx (grant service env asset p w).1.licenses
grant-HasUniqueTx service env asset p w h = elim (grant_cases service env asset p w) [
  | inl (l, known, same) ↦ rw same h
  | inr (fresh, made) ↦
      rw (made, licenses-grant_new service env asset p w)
        (HasUniqueTx-append w.licenses (new_license service env asset p w.draws)
          (rw (tx-new_license service env asset p w) fresh) h)
]

-- Replaying a payment, whoever asks and for whatever asset, price or buyer, returns the license of
-- the first grant and changes nothing, not even the event log.
pub grant_replay :
    (service service' : LicenseService) (env env' : Env) (asset asset' : IpAsset) (p p' : Purchase)
    (w : World)
    → p'.payment_tx ≡ p.payment_tx
    → grant service' env' asset' p' (grant service env asset p w).1 ≡ grant service env asset p w
unfolding grant
grant_replay service service' env env' asset asset' p p' w same =
    let (l, w') = grant service env asset p w in
    let stored : license_by_tx p'.payment_tx w'.licenses ≡ some l =
      rw same (grant_stores service env asset p w) in
    ap (grant_found service' env' asset' p' w') stored

-- A grant touches no royalty row and makes no transfer.
pub grant_keeps :
    (service : LicenseService) (env : Env) (asset : IpAsset) (p : Purchase) (w : World)
    → let w' : World = (grant service env asset p w).1 in
      (w'.distributions ≡ w.distributions) × (w'.transfers ≡ w.transfers) × (w'.assets ≡ w.assets)
unfolding add_license
grant_keeps service env asset p w = elim (grant_cases service env asset p w) [
  | inl (l, known, same) ↦
      (ap (λ x. x.1.distributions) same, ap (λ x. x.1.transfers) same, ap (λ x. x.1.assets) same)
  | inr (fresh, made) ↦
      let rows = grant_new-SameRows service env asset p w in
      (
        ap (λ x. x.1.distributions) made ∙ rows.distributions,
        ap (λ x. x.1.transfers) made ∙ rows.transfers,
        ap (λ x. x.1.assets) made ∙ rows.assets,
      )
]

pub grant_orders :
    (service : LicenseService) (env : Env) (asset : IpAsset) (p : Purchase) (w : World)
    → (grant service env asset p w).1.orders ≡ w.orders
unfolding add_license
grant_orders service env asset p w = elim (grant_cases service env asset p w) [
  | inl (l, known, same) ↦ ap (λ x. x.1.orders) same
  | inr (fresh, made) ↦
      ap (λ x. x.1.orders) made ∙ (grant_new-SameRows service env asset p w).orders
]
