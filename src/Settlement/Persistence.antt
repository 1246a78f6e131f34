-- ===== src/Settlement/Persistence.antt =====
-- A settlement of veriproof/apps/settlement/services.py takes no license away.
use veri_proof_hackerton.Prelude.{
  String, Option, none, some, List, ◌==◌, ◌||◌, ◌≡◌, refl, ap, ◌∙◌, inl, inr, if-both, Bool, true,
  false, find-append_some,
}
use veri_proof_hackerton.Models.{IpAsset, License, RoyaltyDistribution, World, asset_by_id}
use veri_proof_hackerton.Env.{Env}
use veri_proof_hackerton.License.{LicenseService, Purchase, license_by_tx, grant}
use veri_proof_hackerton.License.Idempotence.{grant_cases, licenses-grant_new}
use veri_proof_hackerton.Settlement.{
  SettlementService, Settlement, Outcome, CertificateOutcome, issued, refused, crashed, certify,
  save_certificate, finish, after_certificate, settle_verified, after_verification, settle_pipeline,
  verify_payment, purchase_of, publish, share_royalties, record_cert_issued, distribute_for,
}
use veri_proof_hackerton.Settlement.Pipeline.{lookup-certify, publish-SameRows}
use veri_proof_hackerton.Events.{try_record_event-SameRows}
use veri_proof_hackerton.Royalty.{distribute}
use veri_proof_hackerton.Royalty.Distribute.{distribute-licenses}

abbrev SameLicenses : World → World → Type 0
SameLicenses w w' = w'.licenses ≡ w.licenses

distribute_for-licenses :
    (s : SettlementService) (license : License) (w : World) (asset : Option IpAsset)
    → (distribute_for s license w asset).licenses ≡ w.licenses
distribute_for-licenses s license w none = refl
distribute_for-licenses s license w (some asset) =
    run (distribute s.env s.chain.transfer_usdc license asset w) refl
  where
    run :
        (r : Option (List RoyaltyDistribution × World))
        → distribute s.env s.chain.transfer_usdc license asset w ≡ r
        → SameLicenses w (elim r [ none ↦ w | some (recs, w') ↦ w' ])
    run none e = refl
    run (some (recs, w')) e = distribute-licenses s.env s.chain.transfer_usdc license asset w e

share_royalties-licenses :
    (s : SettlementService) (x : Settlement) (license : License) (w : World)
    → (share_royalties s x license w).licenses ≡ w.licenses
unfolding share_royalties
share_royalties-licenses s x license w = go x.asset.parent_asset_id
  where
    go :
        (parent : Option String)
        → SameLicenses w (elim parent [
          | none ↦ w
          | some _ ↦ distribute_for s license w (asset_by_id license.asset w)
        ])
    go none = refl
    go (some _) = distribute_for-licenses s license w (asset_by_id license.asset w)

finish-licenses :
    (s : SettlementService) (x : Settlement) (license : License) (certificate_tx : Option String)
    (w : World)
    → (finish s x license certificate_tx w).1.licenses ≡ w.licenses
unfolding finish record_cert_issued
finish-licenses s x license certificate_tx w =
    (try_record_event-SameRows s.env "CERT_ISSUED" _ (some x.asset) x.session
      (share_royalties s x license (publish s x certificate_tx w))).licenses
    ∙ share_royalties-licenses s x license (publish s x certificate_tx w)
    ∙ (publish-SameRows s x certificate_tx w).licenses

-- The payment has a license.
abbrev pub IsLicensed : String → World → Type 0
IsLicensed tx w = (l : License) × (license_by_tx tx w.licenses ≡ some l)

pub IsLicensed-same :
    (tx : String) (w w' : World) → w'.licenses ≡ w.licenses → IsLicensed tx w → IsLicensed tx w'
IsLicensed-same tx w w' same (l, stored) = (l, ap (license_by_tx tx) same ∙ stored)

pub grant-IsLicensed :
    (service : LicenseService) (env : Env) (asset : IpAsset) (p : Purchase) (tx : String)
    (w : World)
    → IsLicensed tx w
    → IsLicensed tx (grant service env asset p w).1
grant-IsLicensed service env asset p tx w (l, stored) = elim (grant_cases service env asset p w) [
  | inl (l', known, same) ↦ (l, rw same stored)
  | inr (fresh, made) ↦ (
    l,
    rw (made, licenses-grant_new service env asset p w)
        (find-append_some (λ l. l.payment_tx_sig == tx) w.licenses _ l stored),
  )
]

module _ (s : SettlementService) (x : Settlement) (tx : String) where
  save_certificate-IsLicensed :
      (license : License) (signature : String) (w : World)
      → IsLicensed tx w
      → IsLicensed tx (save_certificate license signature w)
  unfolding save_certificate
  save_certificate-IsLicensed license signature w (l, stored) =
      (certify license.id signature l, lookup-certify license.id signature tx w.licenses l stored)

  finish-IsLicensed :
      (license : License) (certificate_tx : Option String) (w : World)
      → IsLicensed tx w
      → IsLicensed tx (finish s x license certificate_tx w).1
  finish-IsLicensed license certificate_tx w =
      IsLicensed-same tx w (finish s x license certificate_tx w).1
        (finish-licenses s x license certificate_tx w)

  after_certificate-IsLicensed :
      (license : License) (w : World) (o : CertificateOutcome)
      → IsLicensed tx w
      → IsLicensed tx (after_certificate s x license w o).1
  after_certificate-IsLicensed license w (issued signature) h =
      finish-IsLicensed (record license { certificate_tx_sig = some signature }) (some signature)
        (save_certificate license signature w) (save_certificate-IsLicensed license signature w h)
  after_certificate-IsLicensed license w refused h = finish-IsLicensed license none w h
  after_certificate-IsLicensed license w crashed h = h

  settle_verified-IsLicensed :
      (w : World) → IsLicensed tx w → IsLicensed tx (settle_verified s x w).1
  unfolding settle_verified
  settle_verified-IsLicensed w h =
      after_certificate-IsLicensed (grant s.licenses s.env x.asset (purchase_of x) w).0
        (grant s.licenses s.env x.asset (purchase_of x) w).1 _
        (grant-IsLicensed s.licenses s.env x.asset (purchase_of x) tx w h)

  after_verification-IsLicensed :
      (w : World) (verdict : Option Bool)
      → IsLicensed tx w
      → IsLicensed tx (after_verification s x w verdict).1
  after_verification-IsLicensed w none h = h
  after_verification-IsLicensed w (some false) h = h
  after_verification-IsLicensed w (some true) h = settle_verified-IsLicensed w h

  -- A payment that has a license still has one after any settlement, however it ends.
  pub settle_pipeline-IsLicensed :
      (w : World) → IsLicensed tx w → IsLicensed tx (settle_pipeline s x w).1
  unfolding settle_pipeline
  settle_pipeline-IsLicensed w h =
      if-both (λ (o : Outcome × World). IsLicensed tx o.1)
        (x.payment_currency == "USDC" || x.payment_currency == "SOL") _ _
        (after_verification-IsLicensed w (verify_payment s x) h) h
