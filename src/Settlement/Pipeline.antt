-- ===== src/Settlement/Pipeline.antt =====
-- What veriproof/apps/settlement/services.py promises of `settle_pipeline`.
use veri_proof_hackerton.Prelude.{
  String, Bool, true, false, Option, none, some, List, [], ◌∷◌, map, ◌==◌, ◌||◌, ◌≡◌, refl, sym, ap,
  ◌∙◌, arith, if-both,
}
use mathlib.Core.Path.{subst}
use text.Mathlib.TextPositions.{eq_refl}
use veri_proof_hackerton.Models.{IpAsset, License, World, asset_by_id, RoyaltyDistribution}
use veri_proof_hackerton.Events.{SameRows, try_record_event-SameRows, mirror_set, audit_insert}
use veri_proof_hackerton.License.{license_by_tx, grant}
use veri_proof_hackerton.License.Idempotence.{
  HasUniqueTx, grant_stores, grant-HasUniqueTx, grant_keeps,
}
use veri_proof_hackerton.Royalty.{distribute}
use veri_proof_hackerton.Royalty.Ledger.{IsBalanced}
use veri_proof_hackerton.Royalty.Distribute.{distribute-IsBalanced, distribute-licenses}
use veri_proof_hackerton.Settlement.Verified.{IsVerified, verify_payment-IsVerified}
use veri_proof_hackerton.Settlement.{
  Settlement, SettlementService, Outcome, success, invalid, raised, CertificateOutcome, issued,
  refused, crashed, verify_payment, purchase_of, certify, save_certificate, publish,
  share_royalties, record_cert_issued, finish, after_certificate, settle_verified,
  after_verification, settle_pipeline, distribute_for,
}

pub lookup-certify :
    (id signature tx : String) (rows : List License) (l : License)
    → license_by_tx tx rows ≡ some l
    → license_by_tx tx (map (certify id signature) rows) ≡ some (certify id signature l)
lookup-certify id signature tx [] l h = cc
lookup-certify id signature tx (x ∷ rows) l h =
    ground (arith, lookup-certify id signature tx rows l)

lookup-certify-none :
    (id signature tx : String) (rows : List License)
    → license_by_tx tx rows ≡ none
    → license_by_tx tx (map (certify id signature) rows) ≡ none
lookup-certify-none id signature tx [] h = refl
lookup-certify-none id signature tx (x ∷ rows) h =
    ground (arith, lookup-certify-none id signature tx rows)

tx-certify :
    (id signature : String) (l : License)
    → (certify id signature l).payment_tx_sig ≡ l.payment_tx_sig
tx-certify id signature l = ground arith

HasUniqueTx-certify :
    (id signature : String) (rows : List License)
    → HasUniqueTx rows
    → HasUniqueTx (map (certify id signature) rows)
HasUniqueTx-certify id signature [] h = tt
HasUniqueTx-certify id signature (x ∷ rows) h = (
  rw tx-certify (lookup-certify-none id signature x.payment_tx_sig rows h.0),
  HasUniqueTx-certify id signature rows h.1,
)

-- Payments are unique, and the settled royalty rows are the escrow's transfers, one for one.
abbrev pub IsConsistent : World → Type 0
IsConsistent w = HasUniqueTx w.licenses × IsBalanced w

pub IsConsistent-SameRows : (w w' : World) → SameRows w' w → IsConsistent w → IsConsistent w'
IsConsistent-SameRows w w' same (unique, balanced) =
    (subst HasUniqueTx (sym same.licenses) unique, rw (same.distributions, same.transfers) balanced)

pub publish-SameRows :
    (s : SettlementService) (x : Settlement) (certificate_tx : Option String) (w : World)
    → SameRows (publish s x certificate_tx w) w
unfolding publish mirror_set audit_insert
publish-SameRows s x certificate_tx w = record {
  assets = refl;
  sessions = refl;
  licenses = refl;
  distributions = refl;
  orders = refl;
  items = refl;
  transfers = refl;
}

-- What a step leaves of the licenses, and the agreement of the royalty rows.
pub record Preserves (w w' : World) : Type 0 where
  pub licenses : w'.licenses ≡ w.licenses
  pub balanced : IsBalanced w'

distribute_for-Preserves :
    (s : SettlementService) (license : License) (w : World) (asset : Option IpAsset)
    → IsBalanced w
    → Preserves w (distribute_for s license w asset)
distribute_for-Preserves s license w none h = record { licenses = refl; balanced = h }
distribute_for-Preserves s license w (some asset) h =
    run (distribute s.env s.chain.transfer_usdc license asset w) refl
  where
    run :
        (r : Option (List RoyaltyDistribution × World))
        → distribute s.env s.chain.transfer_usdc license asset w ≡ r
        → Preserves w (elim r [ none ↦ w | some (recs, w') ↦ w' ])
    run none e = record { licenses = refl; balanced = h }
    run (some (recs, w')) e = record {
      licenses = distribute-licenses s.env s.chain.transfer_usdc license asset w e;
      balanced = distribute-IsBalanced s.env s.chain.transfer_usdc license asset w h e;
    }

share_royalties-Preserves :
    (s : SettlementService) (x : Settlement) (license : License) (w : World)
    → IsBalanced w
    → Preserves w (share_royalties s x license w)
unfolding share_royalties
share_royalties-Preserves s x license w h = go x.asset.parent_asset_id
  where
    go :
        (parent : Option String)
        → Preserves w (elim parent [
          | none ↦ w
          | some _ ↦ distribute_for s license w (asset_by_id license.asset w)
        ])
    go none = record { licenses = refl; balanced = h }
    go (some _) = distribute_for-Preserves s license w (asset_by_id license.asset w) h

-- Steps D to G write no license.
pub finish-Preserves :
    (s : SettlementService) (x : Settlement) (license : License) (certificate_tx : Option String)
    (w : World)
    → IsBalanced w
    → Preserves w (finish s x license certificate_tx w).1
unfolding finish record_cert_issued
finish-Preserves s x license certificate_tx w h =
    let published = publish-SameRows s x certificate_tx w in
    let shared =
      share_royalties-Preserves s x license (publish s x certificate_tx w)
        (rw (published.distributions, published.transfers) h) in
    let logged =
      try_record_event-SameRows s.env "CERT_ISSUED" _ (some x.asset) x.session
        (share_royalties s x license (publish s x certificate_tx w)) in
    record {
      licenses = logged.licenses ∙ shared.licenses ∙ published.licenses;
      balanced = rw (logged.distributions, logged.transfers) shared.balanced;
    }

-- What a run of the pipeline has done, by how it ended. A success has a verified payment and has
-- stored the license that it returns; an invalid payment changes nothing at all; an exception has
-- left royalty rows and transfers alone. However it ends, the tables stay consistent.
abbrev pub Settled : SettlementService → Settlement → World → Outcome × World → Type 0
Settled s x w (success r, w') =
    IsVerified s x × (license_by_tx x.tx_signature w'.licenses ≡ some r.license) × IsConsistent w'
Settled s x w (invalid, w') = (verify_payment s x ≡ some false) × (w' ≡ w)
Settled s x w (raised, w') =
    IsConsistent w' × (w'.distributions ≡ w.distributions) × (w'.transfers ≡ w.transfers)

certify_self :
    (signature : String) (l : License)
    → certify l.id signature l ≡ record l { certificate_tx_sig = some signature }
certify_self signature l = rw (eq_refl l.id)

module _ (s : SettlementService) (x : Settlement) (w : World) where
  finish-Settled :
      (license : License) (certificate_tx : Option String) (w₁ : World)
      → IsVerified s x
      → license_by_tx x.tx_signature w₁.licenses ≡ some license
      → IsConsistent w₁
      → Settled s x w (finish s x license certificate_tx w₁)
  finish-Settled license certificate_tx w₁ verified stored (unique, balanced) =
      let after = finish-Preserves s x license certificate_tx w₁ balanced in
      unfold finish in
      (
        verified,
        ap (license_by_tx x.tx_signature) after.licenses ∙ stored,
        (subst HasUniqueTx (sym after.licenses) unique, after.balanced),
      )

  after_certificate-Settled :
      (license : License) (w₁ : World) (outcome : CertificateOutcome)
      → IsVerified s x
      → license_by_tx x.tx_signature w₁.licenses ≡ some license
      → IsConsistent w₁
      → w₁.distributions ≡ w.distributions
      → w₁.transfers ≡ w.transfers
      → Settled s x w (after_certificate s x license w₁ outcome)
  unfolding save_certificate
  after_certificate-Settled license w₁ (issued signature) verified stored (unique, balanced) rows
        sent =
      finish-Settled (record license { certificate_tx_sig = some signature }) (some signature)
        (save_certificate license signature w₁) verified
        (lookup-certify license.id signature x.tx_signature w₁.licenses license stored
          ∙ ap (λ l. some l) (certify_self signature license))
        (HasUniqueTx-certify license.id signature w₁.licenses unique, balanced)
  after_certificate-Settled license w₁ refused verified stored ok rows sent =
      finish-Settled license none w₁ verified stored ok
  after_certificate-Settled license w₁ crashed verified stored ok rows sent = (ok, rows, sent)

  settle_verified-Settled : IsVerified s x → IsConsistent w → Settled s x w (settle_verified s x w)
  unfolding settle_verified purchase_of
  settle_verified-Settled verified (unique, balanced) =
      let (license, w₁) = grant s.licenses s.env x.asset (purchase_of x) w in
      let (rows, transfers, _) = grant_keeps s.licenses s.env x.asset (purchase_of x) w in
      after_certificate-Settled license w₁ _ verified
        (grant_stores s.licenses s.env x.asset (purchase_of x) w)
        (
          grant-HasUniqueTx s.licenses s.env x.asset (purchase_of x) w unique,
          rw (rows, transfers) balanced,
        )
        rows transfers

  after_verification-Settled :
      (verdict : Option Bool)
      → verify_payment s x ≡ verdict
      → IsConsistent w
      → Settled s x w (after_verification s x w verdict)
  after_verification-Settled none e ok = (ok, refl, refl)
  after_verification-Settled (some false) e ok = (e, refl)
  after_verification-Settled (some true) e ok =
      settle_verified-Settled (verify_payment-IsVerified s x e) ok

-- From a database in which payments are unique and the settled royalty rows are the escrow's
-- transfers, one for one: a settlement that succeeds was marked as verified by its caller, or has the
-- chain's word on the payment of its price to its payee, and has stored the license that it returns
-- under that payment; a settlement that finds the payment invalid has changed nothing; one
-- that raises has written no royalty row and made no transfer; and however a settlement ends, the
-- database is consistent again.
pub settle_pipeline-Settled :
    (s : SettlementService) (x : Settlement) (w : World)
    → IsConsistent w
    → Settled s x w (settle_pipeline s x w)
unfolding settle_pipeline
settle_pipeline-Settled s x w ok =
    if-both (Settled s x w) (x.payment_currency == "USDC" || x.payment_currency == "SOL") _ _
      (after_verification-Settled s x w (verify_payment s x) refl ok) (ok, refl, refl)

pub settle_pipeline-IsConsistent :
    (s : SettlementService) (x : Settlement) (w : World)
    → IsConsistent w
    → IsConsistent (settle_pipeline s x w).1
settle_pipeline-IsConsistent s x w ok =
    go (settle_pipeline s x w) (settle_pipeline-Settled s x w ok)
  where
    go : (o : Outcome × World) → Settled s x w o → IsConsistent o.1
    go (success r, w') h = h.2
    go (invalid, w') h = subst IsConsistent (sym h.1) ok
    go (raised, w') h = h.0
