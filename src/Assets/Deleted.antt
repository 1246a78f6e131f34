-- ===== src/Assets/Deleted.antt =====
-- `delete_asset` of veriproof/apps/ip/views_api.py and the payments of the deleted work.
use veri_proof_hackerton.Prelude.{
  String, Bool, true, false, Option, none, some, List, [], ◌∷◌, ◌≡◌, refl, ap, ◌∙◌, map, find, ◌==◌,
  eq_iff, arith,
}
use veri_proof_hackerton.Models.{IpAsset, License, NegotiationSession, World}
use veri_proof_hackerton.Env.{Env}
use veri_proof_hackerton.License.{
  LicenseService, Purchase, license_by_tx, grant, grant_found, new_license,
}
use veri_proof_hackerton.License.Idempotence.{HasUniqueTx}
use veri_proof_hackerton.Registration.{Office}
use veri_proof_hackerton.Assets.{owned}
use veri_proof_hackerton.Assets.Deletion.{
  delete_asset, delete_rows, delete_owned, delete_unless, deleted, keep, without_session,
  is_protected,
}

module _ (id : String) (sessions : List NegotiationSession) where
  without_session_asset : (l : License) → (without_session id sessions l).asset ≡ l.asset
  without_session_asset l = ground arith

  without_session_tx :
      (l : License) → (without_session id sessions l).payment_tx_sig ≡ l.payment_tx_sig
  without_session_tx l = ground arith

  abbrev kept : List License → List License
  kept rows = keep (λ l. l.asset == id) (map (without_session id sessions) rows)

  kept_none :
      (tx : String) (rows : List License)
      → license_by_tx tx rows ≡ none
      → license_by_tx tx (kept rows) ≡ none
  kept_none tx [] h = refl
  kept_none tx (l ∷ rows) h =
      ground (arith, kept_none tx rows, without_session_asset l, without_session_tx l)

  -- A payment whose license was for the deleted work has no license afterwards.
  kept_gone :
      (tx : String) (rows : List License) (l : License)
      → HasUniqueTx rows
      → license_by_tx tx rows ≡ some l
      → (l.asset == id) ≡ true
      → license_by_tx tx (kept rows) ≡ none
  kept_gone tx [] l unique found mine = refl
  kept_gone tx (x ∷ rows) l unique found mine = ground (
    arith,
    unique,
    eq_iff x.payment_tx_sig tx,
    kept_none tx rows,
    kept_gone tx rows l,
    without_session_asset x,
    without_session_tx x,
  )

rows_when :
    (protected : Bool) (id : String) (o : Office)
    → (delete_unless protected id o).0 ≡ deleted
    → (delete_unless protected id o).1 ≡ delete_rows id o
rows_when true id o h = absurd cc
rows_when false id o h = refl

delete_owned_rows :
    (id : String) (found : Option IpAsset) (o : Office)
    → (delete_owned id found o).0 ≡ deleted
    → (delete_owned id found o).1 ≡ delete_rows id o
delete_owned_rows id none o h = absurd cc
delete_owned_rows id (some asset) o h = rows_when (is_protected id o) id o h

-- After a work was deleted, a payment that had licensed it is free: a grant under it, to whoever and
-- for whatever work, makes a new license, where before it would have returned the license it had
-- paid for.
pub delete_asset-grant :
    (user id : String) (o : Office) (l : License) (service : LicenseService) (env : Env)
    (asset : IpAsset) (p : Purchase)
    → HasUniqueTx o.world.licenses
    → license_by_tx p.payment_tx o.world.licenses ≡ some l
    → (l.asset == id) ≡ true
    → (delete_asset true (some user) id o).0 ≡ deleted
    → let w : World = (delete_asset true (some user) id o).1.world in
      (license_by_tx p.payment_tx w.licenses ≡ none)
      × ((grant service env asset p w).0 ≡ new_license service env asset p w.draws)
      × ((grant service env asset p o.world).0 ≡ l)
unfolding delete_asset delete_rows grant
delete_asset-grant user id o l service env asset p unique found mine done =
    let rows : (delete_asset true (some user) id o).1 ≡ delete_rows id o =
      delete_owned_rows id (find (owned id user) o.world.assets) o done in
    let free : license_by_tx p.payment_tx (delete_asset true (some user) id o).1.world.licenses
        ≡ none =
      ap (λ x. license_by_tx p.payment_tx x.world.licenses) rows
      ∙ kept_gone id o.world.sessions p.payment_tx o.world.licenses l unique found mine in
    (
      free,
      ap (λ x. (grant_found service env asset p (delete_asset true (some user) id o).1.world x).0)
          free,
      ap (λ x. (grant_found service env asset p o.world x).0) found,
    )
