-- ===== src/License/Access.antt =====
-- `is_licensed` of veriproof/services/license_service.py, after a grant and in general.
use veri_proof_hackerton.Prelude.{
  ℕ, String, none, some, List, [], ◌∷◌, ◌++◌, ltb, ◌&&◌, ◌==◌, ◌+◌, ◌≡◌, ◌≢◌, refl, arith, inl, inr,
  eq_iff, find-append_none,
}
use text.Mathlib.TextPositions.{eq_refl}
use veri_proof_hackerton.Models.{IpAsset, License, World}
use veri_proof_hackerton.Env.{Env}
use veri_proof_hackerton.License.{
  LicenseService, Purchase, license_by_tx, license_for, new_license, grant, is_licensed, VerifyUsdc,
  effective_ttl_seconds, is_download_active,
}
use veri_proof_hackerton.License.Idempotence.{grant_cases, licenses-grant_new}

license_for-none :
    (asset : IpAsset) (tx : String) (rows : List License)
    → license_by_tx tx rows ≡ none
    → license_for asset tx rows ≡ none
license_for-none asset tx [] h = refl
license_for-none asset tx (l ∷ rows) h = ground (arith, license_for-none asset tx rows)

license_for_last :
    (service : LicenseService) (env : Env) (asset : IpAsset) (p : Purchase) (draws : ℕ)
    (rows : List License)
    → license_by_tx p.payment_tx rows ≡ none
    → license_for asset p.payment_tx (rows ++ new_license service env asset p draws ∷ [])
      ≡ some (new_license service env asset p draws)
unfolding new_license
license_for_last service env asset p draws rows fresh =
    rw
      (find-append_none (λ l. l.asset == asset.id && l.payment_tx_sig == p.payment_tx) rows _
        (license_for-none asset p.payment_tx rows fresh))
      (ground (arith, eq_refl asset.id, eq_refl p.payment_tx))

-- A stored license decides alone.
is_licensed_stored :
    (env : Env) (verify : VerifyUsdc) (asset : IpAsset) (tx : String) (w : World) (l : License)
    → tx ≢ ""
    → license_for asset tx w.licenses ≡ some l
    → is_licensed env verify w asset tx ≡ some (is_download_active env.now l)
unfolding is_licensed
is_licensed_stored env verify asset tx w l nonempty stored = ground (arith, eq_iff tx "")

license_for-grant :
    (service : LicenseService) (env : Env) (asset : IpAsset) (p : Purchase) (w : World)
    → license_by_tx p.payment_tx w.licenses ≡ none
    → license_for asset p.payment_tx (grant service env asset p w).1.licenses
      ≡ some (new_license service env asset p w.draws)
license_for-grant service env asset p w fresh = elim (grant_cases service env asset p w) [
  | inl (l, known, same) ↦ absurd (cc)
  | inr (_, made) ↦
      rw (made, licenses-grant_new service env asset p w)
        (license_for_last service env asset p w.draws w.licenses fresh)
]

-- A payment that is granted for the first time opens the asset until the license's time to live is
-- over, and not at that instant or later, whatever the chain would say.
pub grant-is_licensed :
    (service : LicenseService) (env env' : Env) (verify : VerifyUsdc) (asset : IpAsset)
    (p : Purchase) (w : World)
    → p.payment_tx ≢ ""
    → license_by_tx p.payment_tx w.licenses ≡ none
    → is_licensed env' verify (grant service env asset p w).1 asset p.payment_tx
      ≡ some (ltb env'.now (env.now + effective_ttl_seconds service env))
unfolding is_download_active new_license
grant-is_licensed service env env' verify asset p w nonempty fresh =
    is_licensed_stored env' verify asset p.payment_tx (grant service env asset p w).1
      (new_license service env asset p w.draws) nonempty
      (license_for-grant service env asset p w fresh)
