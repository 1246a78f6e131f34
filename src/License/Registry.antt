-- ===== src/License/Registry.antt =====
-- `LicenseService.grant` of veriproof/services/license_service.py, seen from outside: a registry of
-- the payments that are claimed.
use veri_proof_hackerton.Prelude.{
  String, Option, none, some, ◌==◌, if◌then◌else◌, ◌≡◌, refl, sym, ap, ◌∙◌, arith, Bool-cases, inl,
  inr, eq_iff,
}
use mathlib.Core.Path.{fun_ext}
use veri_proof_hackerton.Models.{IpAsset, License, World}
use veri_proof_hackerton.Env.{Env}
use veri_proof_hackerton.License.{
  LicenseService, Purchase, license_by_tx, new_license, grant, grant_new,
}
use veri_proof_hackerton.License.Idempotence.{grant_cases, grant_stores, grant_others}

-- Which license a payment has.
abbrev pub Registry : Type 0
Registry = String → Option License

-- The table as a registry, with the order of its rows forgotten.
abbrev pub registry_of : World → Registry
registry_of w tx = license_by_tx tx w.licenses

abbrev pub enter : String → License → Registry → Registry
enter tx l r tx' = if tx' == tx then some l else r tx'

-- What a claim does: a payment that has a license keeps it, and another gets the one that is made.
abbrev claim_found : String → License → Registry → Option License → License × Registry
claim_found tx made r none = (made, enter tx made r)
claim_found tx made r (some l) = (l, r)

unfoldable pub claim : String → License → Registry → License × Registry
claim tx made r = claim_found tx made r (r tx)

module _ (service : LicenseService) (env : Env) (asset : IpAsset) (p : Purchase) (w : World) where
  abbrev made : License
  made = new_license service env asset p w.draws

  entered :
      grant service env asset p w ≡ grant_new service env asset p w
      → (tx : String)
      → registry_of (grant service env asset p w).1 tx ≡ enter p.payment_tx made (registry_of w) tx
  unfolding new_license
  entered fresh tx = elim (Bool-cases (tx == p.payment_tx)) [
    | inl same ↦
        ap (registry_of (grant service env asset p w).1) ((eq_iff tx p.payment_tx).0 same)
        ∙ grant_stores service env asset p w
        ∙ ap (λ o. some o.0) fresh
        ∙ rw same refl
    | inr other ↦
        grant_others service env asset p w tx (λ e. grind (arith, e, other, eq_iff tx p.payment_tx))
        ∙ rw other refl
  ]

  -- Seen as a registry, a grant claims its payment: it returns and keeps the license that the
  -- payment has, or else it makes one, enters it, and leaves every other payment as it was.
  pub grant-claim :
      ((grant service env asset p w).0, registry_of (grant service env asset p w).1)
      ≡ claim p.payment_tx made (registry_of w)
  unfolding claim
  grant-claim = elim (grant_cases service env asset p w) [
    | inl (l, known, same) ↦
        ap (λ o. (o.0, registry_of o.1)) same
        ∙ ap (claim_found p.payment_tx made (registry_of w)) (sym known)
    | inr (fresh, new) ↦
        ap (λ l. (l, registry_of (grant service env asset p w).1)) (ap (λ o. o.0) new)
        ∙ ap (λ r. (made, r)) (fun_ext (entered new))
        ∙ ap (claim_found p.payment_tx made (registry_of w)) (sym fresh)
  ]
