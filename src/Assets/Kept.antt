-- ===== src/Assets/Kept.antt =====
-- The writes of `register`, `update_asset_terms` and `delete_asset` of veriproof/apps/ip/views_api.py
-- to the catalogue's tables.
use veri_proof_hackerton.Prelude.{
  ℤ, pos, negsuc, String, true, false, not, Option, none, some, [], ◌∷◌, find, ◌≡◌, refl, sym, ◌∙◌,
  ◌&&◌, eq_iff, All, All-append, arith, both_true, if-both, find_sound,
}
use mathlib.Core.Path.{subst}
use veri_proof_hackerton.Models.{IpAsset, Visibility, private, public}
use veri_proof_hackerton.Registration.Register.{Application, Prepared, new_asset, parent_id_of}
use veri_proof_hackerton.Registration.Quiet.{SameOffice, IsParent}
use veri_proof_hackerton.Registration.Prepared.{IsPrepared}
use veri_proof_hackerton.Registration.Registered.{Registered}
use veri_proof_hackerton.Assets.Changed.{TermsChanged}
use veri_proof_hackerton.Assets.Ordered.{IsOrdered, valid_prices-IsOrdered}
use veri_proof_hackerton.Registration.{Office, RegistrationService, asset_by_hash, is_royalty_share}
use veri_proof_hackerton.Assets.{Desk, has_certificate, is_public, owned}
use veri_proof_hackerton.Assets.Update.{with_terms}
use veri_proof_hackerton.Assets.Deletion.{is_some_text, delete_rows, orphaned}
use veri_proof_hackerton.Assets.Catalogue.{
  IsShared, HasUniqueHash, IsListable, IsProper, IsCatalogue, HasUniqueHash-append,
  HasUniqueHash-update_first, HasUniqueHash-map, HasUniqueHash-keep, All-keep, All-map_rows,
  All-update_first,
}

certified-IsListable :
    (visibility : Visibility) (a : IpAsset)
    → (is_public visibility && not (has_certificate a)) ≡ false
    → IsListable visibility a.registration_certificate_tx_sig
certified-IsListable private a h = tt
certified-IsListable public a h = λ e. absurd (ground (arith, h, e))

-- A share that the service accepts is in range.
in_range_IsShared :
    (parent : String) (share : Option ℤ)
    → is_royalty_share share ≡ true
    → IsShared (some parent) share
in_range_IsShared parent none h = absurd cc
in_range_IsShared parent (some (pos n)) h = (n, refl, ground (arith, h), ground (arith, h))
in_range_IsShared parent (some (negsuc n)) h = absurd (ground (arith, h))

orphaned_hash : (id : String) (a : IpAsset) → (orphaned id a).image_sha256 ≡ a.image_sha256
orphaned_hash id a = ground arith

some_injective : (x y : IpAsset) → Option.some x ≡ some y → x ≡ y
some_injective x y e = cc

-- Enough for a row to be proper after a change of its terms.
with_terms-IsProper :
    (desk : Desk) (user raw_body asset_id : String) (before after : Office) (row : IpAsset)
    (t : TermsChanged desk user raw_body asset_id before after row)
    → IsProper t.asset
    → IsProper (with_terms desk t.terms t.title t.description t.tags t.asset)
unfolding with_terms
with_terms-IsProper desk user raw_body asset_id before after row t h = record {
  royalty = h.royalty;
  listable = certified-IsListable t.terms.visibility t.asset t.certified;
  priced = valid_prices-IsOrdered t.terms.minimum t.terms.target t.valid;
}

pub TermsChanged-IsCatalogue :
    (desk : Desk) (user raw_body asset_id : String) (before after : Office) (row : IpAsset)
    → TermsChanged desk user raw_body asset_id before after row
    → IsCatalogue before
    → IsCatalogue after
unfolding with_terms
TermsChanged-IsCatalogue desk user raw_body asset_id before after row t ok =
    let f = with_terms desk t.terms t.title t.description t.tags in
    let rows = before.world.assets in
    let own : t.asset.id ≡ asset_id =
      (eq_iff t.asset.id asset_id).0
        (both_true _ _ (find_sound (owned asset_id user) rows t.asset t.found)).0 in
    subst IsCatalogue (sym t.stored) (record {
      unique = HasUniqueHash-update_first f (λ x. refl) (owned t.asset.id user) rows ok.unique;
      proper =
          All-update_first IsProper (owned t.asset.id user) f rows
            (λ x found proper.
              let there : find (owned asset_id user) rows ≡ some x =
                subst (λ k. find (owned k user) rows ≡ some x) own found in
              let same : x ≡ t.asset = some_injective _ _ (sym there ∙ t.found) in
              subst (λ y. IsProper (f y)) (sym same)
                (with_terms-IsProper desk user raw_body asset_id before after row t
                  (subst IsProper same proper)))
            ok.proper;
    })

module _ (s : RegistrationService) (a : Application) (o : Office) where
  saved_with :
      (p : Prepared) (parent : Option IpAsset)
      → IsParent a.metadata o parent
      → IsShared (parent_id_of s a parent) (new_asset s a p).royalty_share_bps
  unfolding new_asset
  saved_with p none known = tt
  saved_with p (some parent) known =
      in_range_IsShared parent.id a.metadata.royalty_share_bps known.1

  IsListable-some : (v : Visibility) (tx : String) → IsListable v (some tx)
  IsListable-some private tx = tt
  IsListable-some public tx = λ e. absurd cc

  new_asset-IsProper :
      (p : Prepared)
      → IsPrepared s a o p
      → IsOrdered a.metadata.min_price a.metadata.target_price
      → IsProper (new_asset s a p)
  unfolding new_asset
  new_asset-IsProper p ready ordered = record {
    royalty = saved_with p p.parent ready.parent;
    listable = IsListable-some a.metadata.visibility p.certificate_tx_sig;
    priced = ordered;
  }

-- A registered work joins the catalogue.
pub Registered-IsCatalogue :
    (s : RegistrationService) (a : Application) (before after : Office) (asset : IpAsset)
    → Registered s a before after asset
    → IsOrdered a.metadata.min_price a.metadata.target_price
    → IsCatalogue before
    → IsCatalogue after
unfolding new_asset
Registered-IsCatalogue s a before after asset r ordered ok = record {
  unique = subst HasUniqueHash (sym r.stored.0.assets) (
      HasUniqueHash-append before.world.assets asset
        (subst (λ x. asset_by_hash x.image_sha256 before.world ≡ none) (sym r.row) r.ready.new)
        ok.unique);
  proper = subst (All IsProper) (sym r.stored.0.assets) (
      All-append IsProper before.world.assets (asset ∷ []) ok.proper (
        subst IsProper (sym r.row) (new_asset-IsProper s a before r.prepared r.ready ordered),
        tt,
      ));
}

pub SameOffice-IsCatalogue :
    (before after : Office) → SameOffice after before → IsCatalogue before → IsCatalogue after
SameOffice-IsCatalogue before after same ok = record {
  unique = subst HasUniqueHash (sym same.rows.assets) ok.unique;
  proper = subst (All IsProper) (sym same.rows.assets) ok.proper;
}

orphaned-IsProper : (id : String) (a : IpAsset) → IsProper a → IsProper (orphaned id a)
orphaned-IsProper id a h =
    if-both IsProper (is_some_text id a.parent_asset_id)
      (record a { parent_asset_id = none; royalty_share_bps = none }) a
      (record { royalty = tt; listable = h.listable; priced = h.priced }) h

pub delete_rows-IsCatalogue :
    (id : String) (o : Office) → IsCatalogue o → IsCatalogue (delete_rows id o)
unfolding delete_rows
delete_rows-IsCatalogue id o ok = record {
  unique =
      HasUniqueHash-keep _ _
        (HasUniqueHash-map (orphaned id) (orphaned_hash id) o.world.assets ok.unique);
  proper =
      All-keep IsProper _ _
        (All-map_rows IsProper (orphaned id) o.world.assets (orphaned-IsProper id) ok.proper);
}
