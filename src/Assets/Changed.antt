-- ===== src/Assets/Changed.antt =====
-- `update_asset_terms` of veriproof/apps/ip/views_api.py: who may change the terms of a work, and to
-- what.
use veri_proof_hackerton.Prelude.{
  String, Bool, true, false, not, Option, none, some, List, find, ◌≡◌, refl, ◌&&◌, arith, if-split,
  if-both, ltb,
}
use veri_proof_hackerton.Models.{IpAsset, Visibility}
use Prim.Native.String.{len}
use veri_proof_hackerton.Json.{Json, Fields, get, as_object}
use veri_proof_hackerton.Registration.{Office}
use veri_proof_hackerton.Assets.{
  Desk, Price, Terms, TermsReply, valid_prices, has_certificate, is_public, is_saved, owned,
  parse_json_money, visibility_of, str_or_empty, updated, error, crashed,
}
use veri_proof_hackerton.Assets.Update.{
  with_terms, save_asset, update_asset_terms, checked_terms, terms_of, save_terms, with_metadata,
  with_valid_terms, with_body, with_owned, with_json, body_json,
}

-- What a successful change of terms has checked and written.
pub record TermsChanged (desk : Desk) (user raw_body asset_id : String) (before after : Office)
    (row : IpAsset) : Type 0 where
  pub asset : IpAsset
  pub terms : Terms
  pub json : Json
  pub fields : Fields
  pub title : String
  pub description : String
  pub tags : List String
  pub body : body_json desk raw_body ≡ some json
  pub object : as_object json ≡ some fields
  pub asked : terms_of desk fields ≡ some terms
  pub found : find (owned asset_id user) before.world.assets ≡ some asset
  pub valid : valid_prices terms.minimum terms.target ≡ true
  pub certified : (is_public terms.visibility && not (has_certificate asset)) ≡ false
  pub saved : is_saved asset ≡ true
  pub changed : row ≡ with_terms desk terms title description tags asset
  pub stored :
      after ≡ save_asset desk asset.id user (with_terms desk terms title description tags) before

abbrev pub TermsEnd : Desk → String → String → String → Office → TermsReply × Office → Type 0
TermsEnd desk user raw_body asset_id before (updated row, after) =
    TermsChanged desk user raw_body asset_id before after row
TermsEnd desk user raw_body asset_id before (error f, after) = after ≡ before
TermsEnd desk user raw_body asset_id before (crashed, after) = after ≡ before

module _ (desk : Desk) (user raw_body asset_id : String) (o : Office) where
  module _ (asset : IpAsset) (found : find (owned asset_id user) o.world.assets ≡ some asset)
      (json : Json) (body : body_json desk raw_body ≡ some json) (fields : Fields)
      (object : as_object json ≡ some fields) (terms : Terms)
      (asked : terms_of desk fields ≡ some terms)
      (valid : valid_prices terms.minimum terms.target ≡ true)
      (certified : (is_public terms.visibility && not (has_certificate asset)) ≡ false) where
    save_terms-TermsEnd :
        (title description : String) (tags : List String)
        → TermsEnd desk user raw_body asset_id o
            (save_terms desk terms title description tags user asset o)
    save_terms-TermsEnd title description tags =
        if-both (TermsEnd desk user raw_body asset_id o) (ltb 120 (len title)) _ _ refl (
          if-split (TermsEnd desk user raw_body asset_id o) (is_saved asset) _ _
            (λ saved. record {
              asset = asset;
              json = json;
              fields = fields;
              body = body;
              object = object;
              asked = asked;
              terms = terms;
              title = title;
              description = description;
              tags = tags;
              found = found;
              valid = valid;
              certified = certified;
              saved = saved;
              changed = refl;
              stored = refl;
            })
            (λ _. refl))

    with_metadata-TermsEnd :
        (title description : Option String) (tags : Option (List String))
        → TermsEnd desk user raw_body asset_id o
            (with_metadata desk terms title description tags user asset o)
    with_metadata-TermsEnd (some title) (some description) (some tags) = save_terms-TermsEnd _ _ _
    with_metadata-TermsEnd none description tags = refl
    with_metadata-TermsEnd (some title) none tags = refl
    with_metadata-TermsEnd (some title) (some description) none = refl

  checked_terms_valid :
      (minimum target : Option Price) (visibility : Option Visibility) (terms : Terms)
      → checked_terms desk minimum target visibility ≡ some terms
      → valid_prices terms.minimum terms.target ≡ true
  checked_terms_valid (some m) (some t) (some v) terms e = ground arith
  checked_terms_valid none target visibility terms e = absurd cc
  checked_terms_valid (some m) none visibility terms e = absurd cc
  checked_terms_valid (some m) (some t) none terms e = absurd cc

  terms_of_valid :
      (fields : Fields) (terms : Terms)
      → terms_of desk fields ≡ some terms
      → valid_prices terms.minimum terms.target ≡ true
  terms_of_valid fields terms =
      checked_terms_valid (parse_json_money desk (get "min_amount" fields))
        (parse_json_money desk (get "target_amount" fields))
        (visibility_of (desk.lower (desk.env.strip (str_or_empty desk (get "visibility" fields)))))
        terms

  with_valid_terms-TermsEnd :
      (asset : IpAsset) (json : Json) (fields : Fields) (terms : Option Terms)
      → body_json desk raw_body ≡ some json
      → as_object json ≡ some fields
      → find (owned asset_id user) o.world.assets ≡ some asset
      → terms_of desk fields ≡ terms
      → TermsEnd desk user raw_body asset_id o (with_valid_terms desk terms fields user asset o)
  with_valid_terms-TermsEnd asset json fields none body object found e = refl
  with_valid_terms-TermsEnd asset json fields (some terms) body object found e =
      if-split (TermsEnd desk user raw_body asset_id o)
        (is_public terms.visibility && not (has_certificate asset)) _ _ (λ _. refl)
        (λ certified.
          with_metadata-TermsEnd asset found json body fields object terms e
            (terms_of_valid fields terms e) certified _ _ _)

  with_body-TermsEnd :
      (asset : IpAsset) (json : Json) (fields : Option Fields)
      → body_json desk raw_body ≡ some json
      → as_object json ≡ fields
      → find (owned asset_id user) o.world.assets ≡ some asset
      → TermsEnd desk user raw_body asset_id o (with_body desk fields user asset o)
  with_body-TermsEnd asset json none body object found = refl
  with_body-TermsEnd asset json (some fields) body object found =
      with_valid_terms-TermsEnd asset json fields _ body object found refl

  with_owned-TermsEnd :
      (asset : Option IpAsset) (json : Json)
      → body_json desk raw_body ≡ some json
      → find (owned asset_id user) o.world.assets ≡ asset
      → TermsEnd desk user raw_body asset_id o (with_owned desk asset json user o)
  with_owned-TermsEnd none json body found = refl
  with_owned-TermsEnd (some asset) json body found =
      with_body-TermsEnd asset json (as_object json) body refl found

  with_json-TermsEnd :
      (json : Option Json)
      → body_json desk raw_body ≡ json
      → TermsEnd desk user raw_body asset_id o (with_json desk json asset_id user o)
  with_json-TermsEnd none body = refl
  with_json-TermsEnd (some json) body =
      with_owned-TermsEnd (find (owned asset_id user) o.world.assets) json body refl

-- Every end of a change of terms that a signed-in account asks for.
pub update_asset_terms-TermsEnd :
    (desk : Desk) (is_post : Bool) (user : String) (raw_body asset_id : String) (o : Office)
    → TermsEnd desk user raw_body asset_id o
        (update_asset_terms desk is_post (some user) raw_body asset_id o)
unfolding update_asset_terms
update_asset_terms-TermsEnd desk is_post user raw_body asset_id o =
    if-both (TermsEnd desk user raw_body asset_id o) (not is_post) _ _ refl
      (with_json-TermsEnd desk user raw_body asset_id o (body_json desk raw_body) refl)
