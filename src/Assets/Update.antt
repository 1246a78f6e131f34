-- ===== src/Assets/Update.antt =====
-- `update_asset_terms` of veriproof/apps/ip/views_api.py.
use veri_proof_hackerton.Prelude.{
  String, Bool, not, Option, none, some, List, map, find, ltb, ◌==◌, ◌&&◌, if◌then◌else◌,
}
use Prim.Native.String.{len}
use veri_proof_hackerton.Models.{IpAsset, Visibility}
use veri_proof_hackerton.Json.{Json, Fields, get, lookup, as_object}
use veri_proof_hackerton.Web.{failure}
use veri_proof_hackerton.Registration.{Office}
use veri_proof_hackerton.Sponsored.{SponsoredPaymentIntent}
use veri_proof_hackerton.Assets.{
  Desk, Price, parse_json_money, valid_prices, visibility_of, str_or_empty, is_saved, Terms,
  TermsReply, error, updated, crashed, owned, has_certificate, is_public, or_empty, text_or_none,
  given_text, given_tags, stripped_tags, update_first,
}

module _ (desk : Desk) where
  -- The visibility and the prices of the body, if they are valid.
  abbrev pub checked_terms : Option Price → Option Price → Option Visibility → Option Terms
  checked_terms (some minimum) (some target) (some visibility) =
      if valid_prices minimum target
      then some (record { minimum = minimum; target = target; visibility = visibility })
      else none
  checked_terms none target visibility = none
  checked_terms (some minimum) none visibility = none
  checked_terms (some minimum) (some target) none = none

  abbrev pub terms_of : Fields → Option Terms
  terms_of fields =
      checked_terms (parse_json_money desk (get "min_amount" fields))
        (parse_json_money desk (get "target_amount" fields))
        (visibility_of (desk.lower (desk.env.strip (str_or_empty desk (get "visibility" fields)))))

  unfoldable pub with_terms : Terms → String → String → List String → IpAsset → IpAsset
  with_terms terms title description tags asset = record asset {
    min_amount = some terms.minimum.amount;
    target_amount = some terms.target.amount;
    currency = "USDC";
    visibility = terms.visibility;
    title = text_or_none title;
    description = text_or_none description;
    tags = tags;
  }

  -- `asset.save(update_fields=[...])`
  -- Batch items and sponsored payments hold the row that they point to.
  abbrev pub save_asset : String → String → (IpAsset → IpAsset) → Office → Office
  save_asset id user f o = record o {
    world = record o.world {
      assets = update_first (owned id user) f o.world.assets;
      items =
          map (λ i. if owned id user i.asset then record i { asset = f i.asset } else i)
            o.world.items;
    };
    intents =
        map
          (λ (i : SponsoredPaymentIntent).
            if owned id user i.asset then record i { asset = f i.asset } else i)
          o.intents;
  }

  abbrev pub save_terms :
      Terms → String → String → List String → String → IpAsset → Office → TermsReply × Office
  save_terms terms title description tags user asset o =
      if ltb 120 (len title)
      then (error (failure "invalid_asset_metadata" 422), o)
      else if is_saved asset
      then (
        updated (with_terms terms title description tags asset),
        save_asset asset.id user (with_terms terms title description tags) o,
      )
      else (crashed, o)

  abbrev pub with_metadata :
      Terms
      → Option String
      → Option String
      → Option (List String)
      → String
      → IpAsset
      → Office
      → TermsReply × Office
  with_metadata terms (some title) (some description) (some tags) user asset o =
      save_terms terms (desk.env.strip title) (desk.env.strip description)
        (stripped_tags desk.env.strip tags) user asset o
  with_metadata terms none description tags user asset o =
      (error (failure "invalid_asset_metadata" 422), o)
  with_metadata terms (some title) none tags user asset o =
      (error (failure "invalid_asset_metadata" 422), o)
  with_metadata terms (some title) (some description) none user asset o =
      (error (failure "invalid_asset_metadata" 422), o)

  abbrev pub with_valid_terms :
      Option Terms → Fields → String → IpAsset → Office → TermsReply × Office
  with_valid_terms none fields user asset o = (error (failure "invalid_asset_terms" 422), o)
  with_valid_terms (some terms) fields user asset o =
      if is_public terms.visibility && not (has_certificate asset)
      then (error (failure "registration_certificate_required" 409), o)
      else with_metadata terms (given_text (lookup "title" fields) (or_empty asset.title))
          (given_text (lookup "description" fields) (or_empty asset.description))
          (given_tags (lookup "tags" fields) asset.tags) user asset o

  -- A body that is no JSON object has no `get`.
  abbrev pub with_body : Option Fields → String → IpAsset → Office → TermsReply × Office
  with_body none user asset o = (crashed, o)
  with_body (some fields) user asset o = with_valid_terms (terms_of fields) fields user asset o

  abbrev pub with_owned : Option IpAsset → Json → String → Office → TermsReply × Office
  with_owned none json user o = (error (failure "asset_not_found" 404), o)
  with_owned (some asset) json user o = with_body (as_object json) user asset o

  abbrev pub with_json : Option Json → String → String → Office → TermsReply × Office
  with_json none asset_id user o = (error (failure "invalid_json" 422), o)
  with_json (some json) asset_id user o =
      with_owned (find (owned asset_id user) o.world.assets) json user o

  abbrev pub body_json : String → Option Json
  body_json raw_body = desk.lib.loads (if raw_body == "" then "{}" else raw_body)

  -- `update_asset_terms`; the user is `none` where nobody is signed in.
  unfoldable pub update_asset_terms :
      Bool → Option String → String → String → Office → TermsReply × Office
  update_asset_terms is_post user raw_body asset_id o =
      if not is_post then (error (failure "method_not_allowed" 405), o) else elim user [
        | none ↦ (error (failure "authentication_required" 401), o)
        | some u ↦ with_json (body_json raw_body) asset_id u o
      ]
