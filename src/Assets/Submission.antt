-- ===== src/Assets/Submission.antt =====
-- `register` of veriproof/apps/ip/views_api.py: from a form, or a confirmed draft, to the call of the
-- registration service.
use veri_proof_hackerton.Prelude.{
  String, Bool, false, not, Option, none, some, List, [], ◌∷◌, any, length, ltb, ◌==◌,
  if◌then◌else◌, ◌⊎◌, inl, inr, ◌-◌,
}
use veri_proof_hackerton.Models.{IpAsset, Visibility}
use veri_proof_hackerton.Web.{Failure, failure}
use veri_proof_hackerton.Draft.{
  DraftOutcome, saved, not_found, invalid_draft, raised, consume, field_of, TextFields,
  mark_executed,
}
use veri_proof_hackerton.Flow.{rejected, Result, done, failed}
use veri_proof_hackerton.Registration.{Office, Upload, RegistrationMetadata, RegistrationOutcome}
use veri_proof_hackerton.Registration.Register.{Application}
use veri_proof_hackerton.Registration.Completion.{register}
use veri_proof_hackerton.Assets.{Price, parse_money, valid_prices, visibility_of, text_or_none}
use veri_proof_hackerton.Assets.Register.{
  Counter, Form, RegisterReply, error, registered, crashed, allowed_image_mimes, allowed_mimes,
  is_in, is_component_mime, text_of, strip, trimmed, parse_tags, registration_metadata,
}

module _ (c : Counter) where
  -- `_validate_gallery_uploads`: `none` lets the uploads pass.
  unfoldable pub validate_gallery_uploads : RegistrationMetadata → List Upload → Option Failure
  validate_gallery_uploads metadata [] = none
  validate_gallery_uploads metadata (u ∷ rest) =
      if not (metadata.asset_type == "image")
      then some (failure "invalid_gallery" 422)
      else if ltb (c.max_work_images - 1) (length (u ∷ rest))
      then some (failure "too_many_gallery_images" 422)
      else if any (λ (i : Upload). not (is_in allowed_image_mimes i.content_type)) (u ∷ rest)
      then some (failure "unsupported_media_type" 415)
      else if any (λ (i : Upload). ltb c.max_upload_bytes i.size) (u ∷ rest)
      then some (failure "payload_too_large" 413)
      else none

  abbrev pub draft_text : TextFields → String → String
  draft_text fields key = strip c (text_of (field_of key fields))

  abbrev pub draft_metadata :
      TextFields
      → String
      → String
      → Option Price
      → Option Price
      → Option Visibility
      → Option RegistrationMetadata
  draft_metadata fields wallet asset_type (some minimum) (some target) (some visibility) =
      if valid_prices minimum target
      then some (record {
        creator_wallet = wallet;
        asset_type = asset_type;
        visibility = visibility;
        min_price = minimum.amount;
        target_price = target.amount;
        title = some (draft_text fields "title");
        description = text_or_none (draft_text fields "description");
        parent_asset_id = none;
        royalty_share_bps = none;
        tags = parse_tags c (text_of (field_of "tags" fields));
        category = none;
      })
      else none
  draft_metadata fields wallet asset_type none target visibility = none
  draft_metadata fields wallet asset_type (some minimum) none visibility = none
  draft_metadata fields wallet asset_type (some minimum) (some target) none = none

  abbrev pub draft_mimes : Upload → Option (List String) → Bool
  draft_mimes upload none = false
  draft_mimes upload (some mimes) = is_in mimes upload.content_type

  -- `_metadata_from_draft`: `none` is a DraftValidationError.
  unfoldable pub metadata_from_draft : String → TextFields → Upload → Option RegistrationMetadata
  unfolding draft_mimes
  metadata_from_draft wallet fields upload =
      let asset_type = c.desk.lower (draft_text fields "asset_type") in
      if draft_mimes upload (allowed_mimes asset_type)
      then draft_metadata fields wallet asset_type
          (parse_money c.desk (text_of (field_of "min_price" fields)))
          (parse_money c.desk (text_of (field_of "target_price" fields)))
          (visibility_of (c.desk.lower (draft_text fields "visibility")))
      else none

  abbrev pub refused_supporting : List Upload → Option Failure
  refused_supporting files =
      if any (λ (i : Upload). ltb c.max_upload_bytes i.size) files
      then some (failure "payload_too_large" 413)
      else if any (λ (i : Upload). not (is_component_mime i.content_type)) files
      then some (failure "unsupported_media_type" 415)
      else none

  -- The draft's `mark_executed`, where a draft was used.
  abbrev pub executed : String → IpAsset → Office → Office
  executed draft_id asset o =
      if draft_id == "" then o else record o { drafts = mark_executed draft_id asset.id o.drafts }

  -- Only RegistrationError is handled.
  abbrev pub answer : String → Result RegistrationOutcome × Office → RegisterReply × Office
  answer draft_id (done outcome, o) = (registered outcome, executed draft_id outcome.asset o)
  answer draft_id (failed fault, o) = elim fault [
    | rejected code status ↦ (error (failure code status), o)
    | other ↦ (crashed, o)
  ]

  abbrev pub application : Form → Upload → String → String → RegistrationMetadata → Application
  application form upload user key metadata = record {
    upload = upload;
    metadata = metadata;
    supporting = form.supporting_files;
    gallery = form.gallery_images;
    account_owner = some user;
    signer_secret_key = key;
  }

  abbrev pub with_supporting :
      Option Failure → Application → String → Office → RegisterReply × Office
  with_supporting (some f) a draft_id o = (error f, o)
  with_supporting none a draft_id o = answer draft_id (register c.service a c.index_text o)

  -- From the second check of the gallery on.
  abbrev pub submit : Option Failure → Form → Application → String → Office → RegisterReply × Office
  submit (some f) form a draft_id o = (error f, o)
  submit none form a draft_id o =
      with_supporting (refused_supporting form.supporting_files) a draft_id o

  abbrev pub submit_checked :
      Form
      → Upload
      → String
      → String
      → String
      → RegistrationMetadata
      → Office
      → RegisterReply × Office
  submit_checked form upload user key draft_id metadata o =
      submit (validate_gallery_uploads metadata form.gallery_images) form
        (application form upload user key metadata) draft_id o

  abbrev pub with_draft_metadata :
      Form
      → Upload
      → String
      → String
      → String
      → Option RegistrationMetadata
      → Office
      → RegisterReply × Office
  with_draft_metadata form upload user key draft_id none o =
      (error (failure "invalid_registration_confirmation" 422), o)
  with_draft_metadata form upload user key draft_id (some metadata) o =
      submit_checked form upload user key draft_id metadata o

  abbrev pub with_draft :
      Form
      → Upload
      → String
      → String
      → String
      → String
      → DraftOutcome
      → Office
      → RegisterReply × Office
  with_draft form upload user key wallet draft_id outcome o = elim outcome [
    | saved draft ↦
        with_draft_metadata form upload user key draft_id
          (metadata_from_draft wallet draft.fields upload) o
    | invalid_draft ↦ (error (failure "invalid_registration_confirmation" 422), o)
    | not_found ↦ (crashed, o)
    | raised ↦ (crashed, o)
  ]

  abbrev pub with_gallery :
      Option Failure
      → Form
      → Upload
      → String
      → String
      → RegistrationMetadata
      → Office
      → RegisterReply × Office
  with_gallery (some f) form upload user key metadata o = (error f, o)
  with_gallery none form upload user key metadata o =
      let draft_id = trimmed c form "draft_id" in
      if draft_id == ""
      then submit_checked form upload user key draft_id metadata o
      else with_draft form upload user key metadata.creator_wallet draft_id
          (consume c.draft_service metadata.creator_wallet draft_id
            (text_of (form.field "confirmation_token")) (upload ∷ form.gallery_images) o.drafts)
          o

  abbrev pub with_metadata :
      Failure ⊎ RegistrationMetadata
      → Form
      → Upload
      → String
      → String
      → Office
      → RegisterReply × Office
  with_metadata (inl f) form upload user key o = (error f, o)
  with_metadata (inr metadata) form upload user key o =
      with_gallery (validate_gallery_uploads metadata form.gallery_images) form upload user key
        metadata o

  abbrev pub with_signer :
      Option (String × String) → Form → Upload → String → Office → RegisterReply × Office
  with_signer none form upload user o = (error (failure "wallet_signing_unavailable" 422), o)
  with_signer (some (wallet, key)) form upload user o =
      with_metadata (registration_metadata c form upload wallet) form upload user key o

  abbrev pub with_upload : Option Upload → Form → String → Office → RegisterReply × Office
  with_upload none form user o = (error (failure "missing_content" 400), o)
  with_upload (some upload) form user o = with_signer (c.signer user) form upload user o

  abbrev pub with_user : Option String → Form → Office → RegisterReply × Office
  with_user none form o = (error (failure "authentication_required" 401), o)
  with_user (some user) form o = with_upload form.image form user o

  -- `register`
  unfoldable pub register_work : Form → Office → RegisterReply × Office
  unfolding refused_supporting executed draft_text trimmed
  register_work form o =
      if not form.is_post
      then (error (failure "method_not_allowed" 405), o)
      else with_user form.user form o
