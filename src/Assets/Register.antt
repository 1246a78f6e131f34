-- ===== src/Assets/Register.antt =====
-- `register` of veriproof/apps/ip/views_api.py: its request, and the metadata of the form.
use veri_proof_hackerton.Prelude.{
  ℕ, String, Bool, false, not, Option, none, some, List, [], ◌∷◌, pos, ℤ, leb_ℤ, ltb_ℤ, ltb, ◌==◌,
  ◌||◌, if◌then◌else◌, ◌⊎◌, inl, inr,
}
use veri_proof_hackerton.Models.{Visibility, private, public}
use veri_proof_hackerton.Web.{Failure, failure}
use veri_proof_hackerton.Draft.{DraftService}
use veri_proof_hackerton.Registration.{
  Upload, RegistrationService, RegistrationMetadata, RegistrationOutcome,
}
use veri_proof_hackerton.Assets.{
  Desk, Price, parse_money, valid_prices, text_or_none, stripped_tags,
}

-- What the endpoint is built from. `signer` is `active_wallet_signer` for the user: the wallet's
-- address and key, or a WalletSigningError. `split` is `raw.split(",")` and `index_text` prints an
-- index.
pub record Counter : Type 0 where
  pub desk : Desk
  pub service : RegistrationService
  pub draft_service : DraftService (List Upload)
  pub signer : String → Option (String × String)
  pub is_valid_pubkey : String → Bool
  pub int_of_text : String → Option ℤ
  pub split : String → List String
  pub index_text : ℕ → String
  pub max_upload_bytes : ℕ
  pub max_work_images : ℕ

-- A multipart request: `field` is `request.POST.get`.
pub record Form : Type 0 where
  pub is_post : Bool
  pub user : Option String
  pub image : Option Upload
  pub gallery_images : List Upload
  pub supporting_files : List Upload
  pub field : String → Option String

pub data RegisterReply : Type 0 where
  error : Failure → RegisterReply
  registered : RegistrationOutcome → RegisterReply
  crashed : RegisterReply

abbrev pub allowed_image_mimes : List String
allowed_image_mimes = "image/png" ∷ "image/jpeg" ∷ "image/webp" ∷ []

-- `ALLOWED_CONTENT_MIMES`
abbrev pub allowed_content_mimes : List (String × List String)
allowed_content_mimes =
    ("document", "application/pdf" ∷ "text/plain" ∷ [])
    ∷ ("audio", "audio/mpeg" ∷ "audio/wav" ∷ "audio/x-wav" ∷ [])
    ∷ ("video", "video/mp4" ∷ "video/webm" ∷ [])
    ∷ ("software", "application/zip" ∷ "application/x-tar" ∷ [])
    ∷ ("product", "application/zip" ∷ "application/pdf" ∷ [])
    ∷ ("other", "application/pdf" ∷ "text/plain" ∷ "application/zip" ∷ [])
    ∷ []

abbrev mimes_in : String → List (String × List String) → Option (List String)
mimes_in key [] = none
mimes_in key ((k, mimes) ∷ rest) = if k == key then some mimes else mimes_in key rest

abbrev pub allowed_mimes : String → Option (List String)
allowed_mimes asset_type =
    if asset_type == "image"
    then some allowed_image_mimes
    else mimes_in asset_type allowed_content_mimes

abbrev pub is_in : List String → String → Bool
is_in [] t = false
is_in (x ∷ xs) t = x == t || is_in xs t

abbrev in_any : List (String × List String) → String → Bool
in_any [] t = false
in_any ((k, mimes) ∷ rest) t = is_in mimes t || in_any rest t

-- `supported_component_mimes`
abbrev pub is_component_mime : String → Bool
is_component_mime t = is_in allowed_image_mimes t || in_any allowed_content_mimes t

abbrev pub text_of : Option String → String
text_of none = ""
text_of (some t) = t

abbrev pub or_default : String → String → String
or_default fallback t = if t == "" then fallback else t

module _ (c : Counter) where
  abbrev pub strip : String → String
  strip = c.desk.env.strip

  -- `(request.POST.get(key) or "").strip()`
  abbrev pub trimmed : Form → String → String
  trimmed form key = strip (text_of (form.field key))

  -- `_parse_int`
  abbrev pub parse_int : String → Option ℤ
  parse_int raw = if raw == "" then none else c.int_of_text raw

  -- `_parse_tags`
  abbrev pub parse_tags : String → List String
  parse_tags raw = if raw == "" then [] else stripped_tags strip (c.split raw)

  abbrev pub form_visibility : Form → Visibility
  form_visibility form =
      if c.desk.lower (trimmed form "visibility") == "public"
        || c.desk.lower (trimmed form "share") == "true"
      then public
      else private

  abbrev pub form_metadata : Form → String → String → Price → Price → RegistrationMetadata
  form_metadata form wallet asset_type minimum target = record {
    creator_wallet = wallet;
    asset_type = asset_type;
    visibility = form_visibility form;
    min_price = minimum.amount;
    target_price = target.amount;
    title = text_or_none (trimmed form "title");
    description = text_or_none (trimmed form "description");
    parent_asset_id = text_or_none (trimmed form "parent_asset_id");
    royalty_share_bps = parse_int (text_of (form.field "royalty_share_bps"));
    tags = parse_tags (text_of (form.field "tags"));
    category = text_or_none (trimmed form "category");
  }

  abbrev pub with_prices :
      Form → String → String → Option Price → Option Price → Failure ⊎ RegistrationMetadata
  with_prices form wallet asset_type none target = inl (failure "invalid_min_price" 400)
  with_prices form wallet asset_type (some minimum) none =
      if ltb_ℤ minimum.amount (pos 0)
      then inl (failure "invalid_min_price" 400)
      else inl (failure "invalid_target_price" 400)
  with_prices form wallet asset_type (some minimum) (some target) =
      if ltb_ℤ minimum.amount (pos 0)
      then inl (failure "invalid_min_price" 400)
      else if leb_ℤ target.amount (pos 0) || ltb_ℤ target.amount minimum.amount
      then inl (failure "invalid_target_price" 400)
      else if not (valid_prices minimum target)
      then inl (failure "invalid_sol_price" 400)
      else inr (form_metadata form wallet asset_type minimum target)

  abbrev pub with_mimes :
      Form → Upload → String → String → Option (List String) → Failure ⊎ RegistrationMetadata
  with_mimes form upload wallet asset_type none = inl (failure "invalid_asset_type" 400)
  with_mimes form upload wallet asset_type (some mimes) =
      if not (is_in mimes upload.content_type)
      then inl (failure "unsupported_media_type" 415)
      else if ltb c.max_upload_bytes upload.size
      then inl (failure "payload_too_large" 413)
      else if not (c.is_valid_pubkey wallet)
      then inl (failure "invalid_wallet" 400)
      else with_prices form wallet asset_type
          (parse_money c.desk (text_of (form.field "min_price")))
          (parse_money c.desk (text_of (form.field "target_price")))

  abbrev pub form_asset_type : Form → String
  form_asset_type form =
      c.desk.lower (strip (or_default "image" (text_of (form.field "asset_type"))))

  -- `_registration_metadata`
  unfoldable pub registration_metadata : Form → Upload → String → Failure ⊎ RegistrationMetadata
  unfolding form_asset_type
  registration_metadata form upload wallet =
      with_mimes form upload (or_default (trimmed form "creator_wallet") wallet)
        (form_asset_type form) (allowed_mimes (form_asset_type form))
