-- ===== src/Assets/Sourced.antt =====
-- Where the metadata that `register` of veriproof/apps/ip/views_api.py hands on come from: the fields
-- of the form, or of a confirmed draft.
use veri_proof_hackerton.Prelude.{
  String, true, not, Option, none, some, List, ◌≡◌, refl, ap, ◌⊎◌, inl, inr, pos, leb_ℤ, ltb_ℤ,
  ◌||◌, ◌&&◌, ◌==◌, if◌then◌else◌, eq_iff, if-both, both_true, ltb, Any, find-Any, find_sound,
  Bool-cases,
}
use mathlib.Core.Path.{subst}
use veri_proof_hackerton.Models.{Visibility}
use veri_proof_hackerton.Web.{Failure}
use veri_proof_hackerton.Draft.{
  RegistrationDraft, DraftStatus, confirmed, collecting, executed, TextFields, field_of,
  is_confirmed, saved, consume, DraftStore, DraftService,
}
use veri_proof_hackerton.Draft.Use.{IsConfirmed, consume-IsConfirmed}
use veri_proof_hackerton.Registration.{Upload, RegistrationMetadata}
use veri_proof_hackerton.Assets.{Price, valid_prices, parse_money, visibility_of, text_or_none}
use veri_proof_hackerton.Assets.Register.{
  Counter, Form, with_prices, with_mimes, registration_metadata, strip, trimmed, text_of,
  allowed_mimes, is_in, or_default, form_asset_type,
}
use veri_proof_hackerton.Assets.Submission.{
  draft_metadata, metadata_from_draft, draft_text, draft_mimes,
}

module _ (c : Counter) where
  -- The prices are those of two texts.
  pub record IsPricedBy (minimum target : String) (m : RegistrationMetadata) : Type 0 where
    pub low : Price
    pub high : Price
    pub read_low : parse_money c.desk minimum ≡ some low
    pub read_high : parse_money c.desk target ≡ some high
    pub low_kept : m.min_price ≡ low.amount
    pub high_kept : m.target_price ≡ high.amount

  -- The metadata are the form's; the creator is the signer's wallet.
  pub record IsFromForm (form : Form) (wallet : String) (m : RegistrationMetadata) : Type 0 where
    pub creator : (wallet ≡ "") ⊎ (m.creator_wallet ≡ wallet)
    pub priced :
        IsPricedBy (text_of (form.field "min_price")) (text_of (form.field "target_price")) m
    pub title : m.title ≡ text_or_none (strip c (text_of (form.field "title")))
    pub parent : m.parent_asset_id ≡ text_or_none (strip c (text_of (form.field "parent_asset_id")))

  -- The metadata are the draft's, which are never of a derivative.
  pub record IsFromDraft (fields : TextFields) (wallet : String) (m : RegistrationMetadata)
      : Type 0 where
    pub creator : m.creator_wallet ≡ wallet
    pub priced :
        IsPricedBy
          (text_of (field_of "min_price" fields))
          (text_of (field_of "target_price" fields))
          m
    pub title : m.title ≡ some (strip c (text_of (field_of "title" fields)))
    pub parent : m.parent_asset_id ≡ none

  module _ (form : Form) (wallet : String) where
    abbrev FromForm : Failure ⊎ RegistrationMetadata → Type 0
    FromForm (inl f) = Unit
    FromForm (inr m) = IsFromForm form wallet m

    module _ (creator asset_type : String) (same : (wallet ≡ "") ⊎ (creator ≡ wallet)) where
      with_prices-FromForm :
          (low high : Option Price)
          → parse_money c.desk (text_of (form.field "min_price")) ≡ low
          → parse_money c.desk (text_of (form.field "target_price")) ≡ high
          → FromForm (with_prices c form creator asset_type low high)
      with_prices-FromForm none high e e' = tt
      with_prices-FromForm (some low) none e e' =
          if-both FromForm (ltb_ℤ low.amount (pos 0)) _ _ tt tt
      with_prices-FromForm (some low) (some high) e e' =
          if-both FromForm (ltb_ℤ low.amount (pos 0)) _ _ tt (
            if-both FromForm (leb_ℤ high.amount (pos 0) || ltb_ℤ high.amount low.amount) _ _ tt (
              if-both FromForm (not (valid_prices low high)) _ _ tt (record {
                creator = same;
                priced = record {
                  low = low;
                  high = high;
                  read_low = e;
                  read_high = e';
                  low_kept = refl;
                  high_kept = refl;
                };
                title = refl;
                parent = refl;
              })))

      with_mimes-FromForm :
          (upload : Upload) (mimes : Option (List String))
          → FromForm (with_mimes c form upload creator asset_type mimes)
      with_mimes-FromForm upload none = tt
      with_mimes-FromForm upload (some mimes) =
          if-both FromForm (not (is_in mimes upload.content_type)) _ _ tt (
            if-both FromForm (ltb c.max_upload_bytes upload.size) _ _ tt (
              if-both FromForm (not (c.is_valid_pubkey creator)) _ _ tt
                (with_prices-FromForm _ _ refl refl)))

    signers_wallet : (fallback : String) → (wallet ≡ "") ⊎ (or_default fallback wallet ≡ wallet)
    signers_wallet fallback = elim (Bool-cases (wallet == "")) [
      | inl e ↦ inl ((eq_iff wallet "").0 e)
      | inr e ↦ inr (ap (λ b. if b then fallback else wallet) e)
    ]

    pub registration_metadata-IsFromForm :
        (upload : Upload) (m : RegistrationMetadata)
        → registration_metadata c form upload wallet ≡ inr m
        → IsFromForm form wallet m
    unfolding registration_metadata
    registration_metadata-IsFromForm upload m e = subst FromForm e (
        with_mimes-FromForm (or_default (trimmed c form "creator_wallet") wallet)
          (form_asset_type c form) (signers_wallet _) upload
          (allowed_mimes (form_asset_type c form)))

  module _ (fields : TextFields) (wallet : String) where
    abbrev FromDraft : Option RegistrationMetadata → Type 0
    FromDraft none = Unit
    FromDraft (some m) = IsFromDraft fields wallet m

    draft_metadata-FromDraft :
        (asset_type : String) (low high : Option Price) (visibility : Option Visibility)
        → parse_money c.desk (text_of (field_of "min_price" fields)) ≡ low
        → parse_money c.desk (text_of (field_of "target_price" fields)) ≡ high
        → FromDraft (draft_metadata c fields wallet asset_type low high visibility)
    draft_metadata-FromDraft asset_type (some low) (some high) (some v) e e' =
        if-both FromDraft (valid_prices low high) _ _
          (record {
            creator = refl;
            priced = record {
              low = low;
              high = high;
              read_low = e;
              read_high = e';
              low_kept = refl;
              high_kept = refl;
            };
            title = refl;
            parent = refl;
          })
          tt
    draft_metadata-FromDraft asset_type none high v e e' = tt
    draft_metadata-FromDraft asset_type (some low) none v e e' = tt
    draft_metadata-FromDraft asset_type (some low) (some high) none e e' = tt

    pub metadata_from_draft-IsFromDraft :
        (upload : Upload) (m : RegistrationMetadata)
        → metadata_from_draft c wallet fields upload ≡ some m
        → IsFromDraft fields wallet m
    unfolding metadata_from_draft
    metadata_from_draft-IsFromDraft upload m e = subst FromDraft e (
        if-both FromDraft
          (draft_mimes c upload (allowed_mimes (c.desk.lower (draft_text c fields "asset_type")))) _
          _
          (draft_metadata-FromDraft (c.desk.lower (draft_text c fields "asset_type")) _ _
            (visibility_of (c.desk.lower (draft_text c fields "visibility"))) refl refl)
          tt)

-- A stored draft of the wallet that was confirmed under the token for the uploads' digest.
pub record IsUsable {Uploads : Type 0} (s : DraftService Uploads) (wallet id token : String)
    (uploads : Uploads) (store : DraftStore) (d : RegistrationDraft) : Type 0 where
  pub stored : Any (λ x. x ≡ d) store.drafts
  pub named : d.id ≡ id
  pub own : d.creator ≡ wallet
  pub status : d.status ≡ confirmed
  pub agreed : (elim d.confirmation_token [ none ↦ "None" | some t ↦ t ]) ≡ token
  pub digest : s.upload_manifest_sha256 uploads ≡ some d.file_sha256

is_confirmed-eq : (status : DraftStatus) → is_confirmed status ≡ true → status ≡ confirmed
is_confirmed-eq collecting h = absurd cc
is_confirmed-eq confirmed h = refl
is_confirmed-eq executed h = absurd cc

pub consume-IsUsable :
    {Uploads : Type 0} (s : DraftService Uploads) (wallet id token : String) (uploads : Uploads)
    (store : DraftStore) (d : RegistrationDraft)
    → consume s wallet id token uploads store ≡ saved d
    → IsUsable s wallet id token uploads store d
consume-IsUsable s wallet id token uploads store d e =
    let (found, conf, same, digest) =
      subst (IsConfirmed s wallet id token uploads store) e
        (consume-IsConfirmed s wallet id token uploads store) in
    let (of_id, of_wallet) =
      both_true (d.id == id) _
        (find_sound (λ x. x.id == id && x.creator == wallet) store.drafts d found) in
    record {
      stored = find-Any (λ x. x.id == id && x.creator == wallet) store.drafts d found;
      named = (eq_iff d.id id).0 of_id;
      own = (eq_iff d.creator wallet).0 of_wallet;
      status = is_confirmed-eq d.status conf;
      agreed = same;
      digest = digest;
    }
