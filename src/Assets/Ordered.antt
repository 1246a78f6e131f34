-- ===== src/Assets/Ordered.antt =====
-- The prices in the metadata that `register` of veriproof/apps/ip/views_api.py reads.
use veri_proof_hackerton.Prelude.{
  String, Bool, true, false, not, Option, none, some, List, ◌≡◌, refl, ◌⊎◌, inl, inr, pos, leb_ℤ,
  ltb_ℤ, ◌||◌, if-both, if-split, both_true, ltb,
}
use mathlib.Core.Path.{subst}
use veri_proof_hackerton.Money.{Decimal}
use veri_proof_hackerton.Models.{Visibility}
use veri_proof_hackerton.Web.{Failure}
use veri_proof_hackerton.Draft.{TextFields, field_of}
use veri_proof_hackerton.Registration.{Upload, RegistrationMetadata}
use veri_proof_hackerton.Assets.{Price, valid_prices, parse_money, visibility_of}
use veri_proof_hackerton.Assets.Register.{
  Counter, Form, with_prices, with_mimes, registration_metadata, trimmed, text_of, allowed_mimes,
  is_in, or_default, form_asset_type,
}
use veri_proof_hackerton.Assets.Submission.{
  draft_metadata, metadata_from_draft, draft_text, draft_mimes,
}

-- Prices in order: at least zero, positive, and the target not below the minimum.
abbrev pub IsOrdered : Decimal → Decimal → Type 0
IsOrdered minimum target =
    (leb_ℤ (pos 0) minimum ≡ true) × (ltb_ℤ (pos 0) target ≡ true) × (leb_ℤ minimum target ≡ true)

pub valid_prices-IsOrdered :
    (minimum target : Price)
    → valid_prices minimum target ≡ true
    → IsOrdered minimum.amount target.amount
valid_prices-IsOrdered minimum target h =
    let outer = both_true _ _ h in
    let inner = both_true _ _ outer.1 in (outer.0, inner.0, (both_true _ _ inner.1).0)

abbrev Ordered : Failure ⊎ RegistrationMetadata → Type 0
Ordered (inl f) = Unit
Ordered (inr m) = IsOrdered m.min_price m.target_price

abbrev OrderedDraft : Option RegistrationMetadata → Type 0
OrderedDraft none = Unit
OrderedDraft (some m) = IsOrdered m.min_price m.target_price

not-eq_false : (b : Bool) → not b ≡ false → b ≡ true
not-eq_false true e = refl
not-eq_false false e = cc

module _ (c : Counter) (form : Form) where
  with_prices-Ordered :
      (wallet asset_type : String) (minimum target : Option Price)
      → Ordered (with_prices c form wallet asset_type minimum target)
  with_prices-Ordered wallet asset_type none target = tt
  with_prices-Ordered wallet asset_type (some minimum) none =
      if-both Ordered (ltb_ℤ minimum.amount (pos 0)) _ _ tt tt
  with_prices-Ordered wallet asset_type (some minimum) (some target) =
      if-both Ordered (ltb_ℤ minimum.amount (pos 0)) _ _ tt (
        if-both Ordered (leb_ℤ target.amount (pos 0) || ltb_ℤ target.amount minimum.amount) _ _ tt (
          if-split Ordered (not (valid_prices minimum target)) _ _ (λ _. tt)
            (λ valid. valid_prices-IsOrdered minimum target (not-eq_false _ valid))))

  with_mimes-Ordered :
      (upload : Upload) (wallet asset_type : String) (mimes : Option (List String))
      → Ordered (with_mimes c form upload wallet asset_type mimes)
  with_mimes-Ordered upload wallet asset_type none = tt
  with_mimes-Ordered upload wallet asset_type (some mimes) =
      if-both Ordered (not (is_in mimes upload.content_type)) _ _ tt (
        if-both Ordered (ltb c.max_upload_bytes upload.size) _ _ tt (
          if-both Ordered (not (c.is_valid_pubkey wallet)) _ _ tt (
            with_prices-Ordered wallet asset_type
              (parse_money c.desk (text_of (form.field "min_price")))
              (parse_money c.desk (text_of (form.field "target_price"))))))

  pub registration_metadata-IsOrdered :
      (upload : Upload) (wallet : String) (metadata : RegistrationMetadata)
      → registration_metadata c form upload wallet ≡ inr metadata
      → IsOrdered metadata.min_price metadata.target_price
  unfolding registration_metadata
  registration_metadata-IsOrdered upload wallet metadata e = subst Ordered e (
      with_mimes-Ordered upload (or_default (trimmed c form "creator_wallet") wallet)
        (form_asset_type c form) (allowed_mimes (form_asset_type c form)))

  draft_metadata-Ordered :
      (fields : TextFields) (wallet asset_type : String) (minimum target : Option Price)
      (visibility : Option Visibility)
      → OrderedDraft (draft_metadata c fields wallet asset_type minimum target visibility)
  draft_metadata-Ordered fields wallet asset_type (some x) (some y) (some v) =
      if-split OrderedDraft (valid_prices x y) _ _ (valid_prices-IsOrdered x y) (λ _. tt)
  draft_metadata-Ordered fields wallet asset_type none y v = tt
  draft_metadata-Ordered fields wallet asset_type (some x) none v = tt
  draft_metadata-Ordered fields wallet asset_type (some x) (some y) none = tt

  pub metadata_from_draft-IsOrdered :
      (wallet : String) (fields : TextFields) (upload : Upload) (m : RegistrationMetadata)
      → metadata_from_draft c wallet fields upload ≡ some m
      → IsOrdered m.min_price m.target_price
  unfolding metadata_from_draft
  metadata_from_draft-IsOrdered wallet fields upload m e = subst OrderedDraft e (
      if-both OrderedDraft
        (draft_mimes c upload (allowed_mimes (c.desk.lower (draft_text c fields "asset_type")))) _ _
        (draft_metadata-Ordered fields wallet (c.desk.lower (draft_text c fields "asset_type"))
          (parse_money c.desk (text_of (field_of "min_price" fields)))
          (parse_money c.desk (text_of (field_of "target_price" fields)))
          (visibility_of (c.desk.lower (draft_text c fields "visibility"))))
        tt)
