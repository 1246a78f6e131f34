-- ===== src/Assets/Admitted.antt =====
-- What `register` of veriproof/apps/ip/views_api.py has done when it answers.
use veri_proof_hackerton.Prelude.{String, Bool, true, false, some, ◌∷◌, ◌≡◌, ◌⊎◌, ◌==◌}
use veri_proof_hackerton.Models.{IpAsset}
use veri_proof_hackerton.Draft.{RegistrationDraft}
use veri_proof_hackerton.Registration.{Office, Upload, RegistrationMetadata}
use veri_proof_hackerton.Registration.Register.{Application}
use veri_proof_hackerton.Registration.Quiet.{SameOffice}
use veri_proof_hackerton.Registration.Registered.{Registered}
use veri_proof_hackerton.Assets.Register.{
  Counter, Form, RegisterReply, error, registered, crashed, trimmed, text_of,
}
use veri_proof_hackerton.Assets.Submission.{executed}
use veri_proof_hackerton.Assets.Sourced.{IsFromForm, IsFromDraft, IsUsable}
use veri_proof_hackerton.Assets.Ordered.{IsOrdered}

module _ (c : Counter) (form : Form) where
  -- Where the metadata come from: the form, or the confirmed draft that the form names. The draft
  -- belongs to the wallet that the form's metadata name.
  abbrev pub IsSource : Office → Upload → String → String → RegistrationMetadata → Bool → Type 0
  IsSource o upload wallet draft_id metadata true = IsFromForm c form wallet metadata
  IsSource o upload wallet draft_id metadata false =
      (first : RegistrationMetadata) × (draft : RegistrationDraft) × IsFromForm c form wallet first
      × IsUsable c.draft_service first.creator_wallet draft_id
          (text_of (form.field "confirmation_token")) (upload ∷ form.gallery_images) o.drafts draft
      × IsFromDraft c draft.fields first.creator_wallet metadata

  -- A request that reached the registration service.
  pub record Admitted (o : Office) (a : Application) : Type 0 where
    pub user : String
    pub wallet : String
    pub signed_in : form.user ≡ some user
    pub owner : a.account_owner ≡ some user
    pub upload : form.image ≡ some a.upload
    pub signer : c.signer user ≡ some (wallet, a.signer_secret_key)
    pub source :
        IsSource o a.upload wallet
          (trimmed c form "draft_id")
          a.metadata
          (trimmed c form "draft_id" == "")
    pub ordered : IsOrdered a.metadata.min_price a.metadata.target_price

  -- A work is stored only for an admitted request; an error has changed nothing but events, or
  -- came after the work of an admitted request was stored.
  abbrev pub WorkEnd : Office → RegisterReply × Office → Type 0
  WorkEnd o (registered out, after) =
      (a : Application) × (mid : Office) × Admitted o a
      × Registered c.service a o mid out.asset
      × (after ≡ executed c (trimmed c form "draft_id") out.asset mid)
  WorkEnd o (error f, after) =
      SameOffice after o
      ⊎ ((a : Application) × (asset : IpAsset) × Admitted o a
          × Registered c.service a o after asset)
  WorkEnd o (crashed, after) =
      SameOffice after o
      ⊎ ((a : Application) × (asset : IpAsset) × Admitted o a
          × Registered c.service a o after asset)
