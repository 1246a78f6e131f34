-- ===== src/Tests/Drafts.antt =====
-- A registration draft from its first save to its use.
use veri_proof_hackerton.Prelude.{String, true, none, some, [], ◌∷◌, ◌≡◌, refl}
use veri_proof_hackerton.Draft.{
  RegistrationDraft, DraftStore, DraftService, DraftPayload, saved, collecting, confirm, consume,
  confirmed_draft, collected,
}
use veri_proof_hackerton.Draft.Use.{confirm-consume}

abbrev drafting : DraftService String
drafting = record {
  uuid4 = λ n. "token";
  now = 1000;
  strip = λ text. text;
  first_255 = λ text. text;
  is_uuid = λ text. true;
  upload_manifest_sha256 = λ uploads. some uploads;
}

abbrev complete : RegistrationDraft
complete = record {
  id = "draft";
  creator = "wallet";
  status = collecting;
  file_name = "work.png";
  file_sha256 = "digest";
  fields =
      ("asset_type", "image")
      ∷ ("title", "Work")
      ∷ ("min_price", "5")
      ∷ ("target_price", "10")
      ∷ ("visibility", "public")
      ∷ [];
  confirmation_token = none;
  confirmed_at = none;
  executed_asset = none;
}

abbrev sample_store : DraftStore
sample_store = record { creators = "wallet" ∷ []; drafts = complete ∷ []; draws = 0 }

abbrev confirmed_sample : RegistrationDraft
confirmed_sample = confirmed_draft drafting complete 0

abbrev confirmed_store : DraftStore
confirmed_store = record { creators = "wallet" ∷ []; drafts = confirmed_sample ∷ []; draws = 1 }

confirm-consume_example :
    consume drafting "wallet" "draft" "token" "digest" confirmed_store ≡ saved confirmed_sample
unfolding confirm
confirm-consume_example =
    confirm-consume drafting "wallet" "draft" sample_store confirmed_store confirmed_sample "digest"
      refl refl

abbrev new_title : DraftPayload
new_title = record { draft_id = "draft"; fields = ("title", some "Other") ∷ []; file_name = "" }

abbrev reopened : RegistrationDraft
reopened = collected drafting new_title confirmed_sample "digest"

abbrev reopened_store : DraftStore
reopened_store = record { creators = "wallet" ∷ []; drafts = reopened ∷ []; draws = 1 }
