-- ===== src/Draft.antt =====
-- veriproof/services/registration_draft_service.py: a registration draft, from the collecting of its
-- fields to its confirmation and use. `none` from a parameter is an exception.
pub mod Confirmation
pub mod Use
use veri_proof_hackerton.Prelude.{
  ℕ, suc, String, Bool, true, false, not, Option, none, some, List, [], ◌∷◌, ◌++◌, map, find, ◌==◌,
  ◌&&◌, ◌||◌, if◌then◌else◌,
}

-- `RegistrationDraft.status`
pub data DraftStatus : Type 0 where
  collecting confirmed executed : DraftStatus

-- A JSON object of texts.
abbrev pub TextFields : Type 0
TextFields = List (String × String)

pub record RegistrationDraft : Type 0 where
  pub id : String
  pub creator : String
  pub status : DraftStatus
  pub file_name : String
  pub file_sha256 : String
  pub fields : TextFields
  pub confirmation_token : Option String
  pub confirmed_at : Option ℕ
  pub executed_asset : Option String

-- The wallets of the creators, the drafts, and how many UUIDs were drawn.
pub record DraftStore : Type 0 where
  pub creators : List String
  pub drafts : List RegistrationDraft
  pub draws : ℕ

-- What the service takes from outside: `uuid4`, the clock, `str.strip`, the slice `[:255]`, whether a
-- text is a UUID, and the digest of the uploads.
pub record DraftService (Uploads : Type 0) : Type 0 where
  pub uuid4 : ℕ → String
  pub now : ℕ
  pub strip : String → String
  pub first_255 : String → String
  pub is_uuid : String → Bool
  pub upload_manifest_sha256 : Uploads → Option String

-- The fields of the payload; a field whose value is `None` has none.
pub record DraftPayload : Type 0 where
  pub draft_id : String
  pub fields : List (String × Option String)
  pub file_name : String

-- A draft, a LookupError, a DraftValidationError, or another exception.
pub data DraftOutcome : Type 0 where
  saved : RegistrationDraft → DraftOutcome
  not_found invalid_draft raised : DraftOutcome

abbrev pub contains : String → List String → Bool
contains x [] = false
contains x (y ∷ ys) = y == x || contains x ys

abbrev pub allowed_fields : List String
allowed_fields =
    "asset_type" ∷ "title" ∷ "description" ∷ "tags" ∷ "min_price" ∷ "target_price" ∷ "visibility"
    ∷ []

abbrev pub all_allowed : List (String × Option String) → Bool
all_allowed [] = true
all_allowed ((key, value) ∷ rest) = contains key allowed_fields && all_allowed rest

-- `draft.fields.get(key)`
abbrev pub field_of : String → TextFields → Option String
field_of key [] = none
field_of key ((k, v) ∷ rest) = if k == key then some v else field_of key rest

abbrev set_field : String → String → TextFields → TextFields
set_field key value [] = (key, value) ∷ []
set_field key value ((k, v) ∷ rest) =
    if k == key then (k, value) ∷ rest else (k, v) ∷ set_field key value rest

-- `{**fields, **cleaned}`
abbrev merge : (String → String) → TextFields → List (String × Option String) → TextFields
merge strip fields [] = fields
merge strip fields ((key, none) ∷ rest) = merge strip fields rest
merge strip fields ((key, some value) ∷ rest) =
    merge strip (set_field key (strip value) fields) rest

-- Ids are compared as texts; other spellings of the same UUID, which the query finds too, are not
-- modelled.
abbrev pub draft_by_id : String → String → List RegistrationDraft → Option RegistrationDraft
draft_by_id id creator drafts = find (λ d. d.id == id && d.creator == creator) drafts

abbrev pub replace_row : RegistrationDraft → List RegistrationDraft → List RegistrationDraft
replace_row draft [] = draft ∷ []
replace_row draft (d ∷ rest) = if d.id == draft.id then draft ∷ rest else d ∷ replace_row draft rest

-- `draft.save()`: an update, or an insert.
abbrev pub save_draft : RegistrationDraft → DraftStore → DraftStore
save_draft draft store = record store { drafts = replace_row draft store.drafts }

abbrev pub is_executed : DraftStatus → Bool
is_executed collecting = false
is_executed confirmed = false
is_executed executed = true

abbrev pub is_confirmed : DraftStatus → Bool
is_confirmed collecting = false
is_confirmed confirmed = true
is_confirmed executed = false

abbrev or_text : String → String → String
or_text a b = if a == "" then b else a

module _ {Uploads : Type 0} (s : DraftService Uploads) where
  abbrev pub new_draft : String → ℕ → RegistrationDraft
  new_draft wallet draws = record {
    id = s.uuid4 draws;
    creator = wallet;
    status = collecting;
    file_name = "";
    file_sha256 = "";
    fields = [];
    confirmation_token = none;
    confirmed_at = none;
    executed_asset = none;
  }

  -- The draft with the collected values, open again; its digest is that of the uploads, if any.
  abbrev pub collected : DraftPayload → RegistrationDraft → String → RegistrationDraft
  collected payload draft digest = record draft {
    fields = merge s.strip draft.fields payload.fields;
    file_name = s.first_255 (s.strip (or_text payload.file_name draft.file_name));
    file_sha256 = digest;
    status = collecting;
    confirmation_token = none;
    confirmed_at = none;
  }

  abbrev pub digest_of : Option Uploads → RegistrationDraft → Option String
  digest_of none draft = some draft.file_sha256
  digest_of (some uploads) draft = s.upload_manifest_sha256 uploads

  abbrev pub save_collected :
      DraftPayload → RegistrationDraft → DraftStore → Option String → DraftOutcome × DraftStore
  save_collected payload draft store none = (raised, store)
  save_collected payload draft store (some digest) =
      (saved (collected payload draft digest), save_draft (collected payload draft digest) store)

  abbrev pub save_into :
      DraftPayload → Option Uploads → RegistrationDraft → DraftStore → DraftOutcome × DraftStore
  save_into payload uploads draft store =
      if is_executed draft.status
      then (invalid_draft, store)
      else if not (all_allowed payload.fields)
      then (invalid_draft, store)
      else save_collected payload draft store (digest_of uploads draft)

  abbrev pub or_new :
      String
      → DraftPayload
      → Option Uploads
      → DraftStore
      → Option RegistrationDraft
      → DraftOutcome × DraftStore
  or_new wallet payload uploads store (some draft) = save_into payload uploads draft store
  or_new wallet payload uploads store none =
      save_into payload uploads (new_draft wallet store.draws)
        (record store { draws = suc store.draws })

  -- `save`
  unfoldable pub save :
      String → DraftPayload → Option Uploads → DraftStore → DraftOutcome × DraftStore
  save wallet payload uploads store =
      if not (contains wallet store.creators)
      then (not_found, store)
      else if s.strip payload.draft_id == ""
      then or_new wallet payload uploads store none
      else if not (s.is_uuid (s.strip payload.draft_id))
      then (raised, store)
      else or_new wallet payload uploads store
          (draft_by_id (s.strip payload.draft_id) wallet store.drafts)

  abbrev is_filled : Option String → Bool
  is_filled none = false
  is_filled (some value) = not (s.strip value == "")

  -- `_validate_ready`
  unfoldable pub is_ready : RegistrationDraft → Bool
  is_ready draft =
      not (draft.file_name == "")
      && (not (draft.file_sha256 == "")
          && (is_filled (field_of "asset_type" draft.fields)
              && (is_filled (field_of "title" draft.fields)
                  && (is_filled (field_of "min_price" draft.fields)
                      && (is_filled (field_of "target_price" draft.fields)
                          && is_filled (field_of "visibility" draft.fields))))))

  abbrev pub confirmed_draft : RegistrationDraft → ℕ → RegistrationDraft
  confirmed_draft draft draws = record draft {
    status = confirmed;
    confirmation_token = some (s.uuid4 draws);
    confirmed_at = some s.now;
  }

  abbrev pub confirm_found : DraftStore → Option RegistrationDraft → DraftOutcome × DraftStore
  confirm_found store none = (not_found, store)
  confirm_found store (some draft) =
      if is_ready draft
      then (
        saved (confirmed_draft draft store.draws),
        save_draft (confirmed_draft draft store.draws) (record store { draws = suc store.draws }),
      )
      else (invalid_draft, store)

  -- `confirm`
  unfoldable pub confirm : String → String → DraftStore → DraftOutcome × DraftStore
  unfolding is_ready
  confirm wallet draft_id store =
      if not (contains wallet store.creators)
      then (not_found, store)
      else if not (s.is_uuid draft_id)
      then (raised, store)
      else confirm_found store (draft_by_id draft_id wallet store.drafts)

  -- `str(draft.confirmation_token)`
  abbrev pub token_text : Option String → String
  token_text none = "None"
  token_text (some token) = token

  abbrev pub consume_with : RegistrationDraft → Option String → DraftOutcome
  consume_with draft none = raised
  consume_with draft (some digest) =
      if digest == draft.file_sha256 then saved draft else invalid_draft

  abbrev pub consume_found : String → Uploads → Option RegistrationDraft → DraftOutcome
  consume_found token uploads none = invalid_draft
  consume_found token uploads (some draft) =
      if not (is_confirmed draft.status)
      then invalid_draft
      else if not (token_text draft.confirmation_token == token)
      then invalid_draft
      else consume_with draft (s.upload_manifest_sha256 uploads)

  -- `consume`: it changes nothing.
  unfoldable pub consume : String → String → String → Uploads → DraftStore → DraftOutcome
  consume wallet draft_id token uploads store =
      if not (contains wallet store.creators)
      then invalid_draft
      else if not (s.is_uuid draft_id)
      then raised
      else consume_found token uploads (draft_by_id draft_id wallet store.drafts)

-- `mark_executed`
unfoldable pub mark_executed : String → String → DraftStore → DraftStore
mark_executed draft_id asset store = record store {
  drafts =
      map
        (λ d.
          if d.id == draft_id && is_confirmed d.status
          then record d { status = executed; executed_asset = some asset }
          else d)
        store.drafts;
}
