-- ===== src/Draft/Use.antt =====
-- What the use of a confirmed draft of veriproof/services/registration_draft_service.py guarantees.
use veri_proof_hackerton.Prelude.{
  String, true, not, Option, none, some, ◌==◌, ◌≡◌, refl, ap, ◌∙◌, arith, eq_iff, if-both, if-split,
}
use mathlib.Core.Path.{subst, subst₂}
use text.Mathlib.TextPositions.{eq_refl}
use veri_proof_hackerton.Draft.{
  RegistrationDraft, DraftStore, DraftService, DraftOutcome, saved, not_found, invalid_draft,
  raised, contains, draft_by_id, replace_row, is_confirmed, is_ready, confirmed_draft,
  confirm_found, confirm, token_text, consume_with, consume_found, consume,
}
use veri_proof_hackerton.Draft.Confirmation.{lookup-replace_row, draft_by_id-keys}

module _ {Uploads : Type 0} (s : DraftService Uploads) where
  -- What a consumed draft stands for.
  abbrev pub IsConfirmed : String → String → String → Uploads → DraftStore → DraftOutcome → Type 0
  IsConfirmed wallet id token uploads store (saved d) =
      (draft_by_id id wallet store.drafts ≡ some d)
      × (is_confirmed d.status ≡ true)
      × (token_text s d.confirmation_token ≡ token)
      × (s.upload_manifest_sha256 uploads ≡ some d.file_sha256)
  IsConfirmed wallet id token uploads store not_found = Unit
  IsConfirmed wallet id token uploads store invalid_draft = Unit
  IsConfirmed wallet id token uploads store raised = Unit

  consume_with-IsConfirmed :
      (wallet id token : String) (uploads : Uploads) (store : DraftStore) (d : RegistrationDraft)
      (digest : Option String)
      → draft_by_id id wallet store.drafts ≡ some d
      → is_confirmed d.status ≡ true
      → (token_text s d.confirmation_token == token) ≡ true
      → s.upload_manifest_sha256 uploads ≡ digest
      → IsConfirmed wallet id token uploads store (consume_with s d digest)
  consume_with-IsConfirmed wallet id token uploads store d none found conf same e = tt
  consume_with-IsConfirmed wallet id token uploads store d (some digest) found conf same e =
      if-split (IsConfirmed wallet id token uploads store) (digest == d.file_sha256) _ _
        (λ h. (
          found,
          conf,
          (eq_iff (token_text s d.confirmation_token) token).0 same,
          e ∙ ap (λ x. some x) ((eq_iff digest d.file_sha256).0 h),
        ))
        (λ _. tt)

  consume_found-IsConfirmed :
      (wallet id token : String) (uploads : Uploads) (store : DraftStore)
      (r : Option RegistrationDraft)
      → draft_by_id id wallet store.drafts ≡ r
      → IsConfirmed wallet id token uploads store (consume_found s token uploads r)
  consume_found-IsConfirmed wallet id token uploads store none e = tt
  consume_found-IsConfirmed wallet id token uploads store (some d) e =
      if-split P (not (is_confirmed d.status)) _ _ (λ _. tt)
        (λ conf.
          if-split P (not (token_text s d.confirmation_token == token)) _ _ (λ _. tt)
            (λ same.
              consume_with-IsConfirmed wallet id token uploads store d _ e (ground arith)
                (ground arith) refl))
    where
      P : DraftOutcome → Type 0
      P = IsConfirmed wallet id token uploads store

  -- A draft that is consumed is the wallet's stored draft of that id; it is confirmed, the token is
  -- the one of its confirmation, and the uploads have the digest that was confirmed.
  pub consume-IsConfirmed :
      (wallet id token : String) (uploads : Uploads) (store : DraftStore)
      → IsConfirmed wallet id token uploads store (consume s wallet id token uploads store)
  unfolding consume
  consume-IsConfirmed wallet id token uploads store =
      if-both P (not (contains wallet store.creators)) _ _ tt (
        if-both P (not (s.is_uuid id)) _ _ tt
          (consume_found-IsConfirmed wallet id token uploads store _ refl))
    where
      P : DraftOutcome → Type 0
      P = IsConfirmed wallet id token uploads store

  -- A confirmation that succeeds is of a draft with every required field, and is stored.
  abbrev pub IsReady : String → String → DraftOutcome × DraftStore → Type 0
  IsReady wallet id (saved d, store) =
      (contains wallet store.creators ≡ true)
      × (s.is_uuid id ≡ true)
      × (draft_by_id id wallet store.drafts ≡ some d)
      × (is_confirmed d.status ≡ true)
      × (is_ready s d ≡ true)
  IsReady wallet id (not_found, store) = Unit
  IsReady wallet id (invalid_draft, store) = Unit
  IsReady wallet id (raised, store) = Unit

  confirm_found-IsReady :
      (wallet id : String) (store : DraftStore) (r : Option RegistrationDraft)
      → draft_by_id id wallet store.drafts ≡ r
      → contains wallet store.creators ≡ true
      → s.is_uuid id ≡ true
      → IsReady wallet id (confirm_found s store r)
  unfolding is_ready
  confirm_found-IsReady wallet id store none e known uuid = tt
  confirm_found-IsReady wallet id store (some d) e known uuid =
      if-split (IsReady wallet id) (is_ready s d) _ _
        (λ ready. (
          known,
          uuid,
          subst₂
              (λ i c.
                draft_by_id i c (replace_row (confirmed_draft s d store.draws) store.drafts)
                ≡ some (confirmed_draft s d store.draws))
              (draft_by_id-keys id wallet store.drafts d e).0
              (draft_by_id-keys id wallet store.drafts d e).1
              (lookup-replace_row (confirmed_draft s d store.draws) store.drafts),
          refl,
          ready,
        ))
        (λ _. tt)

  pub confirm-IsReady :
      (wallet id : String) (store : DraftStore) → IsReady wallet id (confirm s wallet id store)
  unfolding confirm
  confirm-IsReady wallet id store =
      if-split (IsReady wallet id) (not (contains wallet store.creators)) _ _ (λ _. tt)
        (λ known.
          if-split (IsReady wallet id) (not (s.is_uuid id)) _ _ (λ _. tt)
            (λ uuid. confirm_found-IsReady wallet id store _ refl (ground arith) (ground arith)))

  -- After a confirmation, its token and uploads with the confirmed digest let the registration go on
  -- with the confirmed draft.
  pub confirm-consume :
      (wallet id : String) (store store' : DraftStore) (d : RegistrationDraft) (uploads : Uploads)
      → confirm s wallet id store ≡ (saved d, store')
      → s.upload_manifest_sha256 uploads ≡ some d.file_sha256
      → consume s wallet id (token_text s d.confirmation_token) uploads store' ≡ saved d
  unfolding consume
  confirm-consume wallet id store store' d uploads h digest =
      let (known, uuid, found, conf, _) =
        subst (IsReady wallet id) h (confirm-IsReady wallet id store) in
      rw (known, uuid, found, conf, eq_refl (token_text s d.confirmation_token), digest)
        (rw (eq_refl d.file_sha256) refl)
