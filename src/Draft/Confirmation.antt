-- ===== src/Draft/Confirmation.antt =====
-- What the confirmation of veriproof/services/registration_draft_service.py guarantees.
use veri_proof_hackerton.Prelude.{
  suc, String, Bool, true, false, not, Option, none, some, List, [], ◌∷◌, ◌==◌, ◌≡◌, refl, sym,
  arith, eq_iff, both_true, find_sound, if-both,
}
use mathlib.Core.Path.{subst}
use text.Mathlib.TextPositions.{eq_refl}
use veri_proof_hackerton.Draft.{
  RegistrationDraft, DraftStore, DraftService, DraftPayload, DraftOutcome, saved, not_found,
  invalid_draft, raised, contains, all_allowed, draft_by_id, replace_row, is_executed, is_confirmed,
  new_draft, collected, digest_of, save_collected, save_into, or_new, save, consume_found, consume,
}

pub lookup-replace_row :
    (d : RegistrationDraft) (rows : List RegistrationDraft)
    → draft_by_id d.id d.creator (replace_row d rows) ≡ some d
lookup-replace_row d [] = ground (arith, eq_refl d.id, eq_refl d.creator)
lookup-replace_row d (x ∷ rows) =
    ground (arith, lookup-replace_row d rows, eq_refl d.id, eq_refl d.creator)

pub draft_by_id-keys :
    (id creator : String) (rows : List RegistrationDraft) (d : RegistrationDraft)
    → draft_by_id id creator rows ≡ some d
    → (d.id ≡ id) × (d.creator ≡ creator)
draft_by_id-keys id creator rows d h =
    let (same_id, same_creator) = both_true (d.id == id) _ (find_sound _ rows d h) in
    ((eq_iff d.id id).0 same_id, (eq_iff d.creator creator).0 same_creator)

-- Whether the outcome lets the registration go on.
abbrev pub accepts : DraftOutcome → Bool
accepts (saved d) = true
accepts not_found = false
accepts invalid_draft = false
accepts raised = false

module _ {Uploads : Type 0} (s : DraftService Uploads) where
  -- A save that succeeds has stored the draft under the wallet, open and without a token.
  abbrev Stored : String → DraftOutcome × DraftStore → Type 0
  Stored wallet (saved d, store) =
      (draft_by_id d.id wallet store.drafts ≡ some d) × (is_confirmed d.status ≡ false)
  Stored wallet (not_found, store) = Unit
  Stored wallet (invalid_draft, store) = Unit
  Stored wallet (raised, store) = Unit

  save_collected-Stored :
      (payload : DraftPayload) (d : RegistrationDraft) (store : DraftStore) (digest : Option String)
      → Stored d.creator (save_collected s payload d store digest)
  save_collected-Stored payload d store none = tt
  save_collected-Stored payload d store (some digest) =
      (lookup-replace_row (collected s payload d digest) store.drafts, refl)

  save_into-Stored :
      (payload : DraftPayload) (uploads : Option Uploads) (d : RegistrationDraft)
      (store : DraftStore)
      → Stored d.creator (save_into s payload uploads d store)
  save_into-Stored payload uploads d store =
      if-both (Stored d.creator) (is_executed d.status) _ _ tt (
        if-both (Stored d.creator) (not (all_allowed payload.fields)) _ _ tt
          (save_collected-Stored payload d store (digest_of s uploads d)))

  or_new-Stored :
      (wallet id : String) (payload : DraftPayload) (uploads : Option Uploads) (store : DraftStore)
      (found : Option RegistrationDraft)
      → draft_by_id id wallet store.drafts ≡ found
      → Stored wallet (or_new s wallet payload uploads store found)
  or_new-Stored wallet id payload uploads store none e =
      save_into-Stored payload uploads (new_draft s wallet store.draws)
        (record store { draws = suc store.draws })
  or_new-Stored wallet id payload uploads store (some d) e =
      subst (λ creator. Stored creator (save_into s payload uploads d store))
        (draft_by_id-keys id wallet store.drafts d e).1 (save_into-Stored payload uploads d store)

  save-Stored :
      (wallet : String) (payload : DraftPayload) (uploads : Option Uploads) (store : DraftStore)
      → Stored wallet (save s wallet payload uploads store)
  unfolding save
  save-Stored wallet payload uploads store =
      if-both P (not (contains wallet store.creators)) _ _ tt (
        if-both P (s.strip payload.draft_id == "") _ _
          (save_into-Stored payload uploads (new_draft s wallet store.draws)
            (record store { draws = suc store.draws }))
          (if-both P (not (s.is_uuid (s.strip payload.draft_id))) _ _ tt
            (or_new-Stored wallet (s.strip payload.draft_id) payload uploads store _ refl)))
    where
      P : DraftOutcome × DraftStore → Type 0
      P = Stored wallet

  consume_open :
      (token : String) (uploads : Uploads) (d : RegistrationDraft)
      → is_confirmed d.status ≡ false
      → accepts (consume_found s token uploads (some d)) ≡ false
  consume_open token uploads d h = rw h refl

  -- Saving a draft takes its confirmation back: right after, no token and no uploads let the
  -- registration go on.
  pub save-consume :
      (wallet : String) (payload : DraftPayload) (uploads : Option Uploads)
      (store store' : DraftStore) (d : RegistrationDraft) (token : String) (uploads' : Uploads)
      → save s wallet payload uploads store ≡ (saved d, store')
      → accepts (consume s wallet d.id token uploads' store') ≡ false
  unfolding consume
  save-consume wallet payload uploads store store' d token uploads' h =
      let (found, opened) = subst (Stored wallet) h (save-Stored wallet payload uploads store) in
      if-both Refuses (not (contains wallet store'.creators)) _ _ refl (
        if-both Refuses (not (s.is_uuid d.id)) _ _ refl (
          subst (λ x. Refuses (consume_found s token uploads' x)) (sym found)
            (consume_open token uploads' d opened)))
    where
      Refuses : DraftOutcome → Type 0
      Refuses x = accepts x ≡ false
