-- ===== src/Registration/Prepared.antt =====
-- What the steps of `RegistrationService.register` before its transaction have checked and obtained.
use veri_proof_hackerton.Prelude.{String, Option, none, some, ◌≡◌, refl, if-both, sym, ℕ}
use veri_proof_hackerton.Models.{IpAsset}
use veri_proof_hackerton.Flow.{
  raised, Result, pure, raise, Ends, Ends-pure, from_option, done, failed,
}
use veri_proof_hackerton.Registration.{RegistrationService, Office, Trail, Artifacts, asset_by_hash}
use veri_proof_hackerton.Registration.Subscription.{authorize_registration}
use veri_proof_hackerton.Registration.Register.{
  Application, Prepared, fail_with, found_duplicate, check_new, anchored_by, anchor, certified_by,
  certify_registration, save_files, store_files, prove, check_gallery, check_subscription,
  new_trail,
}
use veri_proof_hackerton.Registration.Completion.{content_hash, prepare}
use veri_proof_hackerton.Registration.Quiet.{
  SameOffice, SameOffice-refl, Quiet, Known, chain, bind-Quiet, pure-Quiet, raise-Quiet,
  from_option-Quiet, IsParent, rescue-Quiet,
}
use veri_proof_hackerton.Registration.Audited.{
  announce-Quiet, draw_uuid-Quiet, prepare_artifacts-Quiet, image_hash-Quiet, save_preview-Quiet,
  gallery_artifacts-Quiet, resolve_parent-Quiet,
}

module _ (s : RegistrationService) (a : Application) where
  -- The work is new, its parent and share are valid, and the chain holds its hash and certificate.
  pub record IsPrepared (o : Office) (p : Prepared) : Type 0 where
    pub hash : p.content_hash ≡ content_hash s a
    pub new : asset_by_hash p.content_hash o.world ≡ none
    pub parent : IsParent a.metadata o p.parent
    pub anchored :
        s.anchor_hash p.content_hash a.metadata.creator_wallet a.signer_secret_key
        ≡ some p.anchor_tx_sig
    pub certified :
        s.issue_registration_certificate p.asset_id a.metadata.creator_wallet p.content_hash
          a.signer_secret_key
        ≡ some p.certificate_tx_sig

  fail_with-Quiet :
      {A : Type 0} (F : Office → A → Type 0) (trail : Trail) (reason code : String) (status : ℕ)
      → Quiet F (fail_with s a trail reason code status)
  unfolding raise
  fail_with-Quiet F trail reason code status = record {
    run = λ o.
        chain o o _ _ Known _ _ (SameOffice-refl o) (announce-Quiet s trail _ _) (λ o' h. h)
          (λ _ o' same _. same);
  }

  found_duplicate-Ends :
      (trail : Trail) (hash : String) (found : Option IpAsset) (o : Office)
      → asset_by_hash hash o.world ≡ found
      → Ends
          (λ _ o'. SameOffice o' o × (asset_by_hash hash o.world ≡ none))
          (λ o'. SameOffice o' o)
          (found_duplicate s a trail found o)
  unfolding pure
  found_duplicate-Ends trail hash none o e = (SameOffice-refl o, e)
  found_duplicate-Ends trail hash (some x) o e =
      (fail_with-Quiet (λ o _. asset_by_hash hash o.world ≡ none) trail _ _ _).run o

  check_new-Quiet :
      (trail : Trail) (hash : String)
      → Quiet (λ o _. asset_by_hash hash o.world ≡ none) (check_new s a trail hash)
  unfolding check_new
  check_new-Quiet trail hash = record { run = λ o. found_duplicate-Ends trail hash _ o refl }

  anchored_by-Quiet :
      (trail : Trail) (answer : Option String)
      → Quiet (λ o tx. answer ≡ some tx) (anchored_by s a trail answer)
  unfolding pure from_option
  anchored_by-Quiet trail none = fail_with-Quiet _ trail _ _ _
  anchored_by-Quiet trail (some tx) = from_option-Quiet raised (some tx)

  certified_by-Quiet :
      (trail : Trail) (answer : Option String)
      → Quiet (λ o tx. answer ≡ some tx) (certified_by s a trail answer)
  unfolding pure from_option
  certified_by-Quiet trail none = fail_with-Quiet _ trail _ _ _
  certified_by-Quiet trail (some tx) = from_option-Quiet raised (some tx)

  save_files-Quiet :
      (asset_id : String) (artifacts : Artifacts) → Quiet Known (save_files s a asset_id artifacts)
  unfolding save_files
  save_files-Quiet asset_id artifacts = bind-Quiet _ _ _ (save_preview-Quiet s _ _ _) (λ thumbnail.
      bind-Quiet _ _ _ (save_preview-Quiet s _ _ _) (λ watermark.
        bind-Quiet _ _ _ (from_option-Quiet _ _) (λ original.
          bind-Quiet _ _ _ (gallery_artifacts-Quiet s asset_id _ _) (λ images. pure-Quiet _))))

  store_files-Quiet :
      (trail : Trail) (artifacts : Artifacts) → Quiet Known (store_files s a trail artifacts)
  unfolding store_files
  store_files-Quiet trail artifacts =
      rescue-Quiet _ _ (save_files-Quiet trail.asset_id artifacts)
        (λ fault. fail_with-Quiet Known trail _ _ _)

  known_new :
      (start o : Office) (hash : String)
      → SameOffice o start
      → asset_by_hash hash o.world ≡ none
      → asset_by_hash hash start.world ≡ none
  known_new start o hash same new = rw (sym same.rows.assets) new

  IsParent-SameOffice :
      (start o : Office) (parent : Option IpAsset)
      → SameOffice o start
      → IsParent a.metadata o parent
      → IsParent a.metadata start parent
  IsParent-SameOffice start o none same known = tt
  IsParent-SameOffice start o (some parent) same known =
      (rw (sym same.rows.assets) (known.0), known.1)

  -- The steps from the duplicate check on, counted from the tables at the start of the request.
  prove-Ends :
      (start o : Office) (asset_id : String)
      → SameOffice o start
      → Ends
          (λ p o'. SameOffice o' start × IsPrepared start p)
          (λ o'. SameOffice o' start)
          (prove s a (new_trail s a asset_id) (content_hash s a) o)
  unfolding prove anchor certify_registration
  prove-Ends start o asset_id same =
      let trail = new_trail s a asset_id in
      let hash = content_hash s a in
      let P : Prepared → Office → Type 0 = λ p o'. SameOffice o' start × IsPrepared start p in
      let E : Office → Type 0 = λ o'. SameOffice o' start in
      let stay : (o' : Office) → SameOffice o' start → E o' = λ o' h. h in
      chain start o _ _ _ P E same (check_new-Quiet trail hash) stay (λ _ o1 h1 new.
        chain start o1 _ _ _ P E h1 (resolve_parent-Quiet s a.metadata) stay
          (λ parent o2 h2 parent_ok.
            chain start o2 _ _ _ P E h2 (prepare_artifacts-Quiet s _ _ _) stay (λ artifacts o3 h3 _.
              chain start o3 _ _ _ P E h3 (image_hash-Quiet s _ _) stay (λ phash o4 h4 _.
                chain start o4 _ _ _ P E h4 (announce-Quiet s trail _ _) stay (λ _ o5 h5 _.
                  chain start o5 _ _ _ P E h5 (announce-Quiet s trail _ _) stay (λ _ o6 h6 _.
                    chain start o6 _ _ _ P E h6 (anchored_by-Quiet trail _) stay
                      (λ tx o7 h7 anchored.
                        chain start o7 _ _ _ P E h7 (announce-Quiet s trail _ _) stay (λ _ o8 h8 _.
                          chain start o8 _ _ _ P E h8 (certified_by-Quiet trail _) stay
                            (λ certificate o9 h9 certified.
                              chain start o9 _ _ _ P E h9 (announce-Quiet s trail _ _) stay
                                (λ _ o10 h10 _.
                                  chain start o10 _ _ _ P E h10 (store_files-Quiet trail _) stay
                                    (λ stored o11 h11 _.
                                      chain start o11 _ _ _ P E h11 (announce-Quiet s trail _ _)
                                        stay
                                        (λ _ o12 h12 _. Ends-pure _ o12 P E (
                                          h12,
                                          record {
                                            hash = refl;
                                            new = known_new start o hash same new;
                                            parent =
                                                IsParent-SameOffice start o1 parent h1 parent_ok;
                                            anchored = anchored;
                                            certified = certified;
                                          },
                                        )))))))))))))

  check_gallery-Quiet : Quiet Known (check_gallery s a)
  check_gallery-Quiet = if-both (Quiet Known) _ _ _ (raise-Quiet _ _) (pure-Quiet _)

  answered-Ends :
      (o : Office) (r : Result (Unit {0}))
      → Ends (λ a o'. SameOffice o' o × Known o a) (λ o'. SameOffice o' o) (r, o)
  answered-Ends o (done x) = (SameOffice-refl o, tt)
  answered-Ends o (failed f) = SameOffice-refl o

  authorize_registration-Quiet :
      (now : ℕ) (wallet : String) → Quiet Known (authorize_registration now wallet)
  unfolding authorize_registration
  authorize_registration-Quiet now wallet = record { run = λ o. answered-Ends o _ }

  check_subscription-Quiet : Quiet Known (check_subscription s a)
  check_subscription-Quiet =
      if-both (Quiet Known) _ _ _ (authorize_registration-Quiet _ _) (pure-Quiet _)

  -- Up to the transaction nothing but events is written, and what the transaction needs is known.
  pub prepare-Ends :
      (o : Office)
      → Ends (λ p o'. SameOffice o' o × IsPrepared o p) (λ o'. SameOffice o' o) (prepare s a o)
  unfolding prepare
  prepare-Ends o =
      let P : Prepared → Office → Type 0 = λ p o'. SameOffice o' o × IsPrepared o p in
      let E : Office → Type 0 = λ o'. SameOffice o' o in
      let stay : (o' : Office) → SameOffice o' o → E o' = λ o' h. h in
      chain o o _ _ _ P E (SameOffice-refl o) check_gallery-Quiet stay (λ _ o1 h1 _.
        chain o o1 _ _ _ P E h1 check_subscription-Quiet stay (λ _ o2 h2 _.
          chain o o2 _ _ _ P E h2 (draw_uuid-Quiet s) stay (λ asset_id o3 h3 _.
            chain o o3 _ _ _ P E h3 (announce-Quiet s _ _ _) stay (λ _ o4 h4 _.
              chain o o4 _ _ _ P E h4 (announce-Quiet s _ _ _) stay
                (λ _ o5 h5 _. prove-Ends o o5 asset_id h5)))))
