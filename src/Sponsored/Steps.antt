-- ===== src/Sponsored/Steps.antt =====
-- The life of the intents of veriproof/apps/ip/views_api.py under requests that may interleave: the
-- check of a settlement and its commit are two steps, with any others between them.
use veri_proof_hackerton.Prelude.{
  String, true, Option, some, ◌==◌, ◌≡◌, refl, ap, ◌∙◌, arith, All-find,
}
use veri_proof_hackerton.Models.{License}
use veri_proof_hackerton.Json.{Json}
use veri_proof_hackerton.Settlement.{SettlementService, Settlement, settle_pipeline}
use veri_proof_hackerton.Settlement.Pipeline.{settle_pipeline-IsConsistent}
use veri_proof_hackerton.Settlement.Persistence.{settle_pipeline-IsLicensed}
use veri_proof_hackerton.Sponsored.{
  SponsoredPaymentIntent, IntentStatus, created, submitted, settled, expired, Channel, Checkout,
}
use veri_proof_hackerton.Sponsored.Open.{Tables, create_sponsored_usdc_intent}
use veri_proof_hackerton.Sponsored.Settle.{
  Till, paid, is_settled, intent_by_id, commit, check, settle_locked, paid_reply, license_for,
  sponsored_payment_response,
}
use veri_proof_hackerton.Sponsored.Final.{IsFinal, create-IsFinal, check-IsFinal, commit-IsFinal}
use veri_proof_hackerton.Sponsored.Sound.{
  IsSound, IsHonoured-later, commit-IsSound, check-IsHonoured, create-IsSound, IsPaid, PaidIn,
}

infix 40 ◌⟶◌ ◌⟶*◌
pub data ◌⟶◌ : Tables → Tables → Type 0 where
  opened :
      (c : Checkout) (asset_id : String) (user : Option String) (wallet : String)
      (channel : Channel) (session_id : Json) (t : Tables)
      → t ⟶ (create_sponsored_usdc_intent c asset_id user wallet channel session_id t).1
  checked :
      (till : Till) (intent : SponsoredPaymentIntent) (signature : String) (t : Tables)
      → intent_by_id intent.id t.0 ≡ some intent
      → t ⟶ ((check till intent signature t).1, t.1)
  committed :
      (till : Till) (id signature : String) (user : Option String) (t : Tables)
      → t ⟶ (commit till id signature user t).1
  -- a settlement by another way
  piped :
      (s : SettlementService) (x : Settlement) (t : Tables) → t ⟶ (t.0, (settle_pipeline s x t.1).1)

pub data ◌⟶*◌ : Tables → Tables → Type 0 where
  here : {t : Tables} → t ⟶* t
  next : {t t' t'' : Tables} → t ⟶ t' → t' ⟶* t'' → t ⟶* t''

⟶-IsFinal : {t t' : Tables} (i : SponsoredPaymentIntent) → t ⟶ t' → IsFinal i t.0 → IsFinal i t'.0
⟶-IsFinal i (opened c asset_id user wallet channel session_id t) h =
    create-IsFinal i c asset_id user wallet channel session_id t h
⟶-IsFinal i (checked till intent signature t found) h =
    check-IsFinal i till intent signature t found h
⟶-IsFinal i (committed till id signature user t) h = commit-IsFinal i till id signature user t h
⟶-IsFinal i (piped s x t) h = h

pub steps-IsFinal :
    {t t' : Tables} (i : SponsoredPaymentIntent) → t ⟶* t' → IsFinal i t.0 → IsFinal i t'.0
steps-IsFinal i here h = h
steps-IsFinal i (next step rest) h = steps-IsFinal i rest (⟶-IsFinal i step h)

⟶-IsSound : {t t' : Tables} → t ⟶ t' → IsSound t → IsSound t'
⟶-IsSound (opened c asset_id user wallet channel session_id t) h =
    create-IsSound c user wallet channel session_id t h asset_id
⟶-IsSound (checked till intent signature t found) h =
    (check-IsHonoured till intent signature t h.0, h.1)
⟶-IsSound (committed till id signature user t) h = commit-IsSound till id signature user t h
⟶-IsSound (piped s x t) h = (
  IsHonoured-later t.0 t.1 (settle_pipeline s x t.1).1 (λ tx. settle_pipeline-IsLicensed s x tx t.1)
      h.0,
  settle_pipeline-IsConsistent s x t.1 h.1,
)

-- From sound tables, any requests that open, check and commit sponsored payments or settle
-- otherwise, in any order and with any answers of the chain, leave sound tables: every settled
-- intent carries the signature of a payment that has a license, and the tables are consistent.
pub steps-IsSound : {t t' : Tables} → t ⟶* t' → IsSound t → IsSound t'
steps-IsSound here h = h
steps-IsSound (next step rest) h = steps-IsSound rest (⟶-IsSound step h)

settled_response :
    (i : SponsoredPaymentIntent) (t : Tables)
    → IsPaid t.1 i
    → is_settled i.status ≡ true
    → (l : License) × (sponsored_payment_response i t.1 ≡ paid i l)
unfolding sponsored_payment_response
settled_response i t h final = go i.status i.transaction_signature refl refl h
  where
    go :
        (status : IntentStatus) (signature : Option String)
        → i.status ≡ status
        → i.transaction_signature ≡ signature
        → PaidIn t.1 signature status
        → (l : License) × (sponsored_payment_response i t.1 ≡ paid i l)
    go created signature e e' k = absurd (grind arith)
    go submitted signature e e' k = absurd (grind arith)
    go expired signature e e' k = absurd (grind arith)
    go settled signature e e' (tx, same, (l, stored)) =
        (l, ap (paid_reply i) (ap (λ o. license_for o t.1) (e' ∙ same) ∙ stored))

committed_settled :
    (till : Till) (signature : String) (user : Option String) (t : Tables)
    (i : SponsoredPaymentIntent)
    → IsFinal i t.0
    → commit till i.id signature user t ≡ (sponsored_payment_response i t.1, t)
unfolding commit
committed_settled till signature user t i (found, final) =
    ap (settle_locked till signature user t) found ∙ open_ final
  where
    open_ :
        is_settled i.status ≡ true
        → settle_locked till signature user t (some i) ≡ (sponsored_payment_response i t.1, t)
    open_ h = rw h refl

-- An intent that is settled in sound tables is paid for good: after any further requests, another
-- attempt to settle it, under whatever signature, is answered with this intent and its license, and
-- changes nothing.
pub settled_stays_paid :
    {t t' : Tables} (i : SponsoredPaymentIntent) (till : Till) (signature : String)
    (user : Option String)
    → t ⟶* t'
    → IsSound t
    → IsFinal i t.0
    → (l : License) × (commit till i.id signature user t' ≡ (paid i l, t'))
settled_stays_paid {t' = t'} i till signature user steps sound final =
    let final' = steps-IsFinal i steps final in
    let (l, reply) =
      settled_response i t'
        (All-find (IsPaid t'.1) (λ x. x.id == i.id) t'.0 i (steps-IsSound steps sound).0 final'.0)
        final'.1 in
    (l, committed_settled till signature user t' i final' ∙ ap (λ r. (r, t')) reply)
