-- ===== src/Sponsored/Final.antt =====
-- A settled intent of veriproof/apps/ip/views_api.py and its license under later steps.
use veri_proof_hackerton.Prelude.{
  ℕ, String, true, false, not, Option, none, some, List, [], ◌∷◌, ◌++◌, map, ◌==◌, ◌||◌, ◌&&◌,
  if◌then◌else◌, ◌≡◌, refl, sym, ap, ◌∙◌, arith, if-both, if-split, eq_iff, find-append_some,
  find_sound, leb,
}
use mathlib.Core.Path.{subst}
use veri_proof_hackerton.Models.{IpAsset, NegotiationSession, World, asset_by_id}
use veri_proof_hackerton.Money.{Decimal}
use veri_proof_hackerton.Json.{Json, truthy}
use veri_proof_hackerton.Payment.{resolve_pay_to}
use veri_proof_hackerton.Settlement.{Outcome, success, invalid, raised}
use veri_proof_hackerton.Sponsored.{
  SponsoredPaymentIntent, IntentStatus, created, submitted, settled, expired, Channel, Checkout,
  Sponsored, transaction, misconfigured, IntentReply, replace_intent, expire_stale, is_stale,
  is_for_sale, positive, accepted_usdc_session, amount_for,
}
use veri_proof_hackerton.Sponsored.Open.{
  Tables, store_intent, with_amount, with_session, with_asset, create_sponsored_usdc_intent,
  is_missing,
}
use veri_proof_hackerton.Sponsored.Settle.{
  Till, PaidReply, Checked, is_settled, intent_by_id, commit, check, settle_locked,
  after_settlement, bound_to_another, is_taken,
}

-- The row of this id is settled, with these contents.
abbrev pub IsFinal : SponsoredPaymentIntent → List SponsoredPaymentIntent → Type 0
IsFinal i intents = (intent_by_id i.id intents ≡ some i) × (is_settled i.status ≡ true)

-- Looking up an id commutes with a change that keeps ids.
intent_by_id-map :
    (f : SponsoredPaymentIntent → SponsoredPaymentIntent) (id : String)
    (intents : List SponsoredPaymentIntent)
    → ((i : SponsoredPaymentIntent) → (f i).id ≡ i.id)
    → (i : SponsoredPaymentIntent) → intent_by_id id intents ≡ some i
    → intent_by_id id (map f intents) ≡ some (f i)
intent_by_id-map f id [] same i h = cc
intent_by_id-map f id (x ∷ intents) same i h =
    ground (arith, intent_by_id-map f id intents same i, same x)

id-replace : (j x : SponsoredPaymentIntent) → (if x.id == j.id then j else x).id ≡ x.id
id-replace j x =
    if-split (λ y. y.id ≡ x.id) (x.id == j.id) j x (λ e. sym ((eq_iff x.id j.id).0 e)) (λ _. refl)

-- A row that is not settled can be replaced.
replace_intent-IsFinal :
    (i j k : SponsoredPaymentIntent) (intents : List SponsoredPaymentIntent)
    → intent_by_id k.id intents ≡ some k
    → is_settled k.status ≡ false
    → j.id ≡ k.id
    → IsFinal i intents
    → IsFinal i (replace_intent j intents)
replace_intent-IsFinal i j k intents found open_ same (h, final) = (
  intent_by_id-map (λ x. if x.id == j.id then j else x) i.id intents (id-replace j) i h
      ∙ ap (λ x. some x)
          (if-split (λ x. x ≡ i) (i.id == j.id) j i
            (λ e. absurd (
              let is_k : some i ≡ some k =
                sym h
                ∙ ap (λ id. intent_by_id id intents) ((eq_iff i.id j.id).0 e ∙ same)
                ∙ found in
              grind arith))
            (λ _. refl)),
  final,
)

expire_stale-IsFinal :
    (now : ℕ) (user : Option String) (asset wallet : String) (i : SponsoredPaymentIntent)
    (intents : List SponsoredPaymentIntent)
    → IsFinal i intents
    → IsFinal i (expire_stale now user asset wallet intents)
unfolding expire_stale
expire_stale-IsFinal now user asset wallet i intents (h, final) = (
  intent_by_id-map
        (λ x. if is_stale now user asset wallet x then record x { status = expired } else x) i.id
        intents
        (λ x.
          if-both (λ (y : SponsoredPaymentIntent). y.id ≡ x.id) (is_stale now user asset wallet x) _
            _ refl refl)
        i h
      ∙ ap (λ x. some x) (kept i.status refl),
  final,
)
  where
    kept :
        (status : IntentStatus)
        → i.status ≡ status
        → (if is_stale now user asset wallet i then record i { status = expired } else i) ≡ i
    kept created e = absurd (grind arith)
    kept submitted e = absurd (grind arith)
    kept expired e = absurd (grind arith)
    kept settled e = ground arith

IsFinal-append :
    (i j : SponsoredPaymentIntent) (intents : List SponsoredPaymentIntent)
    → IsFinal i intents
    → IsFinal i (intents ++ j ∷ [])
IsFinal-append i j intents (h, final) =
    (find-append_some (λ x. x.id == i.id) intents (j ∷ []) i h, final)

pub create-IsFinal :
    (i : SponsoredPaymentIntent) (c : Checkout) (asset_id : String) (user : Option String)
    (wallet : String) (channel : Channel) (session_id : Json) (t : Tables)
    → IsFinal i t.0
    → IsFinal i (create_sponsored_usdc_intent c asset_id user wallet channel session_id t).1.0
unfolding create_sponsored_usdc_intent
create-IsFinal i c asset_id user wallet channel session_id t h = found (asset_by_id asset_id t.1)
  where
    built :
        (j : SponsoredPaymentIntent) (intents : List SponsoredPaymentIntent) (w : World)
        (o : Sponsored)
        → IsFinal i intents
        → IsFinal i (store_intent j intents w o).1.0
    built j intents w misconfigured k = k
    built j intents w (transaction serialized payer) k = IsFinal-append i j intents k

    priced :
        (asset : IpAsset) (session : Option NegotiationSession) (amount : Option Decimal)
        → IsFinal i (with_amount c asset session user wallet channel t amount).1.0
    priced asset session none = h
    priced asset session (some amount) =
        if-both (λ (x : IntentReply × Tables). IsFinal i x.1.0)
          (not (c.is_valid_pubkey (resolve_pay_to c.env.platform_escrow_pubkey asset none))) _ _ h
          (built _ (expire_stale c.env.now user asset.id wallet t.0) t.1 _
            (expire_stale-IsFinal c.env.now user asset.id wallet i t.0 h))

    chosen :
        (asset : IpAsset) (session : Option (Option NegotiationSession))
        → IsFinal i (with_session c asset user wallet channel session_id t session).1.0
    chosen asset none = h
    chosen asset (some session) =
        if-both (λ (x : IntentReply × Tables). IsFinal i x.1.0)
          (truthy session_id && is_missing session) _ _ h
          (priced asset session (amount_for asset.target_amount session))

    found :
        (asset : Option IpAsset)
        → IsFinal i (with_asset c user wallet channel session_id t asset).1.0
    found none = h
    found (some asset) =
        if-both (λ (x : IntentReply × Tables). IsFinal i x.1.0) (not (is_for_sale asset)) _ _ h
          (if-both (λ (x : IntentReply × Tables). IsFinal i x.1.0)
            (not (asset.currency == "USDC") || not (positive asset.target_amount)) _ _ h
            (chosen asset (accepted_usdc_session c.lib c.env asset session_id t.1)))

pub check-IsFinal :
    (i : SponsoredPaymentIntent) (t : Till) (intent : SponsoredPaymentIntent) (signature : String)
    (tables : Tables)
    → intent_by_id intent.id tables.0 ≡ some intent
    → IsFinal i tables.0
    → IsFinal i (check t intent signature tables).1
unfolding check
check-IsFinal i t intent signature tables found h =
    if-split (λ (x : Checked × List SponsoredPaymentIntent). IsFinal i x.1)
      (is_settled intent.status) _ _ (λ _. h)
      (λ open_.
        if-both (λ (x : Checked × List SponsoredPaymentIntent). IsFinal i x.1)
          (leb intent.expires_at t.settlement.env.now) _ _
          (replace_intent-IsFinal i (record intent { status = expired }) intent tables.0 found open_
            refl h)
          (if-both (λ (x : Checked × List SponsoredPaymentIntent). IsFinal i x.1)
            (bound_to_another signature intent.transaction_signature) _ _ h
            (if-both (λ (x : Checked × List SponsoredPaymentIntent). IsFinal i x.1)
              (is_taken signature intent tables.0) _ _ h h)))

id-intent_by_id :
    (id : String) (intents : List SponsoredPaymentIntent) (k : SponsoredPaymentIntent)
    → intent_by_id id intents ≡ some k
    → k.id ≡ id
id-intent_by_id id intents k h = (eq_iff k.id id).0 (find_sound (λ i. i.id == id) intents k h)

after_settlement-IsFinal :
    (i k : SponsoredPaymentIntent) (now : ℕ) (signature : String)
    (intents : List SponsoredPaymentIntent) (w : World) (o : Outcome × World)
    → intent_by_id k.id intents ≡ some k
    → is_settled k.status ≡ false
    → IsFinal i intents
    → IsFinal i (after_settlement now k signature intents w o).1.0
after_settlement-IsFinal i k now signature intents w (success r, w') found open_ h =
    replace_intent-IsFinal i _ k intents found open_ refl h
after_settlement-IsFinal i k now signature intents w (invalid, w') found open_ h =
    replace_intent-IsFinal i _ k intents found open_ refl h
after_settlement-IsFinal i k now signature intents w (raised, w') found open_ h = h

pub commit-IsFinal :
    (i : SponsoredPaymentIntent) (t : Till) (id signature : String) (user : Option String)
    (tables : Tables)
    → IsFinal i tables.0
    → IsFinal i (commit t id signature user tables).1.0
unfolding commit
commit-IsFinal i t id signature user tables h = go (intent_by_id id tables.0) refl
  where
    go :
        (k : Option SponsoredPaymentIntent)
        → intent_by_id id tables.0 ≡ k
        → IsFinal i (settle_locked t signature user tables k).1.0
    go none e = h
    go (some k) e =
        if-split (λ (x : PaidReply × Tables). IsFinal i x.1.0) (is_settled k.status) _ _ (λ _. h)
          (λ open_.
            if-both (λ (x : PaidReply × Tables). IsFinal i x.1.0)
              (bound_to_another signature k.transaction_signature) _ _ h
              (if-both (λ (x : PaidReply × Tables). IsFinal i x.1.0) (is_taken signature k tables.0)
                _ _ h
                (after_settlement-IsFinal i k _ signature tables.0 tables.1 _
                  (subst (λ id'. intent_by_id id' tables.0 ≡ some k)
                    (sym (id-intent_by_id id tables.0 k e)) e)
                  open_ h)))
