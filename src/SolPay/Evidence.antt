-- ===== src/SolPay/Evidence.antt =====
-- What a license by Solana Pay of veriproof/apps/ip/views_api.py rests on.
use veri_proof_hackerton.Prelude.{
  Any, ℕ, Bool, List, [], ◌∷◌, inl, inr, leb, ◌≤◌, ◌+◌, eq_iff, append_text, String, true, not,
  Option, none, some, ◌==◌, ◌||◌, ◌≡◌, refl, sym, ap, ◌∙◌, arith, if-both, if-split,
}
use mathlib.Core.Path.{subst}
use veri_proof_hackerton.Money.{Decimal}
use veri_proof_hackerton.Models.{IpAsset, World, asset_by_id}
use veri_proof_hackerton.Json.{Json, Fields, as_text, as_object}
use veri_proof_hackerton.License.{license_by_tx}
use veri_proof_hackerton.Settlement.{Receipt, Outcome, success, invalid, raised}
use veri_proof_hackerton.Settlement.Verified.{IsPayee, resolve_pay_to-IsPayee}
use veri_proof_hackerton.Settlement.Pipeline.{IsConsistent, Settled, settle_pipeline-Settled}
use veri_proof_hackerton.Solana.Reference.{
  Verdict, answered, failed, no_lamports, verify_sol_payment_by_reference, is_valid_verdict,
}
use veri_proof_hackerton.Solana.Reference.Soundness.{
  verdict_signature, ReferenceEvidence, verify_sol_payment_by_reference_sound,
}
use veri_proof_hackerton.Web.{Request}
use veri_proof_hackerton.Sponsored.{is_for_sale}
use veri_proof_hackerton.SolPay.{
  BrowserSession, PaymentRequest, active_payment_requests, payment_request_ttl, requested,
  SolPayDesk, SolPayReply, paid, pending, error, crashed, has_browser_payment_request,
  solpay_settlement, reply_to, settle_for, after_verdict, payee, asset_memo, with_price, with_asset,
  with_fields, with_json, parsed_body, verify_solpay,
}

-- A request for the asset under the reference that is not older than 30 minutes.
abbrev pub IsRequest : ℕ → String → String → PaymentRequest → Type 0
IsRequest now reference asset_id r =
    (r.reference ≡ reference) × (r.asset_id ≡ asset_id) × (now ≤ r.created_at + 1800)

active-Any :
    (P : PaymentRequest → Type 0) (now : ℕ) (session : BrowserSession)
    → Any P (active_payment_requests now session)
    → Any (λ r. P r × (now ≤ r.created_at + 1800)) session
unfolding active_payment_requests
active-Any P now [] h = h
active-Any P now (r ∷ rest) h =
    if-split
      (λ (xs : BrowserSession). Any P xs → Any (λ x. P x × (now ≤ x.created_at + 1800)) (r ∷ rest))
      (leb now (r.created_at + payment_request_ttl)) (r ∷ active_payment_requests now rest)
      (active_payment_requests now rest)
      (λ young k. elim k [
        | inl p ↦ inl (p, ground (arith, young))
        | inr later ↦ inr (active-Any P now rest later)
      ])
      (λ _ k. inr (active-Any P now rest k)) h

requested-Any :
    (reference asset_id : String) (session : BrowserSession)
    → requested reference asset_id session ≡ true
    → Any (λ (r : PaymentRequest). (r.reference ≡ reference) × (r.asset_id ≡ asset_id)) session
requested-Any reference asset_id [] h = absurd cc
requested-Any reference asset_id (r ∷ rest) h =
    if-split
      (λ (b : Bool).
        b ≡ true
        → Any (λ (x : PaymentRequest). (x.reference ≡ reference) × (x.asset_id ≡ asset_id))
            (r ∷ rest))
      (r.reference == reference) (r.asset_id == asset_id) (requested reference asset_id rest)
      (λ same k. inl ((eq_iff r.reference reference).0 same, (eq_iff r.asset_id asset_id).0 k))
      (λ _ k. inr (requested-Any reference asset_id rest k)) h

Any-map {ℓ} :
    {A : Type ℓ} (P Q : A → Type 0) (xs : List A) → ((x : A) → P x → Q x) → Any P xs → Any Q xs
Any-map P Q [] f h = h
Any-map P Q (x ∷ xs) f (inl p) = inl (f x p)
Any-map P Q (x ∷ xs) f (inr later) = inr (Any-map P Q xs f later)

requested-IsRequest :
    (now : ℕ) (asset : IpAsset) (reference : String) (session : BrowserSession)
    → (has_browser_payment_request now asset reference session).0 ≡ true
    → Any (IsRequest now reference asset.id) session
unfolding has_browser_payment_request
requested-IsRequest now asset reference session h =
    Any-map _ _ session (λ r x. (x.0.0, x.0.1, x.1))
      (active-Any _ now session
        (requested-Any reference asset.id (active_payment_requests now session) h))

module _ (desk : SolPayDesk) (session : BrowserSession) (user asset_id : String) (w₀ : World) where
  -- The browser asked for this asset under a reference that is still active, and the chain holds a
  -- payment of its price, to its creator or for a derivative to the escrow, for that reference.
  pub record IsSold (r : Receipt) (w : World) : Type 0 where
    pub asset : IpAsset
    pub reference : String
    pub amount : Decimal
    pub tx : String
    pub of_asset : asset_by_id asset_id w₀ ≡ some asset
    pub requested : Any (IsRequest desk.settlement.env.now reference asset.id) session
    pub payee : String
    pub to_payee :
        IsPayee desk.settlement.env.platform_escrow_pubkey asset.parent_asset_id asset payee
    pub price : asset.target_amount ≡ some amount
    pub evidence :
        ReferenceEvidence desk.solana desk.signatures reference payee amount
          (some (append_text "VERIPROOF:" asset.id))
          (some tx)
    pub stored : license_by_tx tx w.licenses ≡ some r.license

  abbrev pub IsEarned : SolPayReply → World → Type 0
  IsEarned (paid r) w = IsSold r w × IsConsistent w
  IsEarned pending w = IsConsistent w
  IsEarned (error f) w = IsConsistent w
  IsEarned crashed w = IsConsistent w

  abbrev Ends : SolPayReply × World → Type 0
  Ends x = IsEarned x.0 x.1

  abbrev Closes : SolPayReply × BrowserSession × World → Type 0
  Closes (reply, s, w) = IsEarned reply w

  module _ (ok : IsConsistent w₀) (asset : IpAsset) (reference : String)
      (of_asset : asset_by_id asset_id w₀ ≡ some asset)
      (requested : (has_browser_payment_request desk.settlement.env.now asset reference session).0
        ≡ true)
      (amount : Decimal) (price : asset.target_amount ≡ some amount) where
    reply-Ends :
        (tx wallet : String) (o : Outcome × World)
        → ReferenceEvidence desk.solana desk.signatures reference
            (payee desk asset)
            amount
            (asset_memo asset)
            (some tx)
        → Settled desk.settlement (solpay_settlement asset user tx wallet) w₀ o
        → Ends (reply_to o)
    unfolding solpay_settlement
    reply-Ends tx wallet (success r, w') evidence (_, stored, after) = (
      record {
        asset = asset;
        reference = reference;
        amount = amount;
        tx = tx;
        of_asset = of_asset;
        requested = requested-IsRequest desk.settlement.env.now asset reference session requested;
        payee = payee desk asset;
        to_payee = resolve_pay_to-IsPayee desk.settlement.env.platform_escrow_pubkey asset;
        price = price;
        evidence = evidence;
        stored = stored;
      },
      after,
    )
    reply-Ends tx wallet (invalid, w') evidence (_, same) = subst IsConsistent (sym same) ok
    reply-Ends tx wallet (raised, w') evidence after = after.0

    settle_for-Ends :
        (tx sender : Option String)
        → ReferenceEvidence desk.solana desk.signatures reference
            (payee desk asset)
            amount
            (asset_memo asset)
            tx
        → Ends (settle_for desk asset user w₀ tx sender)
    settle_for-Ends none sender evidence = ok
    settle_for-Ends (some tx) none evidence = ok
    settle_for-Ends (some tx) (some wallet) evidence =
        if-both Ends (tx == "" || wallet == "") _ _ ok (
          reply-Ends tx wallet _ evidence (
            settle_pipeline-Settled desk.settlement (solpay_settlement asset user tx wallet) w₀ ok))

    after_verdict-Ends :
        (v : Verdict)
        → verify_sol_payment_by_reference desk.solana desk.signatures reference
            (payee desk asset)
            amount
            (asset_memo asset)
          ≡ v
        → Ends (after_verdict desk asset user w₀ v)
    after_verdict-Ends no_lamports e = ok
    after_verdict-Ends (failed asked) e = if-both Ends (desk.is_rpc_error asked) _ _ ok ok
    after_verdict-Ends (answered v) e =
        if-split Ends (not v.is_valid) _ _ (λ _. ok)
          (λ valid. settle_for-Ends v.tx_signature (as_text v.sender) (
            subst
              (λ x.
                ReferenceEvidence desk.solana desk.signatures reference (payee desk asset) amount
                  (asset_memo asset) (verdict_signature x))
              e
              (verify_sol_payment_by_reference_sound desk.solana desk.signatures reference
                (payee desk asset) amount (asset_memo asset)
                (ap is_valid_verdict e ∙ ground (arith, valid)))))

  with_price-Ends :
      (asset : IpAsset) (reference : String) (price : Option Decimal)
      → IsConsistent w₀
      → asset_by_id asset_id w₀ ≡ some asset
      → (has_browser_payment_request desk.settlement.env.now asset reference session).0 ≡ true
      → asset.target_amount ≡ price
      → Ends (with_price desk asset user reference w₀ price)
  with_price-Ends asset reference none ok of_asset requested e = ok
  with_price-Ends asset reference (some amount) ok of_asset requested e =
      after_verdict-Ends ok asset reference of_asset requested amount e _ refl

  with_asset-Closes :
      (reference : String) (asset : Option IpAsset)
      → IsConsistent w₀
      → asset_by_id asset_id w₀ ≡ asset
      → Closes (with_asset desk session user reference w₀ asset)
  with_asset-Closes reference none ok e = ok
  with_asset-Closes reference (some asset) ok e = if-both Closes (not (is_for_sale asset)) _ _ ok (
      if-split Closes
        (not (has_browser_payment_request desk.settlement.env.now asset reference session).0) _ _
        (λ _. ok)
        (λ active.
          with_price-Ends asset reference asset.target_amount ok e (ground (arith, active)) refl))

-- From consistent tables, a signed-in browser gets a license by Solana Pay only if its
-- session holds an active request of the asset under the reference, and the chain lists a
-- transaction for the reference that transfers the whole price to the payee with the memo of the
-- asset; and the license is stored under its signature. Every answer leaves the tables
-- consistent.
pub verify_solpay-IsEarned :
    (desk : SolPayDesk) (request : Request) (session : BrowserSession) (user asset_id : String)
    (w : World)
    → IsConsistent w
    → let (reply, session', w') = verify_solpay desk request session (some user) asset_id w in
      IsEarned desk session user asset_id w reply w'
unfolding verify_solpay
verify_solpay-IsEarned desk request session user asset_id w ok =
    if-both (Closes desk session user asset_id w) (not request.is_post) _ _ ok
      (json (parsed_body desk.lib request.raw_body))
  where
    json :
        (o : Option Json)
        → Closes desk session user asset_id w (with_json desk session user asset_id w o)
    json none = ok
    json (some j) = go (as_object j)
      where
        go :
            (o : Option Fields)
            → Closes desk session user asset_id w (with_fields desk session user asset_id w o)
        go none = ok
        go (some fields) =
            if-both (Closes desk session user asset_id w) (not (desk.is_valid_pubkey _)) _ _ ok
              (with_asset-Closes desk session user asset_id w _ (asset_by_id asset_id w) ok refl)
