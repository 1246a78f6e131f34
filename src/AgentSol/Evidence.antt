-- ===== src/AgentSol/Evidence.antt =====
-- What a purchase in SOL of veriproof/apps/ip/views_api.py rests on.
use veri_proof_hackerton.Prelude.{
  Any, find-Any, find, find_sound, both_true, eq_iff, append_text, Bool, true, ℕ, String, false,
  not, Option, none, some, leb_ℤ, pos, ◌==◌, ◌&&◌, ◌||◌, if◌then◌else◌, ◌≡◌, refl, sym, ap, ◌∙◌,
  arith, if-both, if-split,
}
use mathlib.Core.Path.{subst}
use mathlib.Core.Option.{some-injective}
use veri_proof_hackerton.Payment.{resolve_pay_to}
use veri_proof_hackerton.Money.{Decimal, amount_to_lamports}
use veri_proof_hackerton.Models.{
  IpAsset, NegotiationSession, World, asset_by_id, Payload, SessionStatus, negotiating, accepted,
  expired,
}
use veri_proof_hackerton.Events.{no_context, record_event, record_event-SameRows}
use veri_proof_hackerton.Json.{Json, Fields, get, as_object}
use veri_proof_hackerton.License.{license_by_tx}
use veri_proof_hackerton.Settlement.{Receipt, Outcome, success, invalid, raised}
use veri_proof_hackerton.Settlement.Pipeline.{
  IsConsistent, IsConsistent-SameRows, Settled, settle_pipeline-Settled,
}
use veri_proof_hackerton.Solana.{PaymentVerification, get_transaction}
use veri_proof_hackerton.Settlement.{sol_memo}
use veri_proof_hackerton.Solana.Verify.{SolPayment, says_valid, verify_sol_payment_transaction}
use veri_proof_hackerton.Solana.Verify.Soundness.{SolEvidence, verify_sol_payment_transaction_sound}
use veri_proof_hackerton.Web.{Request}
use veri_proof_hackerton.Sponsored.{is_for_sale, is_accepted}
use veri_proof_hackerton.AgentSol.{
  SolDesk, SolTerms, SolReply, purchased, announced, error, crashed, for_amount, for_session,
  for_asset, recorded, rejected, unavailable, sol_settlement, sol_payment_of, reply_to, is_from,
  after_verdict, with_lamports, purchase, with_fields, with_json, settle_agent_sol_payment,
  is_missing, is_derivative, has_sol_price, sol_payment_memo, sol_amount, accepted_sol_session,
  submitted_text, parsed,
}

-- The work's own price, or that of an accepted session of the work, stored under the named id.
abbrev pub IsAgreed :
    SolDesk → String → World → IpAsset → Option NegotiationSession → Decimal → Type 0
IsAgreed desk session_id w asset none amount = asset.target_amount ≡ some amount
IsAgreed desk session_id w asset (some s) amount =
    Any (λ x. x ≡ s) w.sessions
    × (desk.settlement.env.parse_uuid session_id ≡ some s.id)
    × (s.asset ≡ asset.id)
    × (s.status ≡ accepted)
    × (s.final_price_sol ≡ some amount)

-- What is bought: the named work, no derivative, at a positive price that was agreed on.
pub record IsOffer (desk : SolDesk) (session_id asset_id : String) (w : World) (terms : SolTerms)
    : Type 0 where
  pub of_asset : asset_by_id asset_id w ≡ some terms.asset
  pub original : terms.asset.parent_asset_id ≡ none
  pub agreed : IsAgreed desk session_id w terms.asset terms.session terms.amount
  pub positive : leb_ℤ terms.amount (pos 0) ≡ false

-- The memo of the asset, with the session where there is one.
abbrev pub memo_text : IpAsset → Option NegotiationSession → String
memo_text asset session =
    append_text (append_text "VERIPROOF:" (append_text asset.id ":SOL"))
      (elim session [ none ↦ "" | some s ↦ append_text ":" s.id ])

resolve_pay_to-original :
    (escrow : String) (asset : IpAsset)
    → asset.parent_asset_id ≡ none
    → resolve_pay_to escrow asset none ≡ asset.creator.wallet_address
unfolding resolve_pay_to
resolve_pay_to-original escrow asset h =
    ap (λ o. elim o [ none ↦ asset.creator.wallet_address | some _ ↦ escrow ]) h

sol_payment_of-original :
    (desk : SolDesk) (terms : SolTerms) (tx : String) (lamports : ℕ)
    → terms.asset.parent_asset_id ≡ none
    → sol_payment_of desk terms tx lamports ≡ record {
      signature = tx;
      recipient = terms.asset.creator.wallet_address;
      lamports = lamports;
      memo = some (memo_text terms.asset terms.session);
    }
unfolding sol_payment_of sol_payment_memo sol_memo
sol_payment_of-original desk terms tx lamports original =
    ap
      (λ (to : String).
        let p : SolPayment = record {
          signature = tx;
          recipient = to;
          lamports = lamports;
          memo = some (memo_text terms.asset terms.session);
        } in
        p)
      (resolve_pay_to-original desk.settlement.env.platform_escrow_pubkey terms.asset original)

is_derivative-none : (asset : IpAsset) → is_derivative asset ≡ false → asset.parent_asset_id ≡ none
is_derivative-none asset h = go asset.parent_asset_id h
  where
    go : (o : Option String) → (elim o [ none ↦ false | some _ ↦ true ]) ≡ false → o ≡ none
    go none k = refl
    go (some id) k = absurd cc

is_accepted-eq : (status : SessionStatus) → is_accepted status ≡ true → status ≡ accepted
is_accepted-eq accepted h = refl
is_accepted-eq negotiating h = absurd cc
is_accepted-eq SessionStatus.rejected h = absurd cc
is_accepted-eq expired h = absurd cc

accepted-IsAgreed :
    (desk : SolDesk) (session_id : String) (asset : IpAsset) (w : World)
    (session : Option NegotiationSession)
    → accepted_sol_session desk session_id asset w ≡ some session
    → (amount : Decimal) → sol_amount asset session ≡ some amount
    → IsAgreed desk session_id w asset session amount
unfolding accepted_sol_session
accepted-IsAgreed desk session_id asset w none e amount price = price
accepted-IsAgreed desk session_id asset w (some s) e amount price = named (session_id == "") e
  where
    test : String → NegotiationSession → Bool
    test id x =
        x.id == id
        && (x.asset == asset.id && (is_accepted x.status && has_sol_price x.final_price_sol))

    found :
        (id : String)
        → desk.settlement.env.parse_uuid session_id ≡ some id
        → find (test id) w.sessions ≡ some s
        → IsAgreed desk session_id w asset (some s) amount
    found id ei k =
        let (of_id, rest) = both_true (s.id == id) _ (find_sound (test id) w.sessions s k) in
        let (of_asset, rest') = both_true (s.asset == asset.id) _ rest in
        let (accepted_, _) = both_true (is_accepted s.status) _ rest' in
        (
          find-Any (test id) w.sessions s k,
          ei ∙ ap (λ x. some x) (sym ((eq_iff s.id id).0 of_id)),
          (eq_iff s.asset asset.id).0 of_asset,
          is_accepted-eq s.status accepted_,
          price,
        )

    parsed_id :
        (o : Option String)
        → desk.settlement.env.parse_uuid session_id ≡ o
        → (elim o [ none ↦ none | some id ↦ some (find (test id) w.sessions) ]) ≡ some (some s)
        → IsAgreed desk session_id w asset (some s) amount
    parsed_id none ei k = absurd cc
    parsed_id (some id) ei k = found id ei (some-injective _ _ k)

    named :
        (unnamed : Bool)
        → (if unnamed then some none else elim (desk.settlement.env.parse_uuid session_id) [
          | none ↦ none
          | some id ↦ some (find (test id) w.sessions)
        ])
          ≡ some (some s)
        → IsAgreed desk session_id w asset (some s) amount
    named true k = absurd cc
    named false k = parsed_id _ refl k

module _ (desk : SolDesk) (session_id asset_id : String) (w₀ : World) where
  -- The chain holds a transfer of the whole price in lamports, with the memo of the asset and the
  -- session, in a transaction under which the license is stored.
  pub record IsBought (r : Receipt) (w : World) : Type 0 where
    pub terms : SolTerms
    pub tx : String
    pub lamports : ℕ
    pub whole_price : amount_to_lamports terms.amount ≡ some lamports
    pub offer : IsOffer desk session_id asset_id w₀ terms
    pub evidence : SolEvidence desk.solana (record {
      signature = tx;
      recipient = terms.asset.creator.wallet_address;
      lamports = lamports;
      memo = some (memo_text terms.asset terms.session);
    })
    pub stored : license_by_tx tx w.licenses ≡ some r.license

  abbrev pub IsEvident : SolReply × World → Type 0
  IsEvident (purchased r, w) = IsBought r w × IsConsistent w
  IsEvident (announced payee amount memo, w) = IsConsistent w
  IsEvident (error f, w) = IsConsistent w
  IsEvident (crashed, w) = IsConsistent w

  recorded-IsEvident :
      (type : String) (payload : Payload) (terms : SolTerms) (w : World)
      (next : World → SolReply × World)
      → IsConsistent w
      → ((w' : World) → IsConsistent w' → IsEvident (next w'))
      → IsEvident (recorded desk type payload terms w next)
  recorded-IsEvident type payload terms w next ok later =
      go
        (record_event desk.settlement.env type payload (some terms.asset) terms.session no_context
          w)
        refl
    where
      go :
          (o : Option World)
          → record_event desk.settlement.env type payload
              (some terms.asset)
              terms.session
              no_context
              w
            ≡ o
          → IsEvident (elim o [ none ↦ (crashed, w) | some w' ↦ next w' ])
      go none e = ok
      go (some w') e = later w' (
          IsConsistent-SameRows w w'
            (record_event-SameRows desk.settlement.env type payload (some terms.asset) terms.session
              no_context w w' e)
            ok)

  module _ (terms : SolTerms) (tx wallet : String)
      (offer : IsOffer desk session_id asset_id w₀ terms) where
    rejected-IsEvident :
        (reason code : String) (status : ℕ) (w : World)
        → IsConsistent w
        → IsEvident (rejected desk terms reason code status w)
    rejected-IsEvident reason code status w ok =
        recorded-IsEvident "PAYMENT_FAILED" _ terms w _ ok (λ w' ok'. ok')

    reply-IsEvident :
        (lamports : ℕ) (w : World) (o : Outcome × World)
        → amount_to_lamports terms.amount ≡ some lamports
        → SolEvidence desk.solana (sol_payment_of desk terms tx lamports)
        → IsConsistent w
        → Settled desk.settlement (sol_settlement terms tx wallet) w o
        → IsEvident (reply_to o)
    unfolding sol_settlement
    reply-IsEvident lamports w (success r, w') whole evidence ok (_, stored, after) = (
      record {
        terms = terms;
        tx = tx;
        lamports = lamports;
        whole_price = whole;
        offer = offer;
        evidence =
            subst (SolEvidence desk.solana)
              (sol_payment_of-original desk terms tx lamports offer.original) evidence;
        stored = stored;
      },
      after,
    )
    reply-IsEvident lamports w (invalid, w') whole evidence ok (_, same) =
        subst IsConsistent (sym same) ok
    reply-IsEvident lamports w (raised, w') whole evidence ok after = after.0

    after_verdict-IsEvident :
        (lamports : ℕ) (w : World) (o : Option PaymentVerification)
        → amount_to_lamports terms.amount ≡ some lamports
        → verify_sol_payment_transaction desk.solana (sol_payment_of desk terms tx lamports) ≡ o
        → IsConsistent w
        → IsEvident (after_verdict desk terms tx wallet w o)
    after_verdict-IsEvident lamports w none whole e ok = go (get_transaction desk.solana tx)
      where
        go :
            (r : Option Fields)
            → IsEvident (elim r [
              | none ↦ if desk.is_rpc_error tx then unavailable desk terms w else (crashed, w)
              | some _ ↦ (crashed, w)
            ])
        go none = if-both IsEvident (desk.is_rpc_error tx) _ _ (rejected-IsEvident _ _ _ w ok) ok
        go (some payload) = ok
    after_verdict-IsEvident lamports w (some v) whole e ok =
        if-split IsEvident (not v.is_valid || not (is_from wallet v.sender)) _ _
          (λ _. rejected-IsEvident _ _ _ w ok)
          (λ fine.
            reply-IsEvident lamports w _ whole
              (verify_sol_payment_transaction_sound desk.solana
                (sol_payment_of desk terms tx lamports) (ap says_valid e ∙ ground (arith, fine)))
              ok (settle_pipeline-Settled desk.settlement (sol_settlement terms tx wallet) w ok))

    with_lamports-IsEvident :
        (w : World) (o : Option ℕ)
        → amount_to_lamports terms.amount ≡ o
        → IsConsistent w
        → IsEvident (with_lamports desk terms tx wallet w o)
    with_lamports-IsEvident w none e ok = rejected-IsEvident _ _ _ w ok
    with_lamports-IsEvident w (some lamports) e ok = after_verdict-IsEvident lamports w _ e refl ok

    purchase-IsEvident : (w : World) → IsConsistent w → IsEvident (purchase desk tx wallet w terms)
    purchase-IsEvident w ok =
        recorded-IsEvident "PAYMENT_SUBMITTED" _ terms w _ ok
          (λ w' ok'. with_lamports-IsEvident w' (amount_to_lamports terms.amount) refl ok')

  -- The guards in front change nothing.
  module _ (ok : IsConsistent w₀) (next : SolTerms → SolReply × World)
      (later : (terms : SolTerms)
        → IsOffer desk session_id asset_id w₀ terms
        → IsEvident (next terms)) where
    for_amount-IsEvident :
        (asset : IpAsset) (session : Option NegotiationSession) (amount : Option Decimal)
        → asset_by_id asset_id w₀ ≡ some asset
        → ((a : Decimal) → amount ≡ some a → IsAgreed desk session_id w₀ asset session a)
        → IsEvident (for_amount asset session w₀ next amount)
    for_amount-IsEvident asset session none found agreed = ok
    for_amount-IsEvident asset session (some amount) found agreed =
        if-split IsEvident (leb_ℤ amount (pos 0)) _ _ (λ _. ok)
          (λ positive.
            if-split IsEvident (is_derivative asset) _ _ (λ _. ok)
              (λ original. later _ (record {
                of_asset = found;
                original = is_derivative-none asset original;
                agreed = agreed amount refl;
                positive = positive;
              })))

    for_session-IsEvident :
        (asset : IpAsset) (session : Option (Option NegotiationSession))
        → asset_by_id asset_id w₀ ≡ some asset
        → accepted_sol_session desk session_id asset w₀ ≡ session
        → IsEvident (for_session session_id asset w₀ next session)
    for_session-IsEvident asset none found e = ok
    for_session-IsEvident asset (some session) found e =
        if-both IsEvident (not (session_id == "") && is_missing session) _ _ ok (
          for_amount-IsEvident asset session (sol_amount asset session) found
            (accepted-IsAgreed desk session_id asset w₀ session e))

    for_asset-IsEvident :
        (asset : Option IpAsset)
        → asset_by_id asset_id w₀ ≡ asset
        → IsEvident (for_asset desk session_id w₀ next asset)
    for_asset-IsEvident none found = ok
    for_asset-IsEvident (some asset) found =
        if-both IsEvident (not (is_for_sale asset)) _ _ ok
          (for_session-IsEvident asset (accepted_sol_session desk session_id asset w₀) found refl)

-- From consistent tables, an agent's purchase in SOL is answered with a receipt only for the named
-- work, which is no derivative, at its positive price or that of an accepted session of the work
-- under the named id; and only if the chain holds, in a transaction of some signature, a system
-- transfer of exactly the price in lamports to the creator, with the memo of the asset and the
-- session; and the license is stored under that signature. Every answer leaves the tables consistent.
pub settle_agent_sol_payment-IsEvident :
    (desk : SolDesk) (request : Request) (session_id asset_id : String) (w : World)
    → IsConsistent w
    → IsEvident desk session_id asset_id w
        (settle_agent_sol_payment desk request session_id asset_id w)
unfolding settle_agent_sol_payment
settle_agent_sol_payment-IsEvident desk request session_id asset_id w ok =
    if-both Ends (not request.is_post) _ _ ok (json (parsed desk.lib request.raw_body))
  where
    Ends : SolReply × World → Type 0
    Ends = IsEvident desk session_id asset_id w

    body : (fields : Option Fields) → Ends (with_fields desk session_id asset_id w fields)
    body none = ok
    body (some fields) =
        let tx : String = submitted_text desk (get "tx_signature" fields) in
        let wallet : String = submitted_text desk (get "buyer_wallet" fields) in
        if-both Ends (tx == "" || not (desk.is_valid_pubkey wallet)) _ _ ok (
          for_asset-IsEvident desk session_id asset_id w ok (purchase desk tx wallet w)
            (λ terms offer.
              purchase-IsEvident desk session_id asset_id w terms tx wallet offer w ok)
            (asset_by_id asset_id w) refl)

    json : (o : Option Json) → Ends (with_json desk session_id asset_id w o)
    json none = ok
    json (some j) = body (as_object j)
