-- ===== src/X402/Access/Justified.antt =====
-- What `get_asset` of veriproof/apps/ip/views_api.py promises: no license without a payment.
use veri_proof_hackerton.Prelude.{
  Any, find-Any, find_sound, both_true, eq_iff, List, String, not, Option, none, some, leb_ℤ, pos,
  ◌==◌, ◌&&◌, ◌≡◌, refl, sym, if-both, if-split,
}
use mathlib.Core.Path.{subst}
use veri_proof_hackerton.Money.{Decimal}
use veri_proof_hackerton.Models.{IpAsset, License, NegotiationSession, World, asset_by_id, Payload}
use veri_proof_hackerton.Events.{EventContext, no_context, record_event, record_event-SameRows}
use veri_proof_hackerton.License.{license_by_tx, license_for, is_download_active}
use veri_proof_hackerton.Web.Download.Access.{IsActive, is_download_active-IsActive}
use veri_proof_hackerton.Settlement.{Outcome, success, invalid, raised}
use veri_proof_hackerton.Settlement.Pipeline.{
  IsConsistent, IsConsistent-SameRows, Settled, settle_pipeline-Settled,
}
use veri_proof_hackerton.Sponsored.{is_for_sale}
use veri_proof_hackerton.X402.{
  Client, agent, browser, classify_client, accepted_x402_session, x402_usdc_amount,
}
use veri_proof_hackerton.X402.Facilitator.{
  X402Settlement, Settling, settled, payment_invalid, protocol_error, IsVerified, IsSettledBy,
  after_settle-IsSettledBy, verify_and_settle, verify_and_settle-Ran, settled-IsVerified,
}
use veri_proof_hackerton.X402.Access.{
  Visit, Shop, AccessReply, licensed, payment_required, solana_pay, error, crashed, header_or_empty,
  Terms, offered, no_amount, unavailable, recorded, with_terms, payment_required_response,
  x402_settlement, reply_to, after_facilitator, with_challenge, settle_x402_request, with_amount,
  is_missing, with_session, for_client, unlicensed, with_license, license_under, with_asset,
  get_asset, build_challenge,
}

module _ (shop : Shop) (visit : Visit) (asset_id : String) (w₀ : World) where
  -- Why a license may be shown: it was stored for this asset under the signature in the request and
  -- is still open; or the payment in the request was verified against a challenge, the facilitator
  -- settled it, and the license is stored under the settled transaction.
  pub data IsPaidFor : License → World → Type 0 where
    held :
        {l : License} {w : World} (asset : IpAsset)
        → asset_by_id asset_id w₀ ≡ some asset
        → Any (λ m. m ≡ l) w₀.licenses
        → l.asset ≡ asset.id
        → l.payment_tx_sig ≡ header_or_empty visit "X-Solana-Tx-Sig"
        → IsActive shop.settlement.env.now l
        → IsPaidFor l w
    bought :
        {l : License} {w : World} (challenge : shop.server.Challenge)
        (payload : shop.server.Payload) (requirements : shop.server.Requirements)
        (x : X402Settlement)
        → IsVerified shop.server
            (header_or_empty visit "PAYMENT-SIGNATURE")
            challenge
            payload
            requirements
        → IsSettledBy shop.server payload requirements x
        → license_by_tx x.transaction w.licenses ≡ some l
        → IsPaidFor l w

  abbrev pub IsJustified : AccessReply × World → Type 0
  IsJustified (licensed l, w) = IsPaidFor l w × IsConsistent w
  IsJustified (payment_required, w) = IsConsistent w
  IsJustified (solana_pay body, w) = IsConsistent w
  IsJustified (error f, w) = IsConsistent w
  IsJustified (crashed, w) = IsConsistent w

  recorded-IsJustified :
      (type : String) (payload : Payload) (asset : IpAsset) (session : Option NegotiationSession)
      (context : EventContext) (w : World) (next : World → AccessReply × World)
      → IsConsistent w
      → ((w' : World) → IsConsistent w' → IsJustified (next w'))
      → IsJustified (recorded shop type payload asset session context w next)
  recorded-IsJustified type payload asset session context w next ok later =
      go (record_event shop.settlement.env type payload (some asset) session context w) refl
    where
      go :
          (o : Option World)
          → record_event shop.settlement.env type payload (some asset) session context w ≡ o
          → IsJustified (elim o [ none ↦ (crashed, w) | some w' ↦ next w' ])
      go none e = ok
      go (some w') e = later w' (
          IsConsistent-SameRows w w'
            (record_event-SameRows shop.settlement.env type payload (some asset) session context w
              w' e)
            ok)

  module _ (asset : IpAsset) (session : Option NegotiationSession) (amount : Decimal) where
    payment_required-IsJustified :
        (w : World)
        → IsConsistent w
        → IsJustified (payment_required_response shop asset visit session amount w)
    unfolding payment_required_response
    payment_required-IsJustified w ok = go (build_challenge shop asset visit amount)
      where
        go : (terms : Terms shop) → IsJustified (with_terms shop asset visit session w terms)
        go no_amount = ok
        go unavailable = ok
        go (offered challenge) =
            recorded-IsJustified "ASSET_DISCOVERED" _ asset none _ w _ ok
              (λ w' ok'. recorded-IsJustified "HTTP_402" _ asset none _ w' _ ok' (λ w'' ok''. ok''))

    reply-IsJustified :
        (challenge : shop.server.Challenge) (payload : shop.server.Payload)
        (requirements : shop.server.Requirements) (x : X402Settlement) (w : World)
        (o : Outcome × World)
        → IsVerified shop.server
            (header_or_empty visit "PAYMENT-SIGNATURE")
            challenge
            payload
            requirements
        → IsSettledBy shop.server payload requirements x
        → IsConsistent w
        → Settled shop.settlement (x402_settlement shop asset session amount x) w o
        → IsJustified (reply_to shop o)
    unfolding x402_settlement
    reply-IsJustified challenge payload requirements x w (success r, w') verified answer ok
          (_, stored, after) =
        (bought challenge payload requirements x verified answer stored, after)
    reply-IsJustified challenge payload requirements x w (invalid, w') verified answer ok
          (_, same) =
        subst IsConsistent (sym same) ok
    reply-IsJustified challenge payload requirements x w (raised, w') verified answer ok after =
        after.0

    failed-IsJustified :
        (w : World)
        → IsConsistent w
        → IsJustified (after_facilitator shop asset visit session amount w protocol_error)
    failed-IsJustified w ok =
        recorded-IsJustified "PAYMENT_FAILED" _ asset session no_context w _ ok (λ w' ok'. ok')

    after_facilitator-IsJustified :
        (challenge : shop.server.Challenge) (w : World) (o : Settling)
        → (verify_and_settle shop.server (header_or_empty visit "PAYMENT-SIGNATURE") challenge).0
          ≡ o
        → IsConsistent w
        → IsJustified (after_facilitator shop asset visit session amount w o)
    after_facilitator-IsJustified challenge w payment_invalid e ok =
        recorded-IsJustified "PAYMENT_FAILED" _ asset session no_context w _ ok
          payment_required-IsJustified
    after_facilitator-IsJustified challenge w protocol_error e ok = failed-IsJustified w ok
    after_facilitator-IsJustified challenge w (settled x) e ok =
        let (payload, requirements, verified, answer) =
          settled-IsVerified shop.server
            (verify_and_settle-Ran shop.server (header_or_empty visit "PAYMENT-SIGNATURE")
              challenge)
            x e in
        reply-IsJustified challenge payload requirements x w _ verified
          (after_settle-IsSettledBy shop.server payload requirements x answer) ok
          (settle_pipeline-Settled shop.settlement (x402_settlement shop asset session amount x) w
            ok)

    with_challenge-IsJustified :
        (w : World) (terms : Terms shop)
        → IsConsistent w
        → IsJustified (
            with_challenge shop asset visit session amount
              (header_or_empty visit "PAYMENT-SIGNATURE")
              w
              terms)
    with_challenge-IsJustified w no_amount ok = ok
    with_challenge-IsJustified w unavailable ok = failed-IsJustified w ok
    with_challenge-IsJustified w (offered challenge) ok =
        after_facilitator-IsJustified challenge w _ refl ok

    settle_x402_request-IsJustified :
        (w : World)
        → IsConsistent w
        → IsJustified (
            settle_x402_request shop asset visit session amount
              (header_or_empty visit "PAYMENT-SIGNATURE")
              w)
    unfolding settle_x402_request
    settle_x402_request-IsJustified w ok =
        recorded-IsJustified "PAYMENT_SUBMITTED" _ asset session no_context w _ ok
          (λ w' ok'. with_challenge-IsJustified w' (build_challenge shop asset visit amount) ok')

  module _ (asset : IpAsset) (ok : IsConsistent w₀) where
    with_amount-IsJustified :
        (session : Option NegotiationSession) (amount : Option Decimal)
        → IsJustified (with_amount shop asset visit session w₀ amount)
    with_amount-IsJustified session none = ok
    with_amount-IsJustified session (some amount) =
        if-both IsJustified (leb_ℤ amount (pos 0)) _ _ ok (
          if-both IsJustified (header_or_empty visit "PAYMENT-SIGNATURE" == "") _ _
            (payment_required-IsJustified asset session amount w₀ ok)
            (settle_x402_request-IsJustified asset session amount w₀ ok))

    with_session-IsJustified :
        (session : Option (Option NegotiationSession))
        → IsJustified (with_session shop asset visit w₀ session)
    with_session-IsJustified none = ok
    with_session-IsJustified (some session) =
        if-both IsJustified (not (visit.session_id == "") && is_missing shop session) _ _ ok
          (with_amount-IsJustified session (x402_usdc_amount asset session))

    unlicensed-IsJustified : IsJustified (unlicensed shop asset visit w₀)
    unlicensed-IsJustified =
        if-both IsJustified (not (is_for_sale asset)) _ _ ok
          (go (classify_client shop.lower visit.header))
      where
        go : (client : Client) → IsJustified (for_client shop asset visit w₀ client)
        go browser = ok
        go agent =
            with_session-IsJustified
              (accepted_x402_session shop.settlement.env visit.session_id asset w₀)

license_for-stored :
    (asset : IpAsset) (tx : String) (rows : List License) (l : License)
    → license_for asset tx rows ≡ some l
    → Any (λ m. m ≡ l) rows × (l.asset ≡ asset.id) × (l.payment_tx_sig ≡ tx)
license_for-stored asset tx rows l e =
    let (of_asset, of_tx) =
      both_true (l.asset == asset.id) (l.payment_tx_sig == tx) (find_sound _ rows l e) in
    (
      find-Any _ rows l e,
      (eq_iff l.asset asset.id).0 of_asset,
      (eq_iff l.payment_tx_sig tx).0 of_tx,
    )

-- From consistent tables, a request for an asset is answered with a license only if it was stored
-- for the asset under the signature in the request and is still open, or if the payment in the
-- request was verified against a challenge and settled by the facilitator, and the license is
-- stored under the settled transaction. Every answer leaves the tables consistent.
pub get_asset-IsJustified :
    (shop : Shop) (visit : Visit) (asset_id : String) (w : World)
    → IsConsistent w
    → IsJustified shop visit asset_id w (get_asset shop visit asset_id w)
unfolding get_asset
get_asset-IsJustified shop visit asset_id w ok = go (asset_by_id asset_id w) refl
  where
    stored :
        (asset : IpAsset) (license : Option License)
        → asset_by_id asset_id w ≡ some asset
        → license_under shop asset (header_or_empty visit "X-Solana-Tx-Sig") w ≡ license
        → IsJustified shop visit asset_id w (with_license shop asset visit w license)
    stored asset none found e = unlicensed-IsJustified shop visit asset_id w asset ok
    stored asset (some license) found e =
        let tx = header_or_empty visit "X-Solana-Tx-Sig" in
        let (there, of_asset, of_tx) = license_for-stored asset tx w.licenses license (
          if-split
            (λ (o : Option License).
              o ≡ some license → license_for asset tx w.licenses ≡ some license)
            (tx == "") none (license_for asset tx w.licenses) (λ _ k. absurd cc) (λ _ k. k) e) in
        if-split (IsJustified shop visit asset_id w)
          (is_download_active shop.settlement.env.now license) _ _
          (λ active. (
            held asset found there of_asset of_tx
                (is_download_active-IsActive shop.settlement.env.now license active),
            ok,
          ))
          (λ _. unlicensed-IsJustified shop visit asset_id w asset ok)

    go :
        (asset : Option IpAsset)
        → asset_by_id asset_id w ≡ asset
        → IsJustified shop visit asset_id w (with_asset shop visit w asset)
    go none found = ok
    go (some asset) found = stored asset _ found refl
