-- ===== src/Negotiation/View/Handler/Responses.antt =====
-- What the responses of `negotiate` in veriproof/apps/negotiation/views_api.py promise.
use veri_proof_hackerton.Prelude.{
  length, ◌+◌, suc, String, not, some, List, [], ◌∷◌, ◌++◌, pos, leb_ℤ, ◌≡◌, refl, ◌≤ℤ◌, arith,
  if-both, if-split, Option-cases, inl, inr, ◌==◌, length-append,
}
use mathlib.Core.Path.{subst, sym}
use veri_proof_hackerton.Money.{Decimal}
use veri_proof_hackerton.Models.{IpAsset, NegotiationSession, Currency, World, asset_by_id, Payload}
use veri_proof_hackerton.Env.{Env}
use veri_proof_hackerton.Events.{record_event, no_context, record_event-events}
use veri_proof_hackerton.Negotiation.Engine.{
  NegotiationResult, RoundResult, ok, not_configured, unavailable, Negotiate, run_round,
}
use veri_proof_hackerton.Negotiation.Engine.Prices.{IsProtected, Returned, run_round-IsProtected}
use veri_proof_hackerton.Negotiation.View.{
  Fields, object, Request, Answer, Response, error, success, crashed, ParseDecimal,
  negotiation_offer, text_or_empty, is_allowed_usage, amount_not_configured, is_thread, select,
  new_session, same_currency, with_initial_offer, replace_session, event_type,
}
use veri_proof_hackerton.Negotiation.View.Handler.{
  engine, concluded, conclude, after_first, after_second, after_round, negotiate_in, in_thread,
  with_offer, with_body, negotiate, event_payload,
}
use veri_proof_hackerton.Negotiation.View.Handler.Invariant.{configured_prices}

-- The answer to a round, as the engine's properties read it.
abbrev pub answered : Answer → NegotiationResult
answered a = record {
  status = a.status;
  price_sol = a.price;
  reason = a.reason;
  pay_address = a.pay_address;
}

-- A success has recorded two more events and answers as the engine's round is protected; a refusal
-- has recorded nothing.
module _ (env : Env) (gemini : Negotiate) (asset : IpAsset) (c : Currency) (m offer : Decimal) where
  abbrev pub Promise : World → Response × World → Type 0
  Promise w (success a, w') =
      (length w'.events ≡ length w.events + 2)
      × IsProtected (engine env gemini) asset m offer c (answered a)
  Promise w (error _ _, w') = w'.events ≡ w.events
  Promise w (crashed, w') = Unit

  second_event :
      (r : NegotiationResult) (s : NegotiationSession) (type : String) (payload : Payload)
      (w₀ w : World)
      → IsProtected (engine env gemini) asset m offer c r
      → length w.events ≡ length w₀.events + 1
      → Promise w₀
          (after_second c r s w (record_event env type payload (some asset) (some s) no_context w))
  second_event r s type payload w₀ w p h =
      elim (Option-cases (record_event env type payload (some asset) (some s) no_context w)) [
        | inl raised ↦ subst (λ o. Promise w₀ (after_second c r s w o)) (sym raised) tt
        | inr (w', recorded) ↦
            let e =
              record_event-events env type payload (some asset) (some s) no_context w w' recorded in
            subst (λ o. Promise w₀ (after_second c r s w o)) (sym recorded)
              (rw (e, length-append) (omega (arith, h)), p)
      ]

  conclude-Promise :
      (r : NegotiationResult) (s : NegotiationSession) (w : World)
      → IsProtected (engine env gemini) asset m offer c r
      → Promise w (conclude env asset c offer r s w)
  unfolding conclude
  conclude-Promise r s w p =
      let saved : NegotiationSession = concluded env c offer r s in
      let payload : Payload = event_payload asset saved c offer r in
      let w' : World = record w { sessions = replace_session saved w.sessions } in
      elim (Option-cases
        (record_event env "OFFER" payload (some asset) (some saved) no_context w')) [
          | inl raised ↦
              subst (λ o. Promise w (after_first env asset c offer r saved w' o)) (sym raised) tt
          | inr (w'', recorded) ↦
              let e =
                record_event-events env "OFFER" payload (some asset) (some saved) no_context w' w''
                  recorded in
              subst (λ o. Promise w (after_first env asset c offer r saved w' o)) (sym recorded)
                (second_event r saved (event_type r.status) payload w w'' p
                  (rw (e, length-append) (omega arith)))
        ]

  after_round-Promise :
      (s : NegotiationSession) (w : World) (result : RoundResult)
      → Returned (IsProtected (engine env gemini) asset m offer c) result
      → Promise w (after_round env asset c offer s w result)
  after_round-Promise s w not_configured p = tt
  after_round-Promise s w unavailable p = refl
  after_round-Promise s w (ok r) p = conclude-Promise r s w p

module _ (env : Env) (gemini : Negotiate) (asset : IpAsset) (m t : Decimal)
    (hm : asset.min_amount ≡ some m) (ht : asset.target_amount ≡ some t) (ordered : m ≤ℤ t)
    (usage : String) (c : Currency) (offer : Decimal) where
  negotiate_in-Promise :
      (s : NegotiationSession) (w : World)
      → Promise env gemini asset c m offer w (negotiate_in env gemini asset usage c offer s w)
  unfolding negotiate_in
  negotiate_in-Promise s w =
      if-both (Promise env gemini asset c m offer w) (not (same_currency s.currency c)) _ _ refl (
        after_round-Promise env gemini asset c m offer (with_initial_offer c offer s) w
          (run_round (engine env gemini) asset (with_initial_offer c offer s) offer usage c)
          (run_round-IsProtected (engine env gemini) asset (with_initial_offer c offer s) offer
            usage c m t hm ht ordered))

  in_thread-Promise :
      (buyer : String) (w : World) (threads : List NegotiationSession)
      → Promise env gemini asset c m offer w
          (in_thread env gemini asset buyer usage c offer w threads)
  in_thread-Promise buyer w [] =
      let fresh : NegotiationSession = new_session env asset buyer usage c offer w.draws in
      negotiate_in-Promise fresh
        (record w { sessions = w.sessions ++ fresh ∷ []; draws = suc w.draws })
  in_thread-Promise buyer w (s ∷ []) = negotiate_in-Promise s w
  in_thread-Promise buyer w (s ∷ s' ∷ rest) = tt

-- A request that names a stored asset with a minimum and makes a readable offer: on a 200 response
-- exactly two events have been recorded, an acceptance has a price between the rounded minimum and
-- the rounded offer and the resolved payee, a counter offer has a price of at least the rounded
-- minimum, and no other answer has a payee; on any error response no event has been recorded.
pub negotiate-Promise :
    (env : Env) (parse : ParseDecimal) (gemini : Negotiate) (request : Request) (w : World)
    (asset : IpAsset) (fields : Fields) (c : Currency) (m offer : Decimal)
    → asset_by_id request.asset_id w ≡ some asset
    → request.body ≡ object fields
    → negotiation_offer parse fields ≡ (c, some offer)
    → asset.min_amount ≡ some m
    → Promise env gemini asset c m offer w (negotiate env parse gemini request w)
unfolding negotiate
negotiate-Promise env parse gemini request w asset fields c m offer found body offered hm =
    if-both P (not request.is_post) _ _ refl (
      subst (λ a. P (with_body env parse gemini request.body w a)) (sym found)
        (subst (λ b. P (with_body env parse gemini b w (some asset))) (sym body)
          (subst (λ o. P (with_offer env gemini asset fields.usage_type buyer w o)) (sym offered)
            (if-both P (leb_ℤ offer (pos 0)) _ _ refl (
              if-split P (amount_not_configured asset) _ _ (λ _. refl)
                (λ configured.
                  let (m', t, hm', ht, ordered) = configured_prices asset configured in
                  let same : m' ≡ m = cc in
                  if-both P (not (is_allowed_usage fields.usage_type)) _ _ refl (
                    if-both P (buyer == "") _ _ refl (
                      in_thread-Promise env gemini asset m t hm ht
                        (subst (λ x. x ≤ℤ t) same ordered) (text_or_empty fields.usage_type) c offer
                        buyer w (select (is_thread asset.id buyer) w.sessions)))))))))
  where
    P : Response × World → Type 0
    P = Promise env gemini asset c m offer w

    buyer : String
    buyer = env.strip (text_or_empty fields.buyer_agent_id)
