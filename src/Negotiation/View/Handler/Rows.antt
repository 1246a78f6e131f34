-- ===== src/Negotiation/View/Handler/Rows.antt =====
-- Which rows `negotiate` of veriproof/apps/negotiation/views_api.py leaves alone.
use veri_proof_hackerton.Prelude.{
  ℕ, suc, String, not, Option, none, some, List, [], ◌∷◌, ◌++◌, pos, leb_ℤ, if-both, Option-cases,
  inl, inr, ◌==◌,
}
use mathlib.Core.Path.{subst, sym}
use veri_proof_hackerton.Money.{Decimal}
use veri_proof_hackerton.Models.{IpAsset, NegotiationSession, Currency, World, asset_by_id, Payload}
use veri_proof_hackerton.Env.{Env}
use veri_proof_hackerton.Events.{SameRows, record_event, no_context, record_event-SameRows}
use veri_proof_hackerton.Negotiation.Engine.{
  NegotiationResult, RoundResult, ok, not_configured, unavailable, Negotiate, run_round,
}
use veri_proof_hackerton.Negotiation.View.{
  Body, malformed, not_object, object, Request, Response, ParseDecimal, negotiation_offer,
  text_or_empty, is_allowed_usage, amount_not_configured, is_thread, select, new_session,
  same_currency, with_initial_offer, replace_session, event_type,
}
use veri_proof_hackerton.Negotiation.View.Handler.{
  engine, concluded, conclude, after_first, after_second, after_round, negotiate_in, in_thread,
  with_offer, with_body, negotiate, event_payload,
}

-- A property of the tables that sessions, the log of events and draws do not matter for holds after
-- every request to negotiate, if it held before.
module _ (P : World → Type 0) (logged : (w w' : World) → SameRows w' w → P w → P w')
    (of_sessions : (w : World) (rows : List NegotiationSession)
      → P w
      → P (record w { sessions = rows }))
    (of_draws : (w : World) (n : ℕ) → P w → P (record w { draws = n })) where
  abbrev Ends : Response × World → Type 0
  Ends x = P x.1

  module _ (env : Env) (asset : IpAsset) (currency : Currency) (offer : Decimal) where
    second_event :
        (r : NegotiationResult) (s : NegotiationSession) (type : String) (payload : Payload)
        (w : World)
        → P w
        → Ends (
            after_second currency r s w
              (record_event env type payload (some asset) (some s) no_context w))
    second_event r s type payload w h =
        elim (Option-cases (record_event env type payload (some asset) (some s) no_context w)) [
          | inl raised ↦ subst (λ o. Ends (after_second currency r s w o)) (sym raised) h
          | inr (w', recorded) ↦
              subst (λ o. Ends (after_second currency r s w o)) (sym recorded)
                (logged w w'
                  (record_event-SameRows env type payload (some asset) (some s) no_context w w'
                    recorded)
                  h)
        ]

    conclude-Ends :
        (r : NegotiationResult) (s : NegotiationSession) (w : World)
        → P w
        → Ends (conclude env asset currency offer r s w)
    unfolding conclude
    conclude-Ends r s w h =
        let saved : NegotiationSession = concluded env currency offer r s in
        let payload : Payload = event_payload asset saved currency offer r in
        let w' : World = record w { sessions = replace_session saved w.sessions } in
        let h' : P w' = of_sessions w (replace_session saved w.sessions) h in
        elim (Option-cases
          (record_event env "OFFER" payload (some asset) (some saved) no_context w')) [
            | inl raised ↦
                subst (λ o. Ends (after_first env asset currency offer r saved w' o)) (sym raised)
                  h'
            | inr (w'', recorded) ↦
                subst (λ o. Ends (after_first env asset currency offer r saved w' o)) (sym recorded)
                  (second_event r saved (event_type r.status) payload w'' (
                    logged w' w''
                      (record_event-SameRows env "OFFER" payload (some asset) (some saved)
                        no_context w' w'' recorded)
                      h'))
          ]

    after_round-Ends :
        (s : NegotiationSession) (w : World) (result : RoundResult)
        → P w
        → Ends (after_round env asset currency offer s w result)
    after_round-Ends s w not_configured h = h
    after_round-Ends s w unavailable h = h
    after_round-Ends s w (ok r) h = conclude-Ends r s w h

  module _ (env : Env) (gemini : Negotiate) (asset : IpAsset) where
    negotiate_in-Ends :
        (usage : String) (c : Currency) (offer : Decimal) (s : NegotiationSession) (w : World)
        → P w
        → Ends (negotiate_in env gemini asset usage c offer s w)
    unfolding negotiate_in
    negotiate_in-Ends usage c offer s w h = if-both Ends (not (same_currency s.currency c)) _ _ h (
        after_round-Ends env asset c offer (with_initial_offer c offer s) w
          (run_round (engine env gemini) asset (with_initial_offer c offer s) offer usage c) h)

    in_thread-Ends :
        (buyer usage : String) (c : Currency) (offer : Decimal) (w : World)
        (threads : List NegotiationSession)
        → P w
        → Ends (in_thread env gemini asset buyer usage c offer w threads)
    in_thread-Ends buyer usage c offer w [] h =
        let fresh : NegotiationSession = new_session env asset buyer usage c offer w.draws in
        negotiate_in-Ends usage c offer fresh
          (record w { sessions = w.sessions ++ fresh ∷ []; draws = suc w.draws })
          (of_draws _ (suc w.draws) (of_sessions w (w.sessions ++ fresh ∷ []) h))
    in_thread-Ends buyer usage c offer w (s ∷ []) h = negotiate_in-Ends usage c offer s w h
    in_thread-Ends buyer usage c offer w (s ∷ s' ∷ rest) h = h

    with_offer-Ends :
        (usage : Option String) (buyer : String) (w : World) (offer : Currency × Option Decimal)
        → P w
        → Ends (with_offer env gemini asset usage buyer w offer)
    with_offer-Ends usage buyer w (c, none) h = h
    with_offer-Ends usage buyer w (c, some offer) h = if-both Ends (leb_ℤ offer (pos 0)) _ _ h (
        if-both Ends (amount_not_configured asset) _ _ h (
          if-both Ends (not (is_allowed_usage usage)) _ _ h (
            if-both Ends (buyer == "") _ _ h (
              in_thread-Ends buyer (text_or_empty usage) c offer w
                (select (is_thread asset.id buyer) w.sessions) h))))

    with_body-Ends :
        (parse : ParseDecimal) (body : Body) (w : World)
        → P w
        → Ends (with_body env parse gemini body w (some asset))
    with_body-Ends parse malformed w h = h
    with_body-Ends parse not_object w h = h
    with_body-Ends parse (object fields) w h =
        with_offer-Ends fields.usage_type (env.strip (text_or_empty fields.buyer_agent_id)) w
          (negotiation_offer parse fields) h

  pub negotiate_rows :
      (env : Env) (parse : ParseDecimal) (gemini : Negotiate) (request : Request) (w : World)
      → P w
      → P (negotiate env parse gemini request w).1
  unfolding negotiate
  negotiate_rows env parse gemini request w h =
      if-both Ends (not request.is_post) _ _ h (found (asset_by_id request.asset_id w))
    where
      found : (asset : Option IpAsset) → Ends (with_body env parse gemini request.body w asset)
      found none = h
      found (some asset) = with_body-Ends env gemini asset parse request.body w h
