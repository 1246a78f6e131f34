-- ===== src/Negotiation/View/Handler/Invariant.antt =====
-- What `negotiate` of veriproof/apps/negotiation/views_api.py keeps true of the stored sessions.
use veri_proof_hackerton.Prelude.{
  suc, String, Bool, true, false, not, Option, none, some, List, [], ◌∷◌, ◌++◌, pos, leb_ℤ, ◌≡◌,
  refl, ◌≤ℤ◌, arith, All, All-append, if-both, Bool-cases, Option-cases, inl, inr, ◌==◌,
}
use mathlib.Core.Path.{subst, sym}
use veri_proof_hackerton.Money.{Decimal}
use veri_proof_hackerton.Models.{
  IpAsset, NegotiationSession, accepted, Currency, sol, usdc, World, asset_by_id, Payload,
}
use veri_proof_hackerton.Env.{Env}
use veri_proof_hackerton.Events.{record_event, no_context, record_event-SameRows}
use veri_proof_hackerton.Negotiation.Engine.{
  NegotiationResult, RoundResult, ok, not_configured, unavailable, Engine, Negotiate, run_round,
}
use veri_proof_hackerton.Negotiation.Engine.Prices.{IsProtected, Returned, run_round-IsProtected}
use veri_proof_hackerton.Negotiation.View.{
  Body, malformed, not_object, object, Request, Response, ParseDecimal, negotiation_offer,
  text_or_empty, is_allowed_usage, amount_not_configured, lacks_prices, is_thread, select,
  new_session, same_currency, with_initial_offer, with_round, finalized, replace_session,
  event_type,
}
use veri_proof_hackerton.Negotiation.View.Handler.{
  engine, concluded, conclude, after_first, after_second, after_round, negotiate_in, in_thread,
  with_offer, with_body, negotiate, event_payload,
}

abbrev pub is_some : Option Decimal → Bool
is_some none = false
is_some (some _) = true

abbrev pub has_address : Option String → Bool
has_address none = false
has_address (some _) = true

abbrev pub final_price : NegotiationSession → Option Decimal
final_price s = elim s.currency [ sol ↦ s.final_price_sol | usdc ↦ s.final_price_usdc ]

-- An accepted session has a final price in its own currency, and a payee.
abbrev pub IsFinalized : NegotiationSession → Type 0
IsFinalized s = elim s.status [
  | accepted ↦ (is_some (final_price s) ≡ true) × (has_address s.pay_address ≡ true)
  | _ ↦ Unit
]

All-replace_session :
    (s : NegotiationSession) (rows : List NegotiationSession)
    → IsFinalized s
    → All IsFinalized rows
    → All IsFinalized (replace_session s rows)
All-replace_session s [] h hs = tt
All-replace_session s (x ∷ rows) h hs =
    (if-both IsFinalized (x.id == s.id) s x h hs.0, All-replace_session s rows h hs.1)

concluded-IsFinalized :
    (env : Env) (e : Engine) (asset : IpAsset) (m offer : Decimal) (currency : Currency)
    (r : NegotiationResult) (s : NegotiationSession)
    → same_currency s.currency currency ≡ true
    → IsProtected e asset m offer currency r
    → IsFinalized s
    → IsFinalized (concluded env currency offer r s)
unfolding concluded with_round finalized
concluded-IsFinalized env e asset m offer currency r s same p h = ground arith

with_initial_offer-IsFinalized :
    (c : Currency) (offer : Decimal) (s : NegotiationSession)
    → IsFinalized s
    → IsFinalized (with_initial_offer c offer s)
unfolding with_initial_offer
with_initial_offer-IsFinalized sol offer s h = h
with_initial_offer-IsFinalized usdc offer s h = h

-- Every stored session satisfies the invariant.
abbrev pub IsSound : World → Type 0
IsSound w = All IsFinalized w.sessions

module _ (env : Env) (asset : IpAsset) (currency : Currency) (offer : Decimal) where
  IsSound-after :
      (r : NegotiationResult) (s : NegotiationSession) (type : String) (payload : Payload)
      (w : World)
      → IsSound w
      → IsSound
          (after_second currency r s w
            (record_event env type payload (some asset) (some s) no_context w)).1
  IsSound-after r s type payload w h =
      elim (Option-cases (record_event env type payload (some asset) (some s) no_context w)) [
        | inl raised ↦ subst (λ o. IsSound (after_second currency r s w o).1) (sym raised) h
        | inr (w', recorded) ↦
            subst (λ o. IsSound (after_second currency r s w o).1) (sym recorded)
              (subst (All IsFinalized)
                (sym
                  (record_event-SameRows env type payload (some asset) (some s) no_context w w'
                    recorded).sessions)
                h)
      ]

  conclude-IsSound :
      (e : Engine) (m : Decimal) (r : NegotiationResult) (s : NegotiationSession) (w : World)
      → same_currency s.currency currency ≡ true
      → IsProtected e asset m offer currency r
      → IsFinalized s
      → IsSound w
      → IsSound (conclude env asset currency offer r s w).1
  unfolding conclude
  conclude-IsSound e m r s w same p hs h =
      let saved : NegotiationSession = concluded env currency offer r s in
      let payload : Payload = event_payload asset saved currency offer r in
      let w' : World = record w { sessions = replace_session saved w.sessions } in
      let h' : IsSound w' =
        All-replace_session saved w.sessions
          (concluded-IsFinalized env e asset m offer currency r s same p hs) h in
      elim (Option-cases
        (record_event env "OFFER" payload (some asset) (some saved) no_context w')) [
          | inl raised ↦
              subst (λ o. IsSound (after_first env asset currency offer r saved w' o).1)
                (sym raised) h'
          | inr (w'', recorded) ↦
              subst (λ o. IsSound (after_first env asset currency offer r saved w' o).1)
                (sym recorded)
                (IsSound-after r saved (event_type r.status) payload w'' (
                  subst (All IsFinalized)
                    (sym
                      (record_event-SameRows env "OFFER" payload (some asset) (some saved)
                        no_context w' w'' recorded).sessions)
                    h'))
        ]

  after_round-IsSound :
      (e : Engine) (m : Decimal) (s : NegotiationSession) (w : World) (result : RoundResult)
      → same_currency s.currency currency ≡ true
      → Returned (IsProtected e asset m offer currency) result
      → IsFinalized s
      → IsSound w
      → IsSound (after_round env asset currency offer s w result).1
  after_round-IsSound e m s w not_configured same p hs h = h
  after_round-IsSound e m s w unavailable same p hs h = h
  after_round-IsSound e m s w (ok r) same p hs h = conclude-IsSound e m r s w same p hs h

currency-with_initial_offer :
    (c d : Currency) (offer : Decimal) (s : NegotiationSession)
    → same_currency s.currency c ≡ true
    → same_currency (with_initial_offer d offer s).currency c ≡ true
unfolding with_initial_offer
currency-with_initial_offer c sol offer s h = h
currency-with_initial_offer c usdc offer s h = h

module _ (env : Env) (gemini : Negotiate) (asset : IpAsset) (m t : Decimal)
    (hm : asset.min_amount ≡ some m) (ht : asset.target_amount ≡ some t) (ordered : m ≤ℤ t) where
  negotiate_in-IsSound :
      (usage : String) (c : Currency) (offer : Decimal) (s : NegotiationSession) (w : World)
      → IsFinalized s
      → IsSound w
      → IsSound (negotiate_in env gemini asset usage c offer s w).1
  unfolding negotiate_in
  negotiate_in-IsSound usage c offer s w hs h = elim (Bool-cases (same_currency s.currency c)) [
    | inl same ↦ simp same (
        after_round-IsSound env asset c offer (engine env gemini) m (with_initial_offer c offer s) w
          (run_round (engine env gemini) asset (with_initial_offer c offer s) offer usage c)
          (currency-with_initial_offer c c offer s same)
          (run_round-IsProtected (engine env gemini) asset (with_initial_offer c offer s) offer
            usage c m t hm ht ordered)
          (with_initial_offer-IsFinalized c offer s hs) h)
    | inr other ↦ simp other h
  ]

  in_thread-IsSound :
      (buyer usage : String) (c : Currency) (offer : Decimal) (w : World)
      (threads : List NegotiationSession)
      → All IsFinalized threads
      → IsSound w
      → IsSound (in_thread env gemini asset buyer usage c offer w threads).1
  unfolding new_session
  in_thread-IsSound buyer usage c offer w [] ht' h =
      let fresh : NegotiationSession = new_session env asset buyer usage c offer w.draws in
      negotiate_in-IsSound usage c offer fresh
        (record w { sessions = w.sessions ++ fresh ∷ []; draws = suc w.draws }) tt
        (All-append IsFinalized w.sessions (fresh ∷ []) h (tt, tt))
  in_thread-IsSound buyer usage c offer w (s ∷ []) hs h =
      negotiate_in-IsSound usage c offer s w hs.0 h
  in_thread-IsSound buyer usage c offer w (s ∷ s' ∷ rest) hs h = h

All-select :
    (p : NegotiationSession → Bool) (rows : List NegotiationSession)
    → All IsFinalized rows
    → All IsFinalized (select p rows)
All-select p [] h = tt
All-select p (s ∷ rows) h =
    if-both (All IsFinalized) (p s) (s ∷ select p rows) (select p rows) (h.0, All-select p rows h.1)
      (All-select p rows h.1)

pub configured_prices :
    (asset : IpAsset)
    → amount_not_configured asset ≡ false
    → (m : Decimal) × (t : Decimal) × (asset.min_amount ≡ some m)
      × (asset.target_amount ≡ some t)
      × (m ≤ℤ t)
unfolding amount_not_configured
configured_prices asset h = go asset.min_amount asset.target_amount h
  where
    go :
        (low high : Option Decimal)
        → lacks_prices low high ≡ false
        → (m : Decimal) × (t : Decimal) × (low ≡ some m) × (high ≡ some t) × (m ≤ℤ t)
    go none high h = cc
    go (some m) none h = cc
    go (some m) (some t) h = (m, t, refl, refl, ground arith)

module _ (env : Env) (gemini : Negotiate) (asset : IpAsset) where
  with_offer-IsSound :
      (usage : Option String) (buyer : String) (w : World) (offer : Currency × Option Decimal)
      → IsSound w
      → IsSound (with_offer env gemini asset usage buyer w offer).1
  with_offer-IsSound usage buyer w (c, none) h = h
  with_offer-IsSound usage buyer w (c, some offer) h =
      if-both (λ (x : Response × World). IsSound x.1) (leb_ℤ offer (pos 0)) _ _ h
        (elim (Bool-cases (amount_not_configured asset)) [
          | inl lacking ↦ simp lacking h
          | inr configured ↦
              let (m, t, hm, ht, ordered) = configured_prices asset configured in
              simp configured (
                if-both (λ (x : Response × World). IsSound x.1) (not (is_allowed_usage usage)) _ _ h
                  (if-both (λ (x : Response × World). IsSound x.1) (buyer == "") _ _ h
                    (in_thread-IsSound env gemini asset m t hm ht ordered buyer
                      (text_or_empty usage) c offer w (select (is_thread asset.id buyer) w.sessions)
                      (All-select (is_thread asset.id buyer) w.sessions h) h)))
        ])

  with_body-IsSound :
      (parse : ParseDecimal) (body : Body) (w : World)
      → IsSound w
      → IsSound (with_body env parse gemini body w (some asset)).1
  with_body-IsSound parse malformed w h = h
  with_body-IsSound parse not_object w h = h
  with_body-IsSound parse (object fields) w h =
      with_offer-IsSound fields.usage_type (env.strip (text_or_empty fields.buyer_agent_id)) w
        (negotiation_offer parse fields) h

-- Whatever the request, the model's answer and the recorder do: if every accepted session has a
-- final price in its own currency and a payee, then so it is after the request, also one that is
-- refused or that crashes half-way.
pub negotiate-IsSound :
    (env : Env) (parse : ParseDecimal) (gemini : Negotiate) (request : Request) (w : World)
    → IsSound w
    → IsSound (negotiate env parse gemini request w).1
unfolding negotiate
negotiate-IsSound env parse gemini request w h =
    if-both (λ (x : Response × World). IsSound x.1) (not request.is_post) _ _ h
      (found (asset_by_id request.asset_id w))
  where
    found : (asset : Option IpAsset) → IsSound (with_body env parse gemini request.body w asset).1
    found none = h
    found (some asset) = with_body-IsSound env gemini asset parse request.body w h
