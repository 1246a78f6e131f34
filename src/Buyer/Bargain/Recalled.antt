-- ===== src/Buyer/Bargain/Recalled.antt =====
-- The offers that `negotiate_usdc_with_list_price_fallback` of agents/buyer_agent/tools.py makes, and
-- what it remembers after the last answer.
use veri_proof_hackerton.Prelude.{
  ◌≤◌, String, true, false, Option, none, some, List, [], ◌∷◌, ◌≡◌, refl, sym, ap, ◌∙◌, ◌⊎◌, inl,
  inr, ◌||◌, length, Bool-cases,
}
use mathlib.Core.Path.{subst}
use mathlib.Core.Option.{some-injective}
use veri_proof_hackerton.Json.{Json, as_text}
use veri_proof_hackerton.Buyer.Bargain.{
  Reply, Seller, Sessions, session_for, status_is, field_of, Attempt, Bargained, keep_session,
  remember_accepted_session, clear_accepted_session, End, negotiate_usdc_with_list_price_fallback,
}
use veri_proof_hackerton.Buyer.Bargain.Memory.{session_for-put_session, session_for-drop_session}
use veri_proof_hackerton.Buyer.Bargain.Bounded.{
  Offers, Bargains, memory, last_reply, fallback-Bargains,
}

module _ {S Offer : Type 0} (seller : Seller S Offer) where
  -- An accepted answer names a session, which is remembered, or names none that can be read.
  abbrev pub IsAccepted : String → Json → Sessions → Type 0
  IsAccepted id body sessions =
      (as_text (field_of "session_id" body) ≡ none)
      ⊎ ((named : String) × (as_text (field_of "session_id" body) ≡ some named)
          × ((seller.parse_uuid named ≡ none)
              ⊎ ((session : String) × (seller.parse_uuid named ≡ some session)
                  × (session_for id sessions ≡ some session))))

  -- What is remembered for an asset after the last answer: the session of an acceptance, and none
  -- after a counter offer or a rejection.
  abbrev pub Recalls : String → Json → Sessions → Type 0
  Recalls id body sessions =
      ((status_is "ACCEPT" body ≡ true) × IsAccepted id body sessions)
      ⊎ (((status_is "COUNTER_OFFER" body ≡ true) ⊎ (status_is "REJECT" body ≡ true))
          × (session_for id sessions ≡ none))
      ⊎ ((status_is "ACCEPT" body ≡ false)
          × (status_is "COUNTER_OFFER" body ≡ false)
          × (status_is "REJECT" body ≡ false))

  pub record IsBargained (asset_id id : String) (opening : Offer) (b : Bargained Offer)
      (sessions' : Sessions) : Type 0 where
    pub offers : Offers seller asset_id opening b.attempts
    pub short : length b.attempts ≤ 3
    pub last : last_reply seller b.attempts ≡ some b.reply
    pub recalled : Recalls id b.reply.body sessions'

  -- Without an exception the call has ended in such a result.
  abbrev pub EndsBargained : String → String → Offer → End seller → Type 0
  EndsBargained asset_id id opening none = Unit
  EndsBargained asset_id id opening (some (b, sessions', s)) =
      IsBargained asset_id id opening b sessions'

  module _ (asset_id id : String) (parsed : seller.parse_uuid asset_id ≡ some id) where
    named-IsAccepted :
        (body : Json) (sessions : Sessions) (named : Option String)
        → status_is "ACCEPT" body ≡ true
        → as_text (field_of "session_id" body) ≡ named
        → IsAccepted id body (keep_session seller asset_id body sessions)
    unfolding keep_session remember_accepted_session
    named-IsAccepted body sessions none accept e = inl e
    named-IsAccepted body sessions (some named) accept e =
        inr (named, e, read (seller.parse_uuid named) refl)
      where
        read :
            (session : Option String)
            → seller.parse_uuid named ≡ session
            → (seller.parse_uuid named ≡ none)
              ⊎ ((k : String) × (seller.parse_uuid named ≡ some k)
                  × (session_for id (keep_session seller asset_id body sessions) ≡ some k))
        read none f = inl f
        read (some k) f =
            inr (k, f, rw (accept, parsed, e, f, session_for-put_session id k sessions) refl)

    keep_session-Recalls :
        (body : Json) (sessions : Sessions)
        → Recalls id body (keep_session seller asset_id body sessions)
    unfolding keep_session clear_accepted_session
    keep_session-Recalls body sessions = elim (Bool-cases (status_is "ACCEPT" body)) [
      | inl e ↦ inl (e, named-IsAccepted body sessions _ e refl)
      | inr e ↦ inr (elim (Bool-cases (status_is "COUNTER_OFFER" body)) [
        | inl f ↦ inl (inl f, dropped e (ap (λ b. b || status_is "REJECT" body) f))
        | inr f ↦ elim (Bool-cases (status_is "REJECT" body)) [
          | inl g ↦ inl (inr g, dropped e (ap (λ b. b || status_is "REJECT" body) f ∙ g))
          | inr g ↦ inr (e, f, g)
        ]
      ])
    ]
      where
        dropped :
            status_is "ACCEPT" body ≡ false
            → (status_is "COUNTER_OFFER" body || status_is "REJECT" body) ≡ true
            → session_for id (keep_session seller asset_id body sessions) ≡ none
        dropped other refused =
            rw (other, refused, parsed, session_for-drop_session id sessions) refl

    memory-Recalls :
        (attempts : List (Attempt Offer)) (sessions : Sessions) (reply : Reply)
        → last_reply seller attempts ≡ some reply
        → Recalls id reply.body (memory seller asset_id attempts sessions)
    memory-Recalls [] sessions reply e = absurd cc
    memory-Recalls (a ∷ []) sessions reply e =
        subst (λ (r : Reply). Recalls id r.body (memory seller asset_id (a ∷ []) sessions))
          (some-injective _ _ e) (keep_session-Recalls a.reply.body sessions)
    memory-Recalls (a ∷ b ∷ rest) sessions reply e =
        memory-Recalls (b ∷ rest) (keep_session seller asset_id a.reply.body sessions) reply e

  -- Bargaining for a license of an asset whose id is a UUID ends after at most three offers: the
  -- opening, then the price of a counter offer, then, after a rejection, a price that the seller has
  -- published for the asset, in whole micro units of the expected token. The answer that is returned
  -- is the last. After an acceptance the session that it names is remembered for the asset; after a
  -- counter offer or a rejection none is.
  pub fallback-EndsBargained :
      (asset_id id : String) (opening : Offer) (sessions : Sessions) (s : S)
      → seller.parse_uuid asset_id ≡ some id
      → EndsBargained asset_id id opening
          (negotiate_usdc_with_list_price_fallback seller asset_id opening sessions s)
  fallback-EndsBargained asset_id id opening sessions s parsed =
      ends _ (fallback-Bargains seller asset_id opening sessions s)
    where
      ends :
          (o : End seller)
          → Bargains seller asset_id opening sessions o
          → EndsBargained asset_id id opening o
      ends none h = tt
      ends (some (b, sessions', s')) h = record {
        offers = h.offers;
        short = h.short;
        last = h.last;
        recalled =
            subst (Recalls id b.reply.body) (sym h.kept)
              (memory-Recalls asset_id id parsed b.attempts sessions b.reply h.last);
      }
