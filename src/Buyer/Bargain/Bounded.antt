-- ===== src/Buyer/Bargain/Bounded.antt =====
-- The offers that `negotiate_usdc_with_list_price_fallback` of agents/buyer_agent/tools.py makes, and
-- the sessions that it leaves.
use veri_proof_hackerton.Prelude.{
  ℕ, ◌≤◌, String, true, Option, none, some, List, [], ◌∷◌, ◌≡◌, refl, ◌∙◌, ap, if-split, length,
  arith,
}
use veri_proof_hackerton.Buyer.Bargain.{
  Reply, Seller, Sessions, status_is, field_of, Attempt, FallbackError, Bargained, keep_session,
  answered, offered, negotiate_usdc_license, End, listed, at_list_price, or_list_price,
  after_counter, at_counter, after_opening, negotiate_usdc_with_list_price_fallback,
  published_usdc_list_price,
}
use veri_proof_hackerton.Buyer.Bargain.Published.{
  IsPublished, published_usdc_list_price-IsPublished,
}

module _ {S Offer : Type 0} (seller : Seller S Offer) where
  abbrev attempt_of : Offer → Reply → Attempt Offer
  attempt_of offer reply = record { offer = offer; reply = reply }

  -- The offers that may be made after the opening: the seller's counter price, and the published
  -- price after a rejection.
  pub data Offers (asset_id : String) (opening : Offer) : List (Attempt Offer) → Type 0 where
    opened : (r : Reply) → Offers asset_id opening (attempt_of opening r ∷ [])
    countered :
        (r r' : Reply) (counter : Offer)
        → status_is "COUNTER_OFFER" r.body ≡ true
        → seller.float_of (field_of "price_usdc" r.body) ≡ some counter
        → Offers asset_id opening (attempt_of opening r ∷ attempt_of counter r' ∷ [])
    rejected :
        (r r' : Reply) (micro : ℕ)
        → status_is "REJECT" r.body ≡ true
        → IsPublished seller asset_id micro
        → Offers asset_id opening
            (attempt_of opening r ∷ attempt_of (seller.float_of_micro micro) r' ∷ [])
    countered_rejected :
        (r r' r'' : Reply) (counter : Offer) (micro : ℕ)
        → status_is "COUNTER_OFFER" r.body ≡ true
        → seller.float_of (field_of "price_usdc" r.body) ≡ some counter
        → status_is "REJECT" r'.body ≡ true
        → IsPublished seller asset_id micro
        → Offers asset_id opening (
            attempt_of opening r
            ∷ attempt_of counter r'
            ∷ attempt_of (seller.float_of_micro micro) r''
            ∷ [])

  -- The memory after the answers of all attempts, and the last answer.
  abbrev pub memory : String → List (Attempt Offer) → Sessions → Sessions
  memory asset_id [] sessions = sessions
  memory asset_id (a ∷ rest) sessions =
      memory asset_id rest (keep_session seller asset_id a.reply.body sessions)

  abbrev pub last_reply : List (Attempt Offer) → Option Reply
  last_reply [] = none
  last_reply (a ∷ []) = some a.reply
  last_reply (a ∷ b ∷ rest) = last_reply (b ∷ rest)

  pub record IsBargain (asset_id : String) (opening : Offer) (sessions : Sessions)
      (b : Bargained Offer) (sessions' : Sessions) : Type 0 where
    pub offers : Offers asset_id opening b.attempts
    pub short : length b.attempts ≤ 3
    pub last : last_reply b.attempts ≡ some b.reply
    pub kept : sessions' ≡ memory asset_id b.attempts sessions

  -- Without an exception the call has ended in such a result.
  abbrev pub Bargains : String → Offer → Sessions → End seller → Type 0
  Bargains asset_id opening sessions none = Unit
  Bargains asset_id opening sessions (some (b, sessions', s)) =
      IsBargain asset_id opening sessions b sessions'

  module _ (asset_id : String) (opening : Offer) (sessions : Sessions) where
    -- The tables after an offer are those that its answer leads to.
    abbrev Kept : Sessions → Option (Reply × Sessions × S) → Type 0
    Kept before none = Unit
    Kept before (some (reply, after, s)) = after ≡ keep_session seller asset_id reply.body before

    answered-Kept :
        (before : Sessions) (answer : Option (Reply × S))
        → Kept before (answered seller asset_id before answer)
    answered-Kept before none = tt
    answered-Kept before (some (reply, s)) = refl

    offered-Kept :
        (before : Sessions) (id : Option String) (offer : Offer) (s : S)
        → Kept before (offered seller asset_id offer before s id)
    offered-Kept before none offer s = tt
    offered-Kept before (some id) offer s = answered-Kept before (seller.post_offer id offer s)

    negotiate-Kept :
        (offer : Offer) (before : Sessions) (s : S)
        → Kept before (negotiate_usdc_license seller asset_id offer before s)
    unfolding negotiate_usdc_license
    negotiate-Kept offer before s = offered-Kept before (seller.parse_uuid asset_id) offer s

    listed_first :
        (r : Reply) (before : Sessions) (micro : ℕ) (answer : Option (Reply × Sessions × S))
        → status_is "REJECT" r.body ≡ true
        → IsPublished seller asset_id micro
        → before ≡ memory asset_id (attempt_of opening r ∷ []) sessions
        → Kept before answer
        → Bargains asset_id opening sessions
            (listed seller (attempt_of opening r ∷ []) (seller.float_of_micro micro) answer)
    listed_first r before micro none rejection price e kept = tt
    listed_first r before micro (some (reply, after, s)) rejection price e kept = record {
      offers = rejected r reply micro rejection price;
      short = omega arith;
      last = refl;
      kept = kept ∙ ap (keep_session seller asset_id reply.body) e;
    }

    at_list_price_first :
        (r : Reply) (before : Sessions) (s₀ : S) (price : Option (Option ℕ × S))
        → published_usdc_list_price seller asset_id s₀ ≡ price
        → status_is "REJECT" r.body ≡ true
        → before ≡ memory asset_id (attempt_of opening r ∷ []) sessions
        → Bargains asset_id opening sessions
            (at_list_price seller asset_id r (attempt_of opening r ∷ []) before price)
    at_list_price_first r before s₀ none read rejection e = tt
    at_list_price_first r before s₀ (some (none, s)) read rejection e = record {
      offers = opened r;
      short = omega arith;
      last = refl;
      kept = e;
    }
    at_list_price_first r before s₀ (some (some micro, s)) read rejection e =
        listed_first r before micro _ rejection
          (published_usdc_list_price-IsPublished seller asset_id s₀ micro s read) e
          (negotiate-Kept _ before s)

    or_list_price_first :
        (r : Reply) (before : Sessions) (s : S)
        → before ≡ memory asset_id (attempt_of opening r ∷ []) sessions
        → Bargains asset_id opening sessions
            (or_list_price seller asset_id r (attempt_of opening r ∷ []) before s)
    or_list_price_first r before s e =
        if-split (Bargains asset_id opening sessions) (status_is "REJECT" r.body) _ _
          (λ rejection. at_list_price_first r before s _ refl rejection e)
          (λ _. record { offers = opened r; short = omega arith; last = refl; kept = e })

    module _ (r : Reply) (counter : Offer) (is_counter : status_is "COUNTER_OFFER" r.body ≡ true)
        (price : seller.float_of (field_of "price_usdc" r.body) ≡ some counter) where
      abbrev two : Reply → List (Attempt Offer)
      two r' = attempt_of opening r ∷ attempt_of counter r' ∷ []

      listed_later :
          (r' : Reply) (before : Sessions) (micro : ℕ) (answer : Option (Reply × Sessions × S))
          → status_is "REJECT" r'.body ≡ true
          → IsPublished seller asset_id micro
          → before ≡ memory asset_id (two r') sessions
          → Kept before answer
          → Bargains asset_id opening sessions
              (listed seller (two r') (seller.float_of_micro micro) answer)
      listed_later r' before micro none rejection published e kept = tt
      listed_later r' before micro (some (reply, after, s)) rejection published e kept = record {
        offers = countered_rejected r r' reply counter micro is_counter price rejection published;
        short = omega arith;
        last = refl;
        kept = kept ∙ ap (keep_session seller asset_id reply.body) e;
      }

      counter_IsBargain :
          (r' : Reply) (before : Sessions) (fault : FallbackError)
          → before ≡ memory asset_id (two r') sessions
          → IsBargain asset_id opening sessions
              (record { reply = r'; attempts = two r'; fallback_error = fault })
              before
      counter_IsBargain r' before fault e = record {
        offers = countered r r' counter is_counter price;
        short = omega arith;
        last = refl;
        kept = e;
      }

      at_list_price_later :
          (r' : Reply) (before : Sessions) (s₀ : S) (found : Option (Option ℕ × S))
          → published_usdc_list_price seller asset_id s₀ ≡ found
          → status_is "REJECT" r'.body ≡ true
          → before ≡ memory asset_id (two r') sessions
          → Bargains asset_id opening sessions
              (at_list_price seller asset_id r' (two r') before found)
      at_list_price_later r' before s₀ none read rejection e = tt
      at_list_price_later r' before s₀ (some (none, s)) read rejection e =
          counter_IsBargain r' before _ e
      at_list_price_later r' before s₀ (some (some micro, s)) read rejection e =
          listed_later r' before micro _ rejection
            (published_usdc_list_price-IsPublished seller asset_id s₀ micro s read) e
            (negotiate-Kept _ before s)

      after_counter-Bargains :
          (before : Sessions) (answer : Option (Reply × Sessions × S))
          → before ≡ memory asset_id (attempt_of opening r ∷ []) sessions
          → Kept before answer
          → Bargains asset_id opening sessions
              (after_counter seller asset_id (attempt_of opening r ∷ []) counter answer)
      after_counter-Bargains before none e kept = tt
      after_counter-Bargains before (some (r', after, s)) e kept =
          let whole : after ≡ memory asset_id (two r') sessions =
            kept ∙ ap (keep_session seller asset_id r'.body) e in
          if-split (Bargains asset_id opening sessions) (status_is "REJECT" r'.body) _ _
            (λ rejection. at_list_price_later r' after s _ refl rejection whole)
            (λ _. counter_IsBargain r' after _ whole)

    at_counter-Bargains :
        (r : Reply) (before : Sessions) (s : S) (price : Option Offer)
        → status_is "COUNTER_OFFER" r.body ≡ true
        → seller.float_of (field_of "price_usdc" r.body) ≡ price
        → before ≡ memory asset_id (attempt_of opening r ∷ []) sessions
        → Bargains asset_id opening sessions
            (at_counter seller asset_id r (attempt_of opening r ∷ []) before s price)
    at_counter-Bargains r before s none is_counter price e = record {
      offers = opened r;
      short = omega arith;
      last = refl;
      kept = e;
    }
    at_counter-Bargains r before s (some counter) is_counter price e =
        after_counter-Bargains r counter is_counter price before _ e
          (negotiate-Kept counter before s)

    after_opening-Bargains :
        (answer : Option (Reply × Sessions × S))
        → Kept sessions answer
        → Bargains asset_id opening sessions (after_opening seller asset_id opening answer)
    after_opening-Bargains none kept = tt
    after_opening-Bargains (some (r, before, s)) kept =
        if-split (Bargains asset_id opening sessions) (status_is "COUNTER_OFFER" r.body) _ _
          (λ is_counter. at_counter-Bargains r before s _ is_counter refl kept)
          (λ _. or_list_price_first r before s kept)

  -- Every end of the bargaining, with the tables as the answers leave them.
  pub fallback-Bargains :
      (asset_id : String) (opening : Offer) (sessions : Sessions) (s : S)
      → Bargains asset_id opening sessions
          (negotiate_usdc_with_list_price_fallback seller asset_id opening sessions s)
  unfolding negotiate_usdc_with_list_price_fallback
  fallback-Bargains asset_id opening sessions s =
      after_opening-Bargains asset_id opening sessions _
        (negotiate-Kept asset_id opening sessions opening sessions s)
