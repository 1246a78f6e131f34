-- ===== src/Buyer/Bargain.antt =====
-- agents/buyer_agent/tools.py: the sessions that a buyer remembers, and
-- `negotiate_usdc_with_list_price_fallback`. HTTP, floats and the parsing of prices are parameters.
pub mod Bounded
pub mod Memory
pub mod Published
pub mod Recalled
use veri_proof_hackerton.Prelude.{
  ℕ, ◌*◌, ◌^◌, ◌%◌, ◌/◌, String, Bool, true, false, not, Option, none, some, List, [], ◌∷◌, ◌++◌,
  ◌==◌, ◌&&◌, ◌||◌, if◌then◌else◌, ltb, nat_eq, ℤ, pos, negsuc,
}
use veri_proof_hackerton.Json.{
  Json, Fields, null, bool, number, text, array, object, get, lookup, is_text, as_text, as_list,
  as_object, only_objects,
}

-- `httpx.Response`: its status and what `_response_body` makes of it.
pub record Reply : Type 0 where
  pub http_status : ℕ
  pub body : Json

-- The server as the buyer sees it, in a state of its own: the answer to an offer for an asset
-- (`none` is an exception of httpx), and the decoded PAYMENT-REQUIRED header of the unnegotiated
-- asset, where the answer is a 402 that has one. `float_of` is `float(Decimal(str(value)))`, `none`
-- where this raises, or httpx does as it writes the number; `atomic_of` is `Decimal(str(value))` in
-- units of 10^-18; `float_of_micro` is the float of so many micro USDC.
pub record Seller (S Offer : Type 0) : Type 0 where
  pub post_offer : String → Offer → S → Option (Reply × S)
  pub get_terms : String → S → Option (Option Json × S)
  pub float_of : Json → Option Offer
  pub atomic_of : Json → Option ℤ
  pub float_of_micro : ℕ → Offer
  pub parse_uuid : String → Option String
  pub usdc_mint_address : String

-- `tool_context.state[_ACCEPTED_SESSION_STATE_KEY]`
abbrev pub Sessions : Type 0
Sessions = List (String × String)

abbrev pub session_for : String → Sessions → Option String
session_for id [] = none
session_for id ((k, v) ∷ rest) = if k == id then some v else session_for id rest

abbrev pub put_session : String → String → Sessions → Sessions
put_session id session [] = (id, session) ∷ []
put_session id session ((k, v) ∷ rest) =
    if k == id then (k, session) ∷ rest else (k, v) ∷ put_session id session rest

abbrev pub drop_session : String → Sessions → Sessions
drop_session id [] = []
drop_session id ((k, v) ∷ rest) =
    if k == id then drop_session id rest else (k, v) ∷ drop_session id rest

abbrev pub status_is : String → Json → Bool
status_is status body = elim (as_object body) [
  | none ↦ false
  | some fields ↦ is_text status (get "status" fields)
]

-- `body.get(key)` of an object
abbrev pub field_of : String → Json → Json
field_of key body = elim (as_object body) [ none ↦ null | some fields ↦ get key fields ]

-- What an offer was, and what came back.
pub record Attempt (Offer : Type 0) : Type 0 where
  pub offer : Offer
  pub reply : Reply

pub data FallbackError : Type 0 where
  no_error seller_counter_price_invalid published_usdc_list_price_unavailable : FallbackError

-- The returned dictionary: the last answer, the attempts, and `fallback_error`.
pub record Bargained (Offer : Type 0) : Type 0 where
  pub reply : Reply
  pub attempts : List (Attempt Offer)
  pub fallback_error : FallbackError

module _ {S Offer : Type 0} (seller : Seller S Offer) where
  abbrev remembered : Option String → Option String → Sessions → Sessions
  remembered (some asset_id) (some session_id) sessions = put_session asset_id session_id sessions
  remembered none session_id sessions = sessions
  remembered (some asset_id) none sessions = sessions

  abbrev parsed_session : Option String → Option String
  parsed_session none = none
  parsed_session (some t) = seller.parse_uuid t

  -- `_remember_accepted_session`
  unfoldable pub remember_accepted_session : String → Json → Sessions → Sessions
  unfolding remembered parsed_session
  remember_accepted_session asset_id body sessions =
      if status_is "ACCEPT" body
      then remembered (seller.parse_uuid asset_id)
          (parsed_session (as_text (field_of "session_id" body))) sessions
      else sessions

  abbrev cleared : Option String → Sessions → Sessions
  cleared none sessions = sessions
  cleared (some asset_id) sessions = drop_session asset_id sessions

  -- `_clear_accepted_session`
  unfoldable pub clear_accepted_session : String → Sessions → Sessions
  unfolding cleared
  clear_accepted_session asset_id = cleared (seller.parse_uuid asset_id)

  -- What `negotiate_usdc_license` does with an answer.
  unfoldable pub keep_session : String → Json → Sessions → Sessions
  unfolding remember_accepted_session clear_accepted_session
  keep_session asset_id body sessions =
      if status_is "ACCEPT" body
      then remember_accepted_session asset_id body sessions
      else if status_is "COUNTER_OFFER" body || status_is "REJECT" body
      then clear_accepted_session asset_id sessions
      else sessions

  abbrev pub answered : String → Sessions → Option (Reply × S) → Option (Reply × Sessions × S)
  answered asset_id sessions none = none
  answered asset_id sessions (some (reply, s)) =
      some (reply, keep_session asset_id reply.body sessions, s)

  abbrev pub offered : String → Offer → Sessions → S → Option String → Option (Reply × Sessions × S)
  offered asset_id offer sessions s none = none
  offered asset_id offer sessions s (some id) =
      answered asset_id sessions (seller.post_offer id offer s)

  -- `negotiate_usdc_license`: `none` is an exception, of a malformed id or of httpx.
  unfoldable pub negotiate_usdc_license :
      String → Offer → Sessions → S → Option (Reply × Sessions × S)
  negotiate_usdc_license asset_id offer sessions s =
      offered asset_id offer sessions s (seller.parse_uuid asset_id)

  abbrev pub whole_micro : Option ℤ → Option ℕ
  whole_micro none = none
  whole_micro (some (pos n)) =
      if ltb 0 n && nat_eq (n % 10 ^ 18) 0 then some (n / 10 ^ 18) else none
  whole_micro (some (negsuc n)) = none

  abbrev pub amount_in : Option Json → Option ℕ
  amount_in none = none
  amount_in (some amount) = whole_micro (seller.atomic_of amount)

  abbrev pub or_first : Option ℕ → Option ℕ → Option ℕ
  or_first (some n) rest = some n
  or_first none rest = rest

  -- The first requirement in the expected token with a positive amount of whole micro USDC.
  unfoldable pub first_amount : List Fields → Option ℕ
  unfolding amount_in whole_micro or_first
  first_amount [] = none
  first_amount (requirement ∷ rest) =
      let later = first_amount rest in
      if is_text seller.usdc_mint_address (get "asset" requirement)
      then or_first (amount_in (lookup "amount" requirement)) later
      else later

  abbrev pub requirements_of : Option Json → List Fields
  requirements_of none = []
  requirements_of (some terms) = elim (as_list (field_of "accepts" terms)) [
    | none ↦ []
    | some xs ↦ only_objects xs
  ]

  -- `_published_usdc_list_price`; `none` is an exception.
  unfoldable pub published_usdc_list_price : String → S → Option (Option ℕ × S)
  unfolding requirements_of
  published_usdc_list_price asset_id s = elim (seller.parse_uuid asset_id) [
    | none ↦ none
    | some id ↦ elim (seller.get_terms id s) [
      | none ↦ none
      | some (terms, s') ↦ some (first_amount (requirements_of terms), s')
    ]
  ]

  abbrev pub End : Type 0
  End = Option (Bargained Offer × Sessions × S)

  abbrev pub ended : Reply → List (Attempt Offer) → FallbackError → Sessions → S → End
  ended reply attempts fault sessions s =
      some (record { reply = reply; attempts = attempts; fallback_error = fault }, sessions, s)

  abbrev pub with_attempt : List (Attempt Offer) → Offer → Reply → List (Attempt Offer)
  with_attempt attempts offer reply = attempts ++ record { offer = offer; reply = reply } ∷ []

  abbrev pub listed : List (Attempt Offer) → Offer → Option (Reply × Sessions × S) → End
  listed attempts offer none = none
  listed attempts offer (some (reply, sessions, s)) =
      ended reply (with_attempt attempts offer reply) no_error sessions s

  abbrev pub at_list_price :
      String → Reply → List (Attempt Offer) → Sessions → Option (Option ℕ × S) → End
  at_list_price asset_id reply attempts sessions none = none
  at_list_price asset_id reply attempts sessions (some (none, s)) =
      ended reply attempts published_usdc_list_price_unavailable sessions s
  at_list_price asset_id reply attempts sessions (some (some micro, s)) =
      let offer = seller.float_of_micro micro in
      listed attempts offer (negotiate_usdc_license asset_id offer sessions s)

  -- After the opening and a possible counter offer.
  abbrev pub or_list_price : String → Reply → List (Attempt Offer) → Sessions → S → End
  or_list_price asset_id reply attempts sessions s =
      if status_is "REJECT" reply.body
      then at_list_price asset_id reply attempts sessions (published_usdc_list_price asset_id s)
      else ended reply attempts no_error sessions s

  abbrev pub after_counter :
      String → List (Attempt Offer) → Offer → Option (Reply × Sessions × S) → End
  after_counter asset_id attempts offer none = none
  after_counter asset_id attempts offer (some (reply, sessions, s)) =
      or_list_price asset_id reply (with_attempt attempts offer reply) sessions s

  abbrev pub at_counter : String → Reply → List (Attempt Offer) → Sessions → S → Option Offer → End
  at_counter asset_id reply attempts sessions s none =
      ended reply attempts seller_counter_price_invalid sessions s
  at_counter asset_id reply attempts sessions s (some offer) =
      after_counter asset_id attempts offer (negotiate_usdc_license asset_id offer sessions s)

  abbrev pub after_opening : String → Offer → Option (Reply × Sessions × S) → End
  after_opening asset_id offer none = none
  after_opening asset_id offer (some (reply, sessions, s)) =
      if status_is "COUNTER_OFFER" reply.body
      then at_counter asset_id reply (with_attempt [] offer reply) sessions s
          (seller.float_of (field_of "price_usdc" reply.body))
      else or_list_price asset_id reply (with_attempt [] offer reply) sessions s

  -- `negotiate_usdc_with_list_price_fallback`
  unfoldable pub negotiate_usdc_with_list_price_fallback : String → Offer → Sessions → S → End
  negotiate_usdc_with_list_price_fallback asset_id opening sessions s =
      after_opening asset_id opening (negotiate_usdc_license asset_id opening sessions s)
