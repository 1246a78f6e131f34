-- ===== src/Buyer/Bargain/Memory.antt =====
-- `_resolve_session_id` of agents/buyer_agent/tools.py, and what it finds after an answer to an offer.
use veri_proof_hackerton.Prelude.{
  String, true, false, Option, none, some, [], ◌∷◌, ◌≡◌, refl, ◌==◌, if◌then◌else◌, ◌||◌, arith,
  eq_iff,
}
use veri_proof_hackerton.Json.{Json, as_text}
use veri_proof_hackerton.Buyer.Bargain.{
  Seller, Sessions, session_for, put_session, drop_session, status_is, field_of,
  remember_accepted_session, clear_accepted_session, keep_session,
}

pub session_for-put_session :
    (id session : String) (sessions : Sessions)
    → session_for id (put_session id session sessions) ≡ some session
session_for-put_session id session [] = ground (arith, eq_iff id id)
session_for-put_session id session ((k, v) ∷ rest) =
    ground (arith, eq_iff k id, session_for-put_session id session rest)

pub session_for-drop_session :
    (id : String) (sessions : Sessions) → session_for id (drop_session id sessions) ≡ none
session_for-drop_session id [] = refl
session_for-drop_session id ((k, v) ∷ rest) =
    ground (arith, eq_iff k id, session_for-drop_session id rest)

module _ {S Offer : Type 0} (seller : Seller S Offer) where
  abbrev normalized : Option String → String
  normalized none = ""
  normalized (some stored) = elim (seller.parse_uuid stored) [ none ↦ "" | some id ↦ id ]

  abbrev remembered_for : Option String → Sessions → Option String
  remembered_for none sessions = none
  remembered_for (some id) sessions = some (normalized (session_for id sessions))

  -- `none` is a ValueError; an empty text is no session.
  unfoldable resolve_session_id : String → String → Sessions → Option String
  resolve_session_id asset_id session_id sessions =
      if session_id == ""
      then remembered_for (seller.parse_uuid asset_id) sessions
      else seller.parse_uuid session_id

  -- After an acceptance that names a session, both ids being UUIDs, that session is used where none is
  -- named.
  resolve_session_id-accepted :
      (asset_id id session accepted : String) (body : Json) (sessions : Sessions)
      → seller.parse_uuid asset_id ≡ some id
      → as_text (field_of "session_id" body) ≡ some session
      → seller.parse_uuid session ≡ some accepted
      → seller.parse_uuid accepted ≡ some accepted
      → status_is "ACCEPT" body ≡ true
      → resolve_session_id asset_id "" (keep_session seller asset_id body sessions) ≡ some accepted
  unfolding resolve_session_id keep_session remember_accepted_session
  resolve_session_id-accepted asset_id id session accepted body sessions e f g h accept =
      rw (accept, e, f, g, session_for-put_session id accepted sessions, normalized, h)

  -- After a counter offer or a rejection for an asset id that is a UUID, no session is used where none
  -- is named.
  resolve_session_id-refused :
      (asset_id id : String) (body : Json) (sessions : Sessions)
      → seller.parse_uuid asset_id ≡ some id
      → status_is "ACCEPT" body ≡ false
      → (status_is "COUNTER_OFFER" body || status_is "REJECT" body) ≡ true
      → resolve_session_id asset_id "" (keep_session seller asset_id body sessions) ≡ some ""
  unfolding resolve_session_id keep_session clear_accepted_session
  resolve_session_id-refused asset_id id body sessions e other refused =
      rw (other, refused, e, session_for-drop_session id sessions)
