-- ===== src/Web.antt =====
-- What the endpoints of veriproof/apps/settlement/views_api.py share: a request, a reply, and what
-- they take from Django and Python's library.
pub mod Settle
pub mod Webhook
pub mod Download
pub mod Delivery
pub mod Batches
use veri_proof_hackerton.Prelude.{
  ℕ, String, Bool, true, false, not, Option, none, some, ◌⊎◌, inl, inr, ◌==◌, if◌then◌else◌, find,
  ◌&&◌, List,
}
use veri_proof_hackerton.Money.{Decimal}
use veri_proof_hackerton.Models.{IpAsset, NegotiationSession, World}
use veri_proof_hackerton.Env.{Env}
use veri_proof_hackerton.Json.{
  Json, null, bool, number, text, array, object, Fields, end, get, truthy,
}

-- A request: whether it is a POST, its body, and the header `X-PaySh-Signature`, empty if missing.
pub record Request : Type 0 where
  pub is_post : Bool
  pub raw_body : String
  pub paysh_signature : String

-- `json.loads` (`none` is its ValueError), the UUID of a value for `UUIDField` (`none` is a
-- ValidationError), `str` of a value, and `decimal.Decimal` of a text where the result is finite.
pub record Library : Type 0 where
  pub loads : String → Option Json
  pub uuid_of : Json → Option String
  pub str_of : Json → String
  pub finite_decimal : String → Option Decimal

-- The `_error` envelope, by its code and status.
pub record Failure : Type 0 where
  pub code : String
  pub status : ℕ

abbrev pub failure : String → ℕ → Failure
failure code status = record { code = code; status = status }

abbrev as_fields : Json → Failure ⊎ Fields
as_fields (object fields) = inr fields
as_fields null = inl (failure "invalid_json" 422)
as_fields (bool b) = inl (failure "invalid_json" 422)
as_fields (number n) = inl (failure "invalid_json" 422)
as_fields (text t) = inl (failure "invalid_json" 422)
as_fields (array xs) = inl (failure "invalid_json" 422)

abbrev as_object_body : Option Json → Failure ⊎ Fields
as_object_body none = inl (failure "invalid_json" 422)
as_object_body (some json) = as_fields json

-- `_json_object`, and the same steps written out in the two settlement handlers.
unfoldable pub json_object : Library → Request → Failure ⊎ Fields
json_object lib request =
    if request.raw_body == "" then inr end else as_object_body (lib.loads request.raw_body)

-- `(value or "").strip()`: raises for a value that is true and no text.
abbrev pub stripped : Env → Json → Option String
stripped env (text t) = some (env.strip t)
stripped env null = some (env.strip "")
stripped env (bool b) = if b then none else some (env.strip "")
stripped env (number n) = if truthy (number n) then none else some (env.strip "")
stripped env (array xs) = if truthy (array xs) then none else some (env.strip "")
stripped env (object fields) = if truthy (object fields) then none else some (env.strip "")

abbrev pub session_of : String → IpAsset → World → Option NegotiationSession
session_of id asset w = find (λ s. s.id == id && s.asset == asset.id) w.sessions

-- `_resolve_session`: the query raises a ValidationError for a value that is no UUID, which the
-- handler of ValueError and TypeError does not catch.
unfoldable pub resolve_session :
    Library → Json → IpAsset → World → Option (Option NegotiationSession)
resolve_session lib session_id asset w =
    if not (truthy session_id)
    then some none
    else elim (lib.uuid_of session_id) [ none ↦ none | some id ↦ some (session_of id asset w) ]

abbrev pub usage_of : Option NegotiationSession → Option String
usage_of none = none
usage_of (some s) = some s.usage_type
