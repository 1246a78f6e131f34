-- ===== src/Assets/Deletion.antt =====
-- `delete_asset` of veriproof/apps/ip/views_api.py, with what the database deletes along with a work.
use veri_proof_hackerton.Prelude.{
  String, Bool, false, not, Option, none, some, List, [], ◌∷◌, map, any, find, ◌==◌, ◌&&◌, ◌||◌,
  if◌then◌else◌,
}
use veri_proof_hackerton.Models.{IpAsset, License, BatchItem, NegotiationSession, AgentEvent}
use veri_proof_hackerton.Web.{Failure, failure}
use veri_proof_hackerton.Draft.{RegistrationDraft}
use veri_proof_hackerton.Registration.{Office}
use veri_proof_hackerton.Sponsored.{SponsoredPaymentIntent}
use veri_proof_hackerton.Assets.{owned}

-- `delete_asset`
pub data DeleteReply : Type 0 where
  error : Failure → DeleteReply
  deleted crashed : DeleteReply

abbrev pub is_some_text : String → Option String → Bool
is_some_text id none = false
is_some_text id (some t) = t == id

abbrev pub is_license_of : String → List License → String → Bool
is_license_of id rows license_id = any (λ l. l.asset == id && l.id == license_id) rows

abbrev session_gone : String → List NegotiationSession → Option String → Bool
session_gone id sessions none = false
session_gone id sessions (some session) = any (λ s. s.asset == id && s.id == session) sessions

abbrev license_gone : String → List License → Option String → Bool
license_gone id rows none = false
license_gone id rows (some license_id) = is_license_of id rows license_id

abbrev pub keep {ℓ} : {A : Type ℓ} → (A → Bool) → List A → List A
keep gone [] = []
keep gone (x ∷ xs) = if gone x then keep gone xs else x ∷ keep gone xs

-- `asset.derivatives.update(parent_asset=None, royalty_share_bps=None)`
abbrev pub orphaned : String → IpAsset → IpAsset
orphaned id a =
    if is_some_text id a.parent_asset_id
    then record a { parent_asset_id = none; royalty_share_bps = none }
    else a

abbrev pub without_session : String → List NegotiationSession → License → License
without_session id sessions l =
    if session_gone id sessions l.session then record l { session = none } else l

abbrev pub without_license : String → List License → BatchItem → BatchItem
without_license id rows i =
    if license_gone id rows i.license then record i { license = none } else i

-- Events stay, without the row and the session that are gone.
abbrev detached : String → List NegotiationSession → AgentEvent → AgentEvent
detached id sessions e = record e {
  asset = if is_some_text id e.asset then none else e.asset;
  session = if session_gone id sessions e.session then none else e.session;
}

abbrev released : String → RegistrationDraft → RegistrationDraft
released id d = if is_some_text id d.executed_asset then record d { executed_asset = none } else d

-- The tables after the deletion, with what the foreign keys cascade to.
unfoldable pub delete_rows : String → Office → Office
unfolding detached released
delete_rows id o = record o {
  world = record o.world {
    assets = keep (λ a. a.id == id) (map (orphaned id) o.world.assets);
    licenses =
        keep (λ l. l.asset == id) (map (without_session id o.world.sessions) o.world.licenses);
    distributions = keep (λ d. is_license_of id o.world.licenses d.license) o.world.distributions;
    sessions = keep (λ s. s.asset == id) o.world.sessions;
    items =
        keep (λ i. i.asset.id == id)
          (map (λ i. without_license id o.world.licenses (record i { asset = orphaned id i.asset }))
            o.world.items);
    events = map (detached id o.world.sessions) o.world.events;
  };
  drafts = record o.drafts { drafts = map (released id) o.drafts.drafts };
  images = keep (λ i. i.asset == id) o.images;
  components = keep (λ c. c.asset == id) o.components;
  charges = keep (λ c. c.asset == id) o.charges;
  intents =
      map (λ (i : SponsoredPaymentIntent). record i { asset = orphaned id i.asset }) o.intents;
}

abbrev intent_session : SponsoredPaymentIntent → Option String
intent_session i = elim i.negotiation_session [ none ↦ none | some s ↦ some s.id ]

-- A sponsored payment protects the asset and its session: the deletion raises ProtectedError.
abbrev pub is_protected : String → Office → Bool
is_protected id o =
    any (λ i. i.asset.id == id || session_gone id o.world.sessions (intent_session i)) o.intents

abbrev pub delete_unless : Bool → String → Office → DeleteReply × Office
delete_unless protected id o = if protected then (crashed, o) else (deleted, delete_rows id o)

abbrev pub delete_owned : String → Option IpAsset → Office → DeleteReply × Office
delete_owned id none o = (error (failure "asset_not_found" 404), o)
delete_owned id (some asset) o = delete_unless (is_protected id o) id o

unfoldable pub delete_asset : Bool → Option String → String → Office → DeleteReply × Office
delete_asset is_delete user asset_id o =
    if not is_delete then (error (failure "method_not_allowed" 405), o) else elim user [
      | none ↦ (error (failure "authentication_required" 401), o)
      | some u ↦ delete_owned asset_id (find (owned asset_id u) o.world.assets) o
    ]
