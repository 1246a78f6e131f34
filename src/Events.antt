-- ===== src/Events.antt =====
-- veriproof/services/event_recorder.py: the audit event of a step, with its copies to the Firestore
-- mirror and the BigQuery sink (services/firestore_mirror.py, services/bigquery_sink.py). Both sinks
-- swallow every failure, so a write is the entry that the service hands over.
use veri_proof_hackerton.Prelude.{
  ℕ, suc, String, Bool, Option, none, some, [], ◌∷◌, ◌++◌, ◌==◌, append_text, if◌then◌else◌, ◌≡◌,
  refl, arith, if-both, ◌∙◌,
}
use veri_proof_hackerton.Models.{
  IpAsset, NegotiationSession, AgentEvent, Payload, Document, event_copy, World,
}
use veri_proof_hackerton.Env.{Env}

-- Python's `a or b` on optional texts: an empty text counts as absent.
abbrev pub or_option : Option String → Option String → Option String
or_option none b = b
or_option (some a) b = if a == "" then b else some a

abbrev pub asset_id_of : Option IpAsset → Option String
asset_id_of none = none
asset_id_of (some a) = some a.id

abbrev pub owner_of : Option IpAsset → Option String
owner_of none = none
owner_of (some a) = a.account_owner

abbrev pub session_id_of : Option NegotiationSession → Option String
session_id_of none = none
session_id_of (some s) = some s.id

abbrev pub buyer_of : Option NegotiationSession → String
buyer_of none = ""
buyer_of (some s) = s.buyer_agent_id

abbrev flow_id : Env → String → Option String → String
flow_id env asset_id none = env.uuid5 (append_text "veriproof:flow:" asset_id)
flow_id env asset_id (some parsed) = parsed

abbrev flow_for : Env → Option String → String → Option String
flow_for env none buyer_id = none
flow_for env (some asset_id) buyer_id =
    if buyer_id == ""
    then some (flow_id env asset_id (env.parse_uuid asset_id))
    else some
        (env.uuid5 (append_text "veriproof:a2a:" (append_text asset_id (append_text ":" buyer_id))))

-- `correlation_id_for`, with the buyer taken from the session where none is given.
unfoldable pub correlation_id_for :
    Env → Option IpAsset → Option NegotiationSession → String → Option String
correlation_id_for env asset session buyer_agent_id =
    flow_for env (asset_id_of asset)
      (if buyer_agent_id == "" then buyer_of session else buyer_agent_id)

-- The keyword arguments of `EventRecorder.record`.
pub record EventContext : Type 0 where
  pub account_owner : Option String
  pub asset_id : Option String
  pub correlation_id : Option String

abbrev pub no_context : EventContext
no_context = record { account_owner = none; asset_id = none; correlation_id = none }

unfoldable pub new_event :
    Env
    → String
    → Payload
    → Option IpAsset
    → Option NegotiationSession
    → EventContext
    → ℕ
    → AgentEvent
unfolding correlation_id_for
new_event env type payload asset session context draws = record {
  id = env.uuid4 draws;
  type = type;
  payload = payload;
  asset = asset_id_of asset;
  session = session_id_of session;
  account_owner = or_option context.account_owner (owner_of asset);
  correlation_id = or_option context.correlation_id (correlation_id_for env asset session "");
}

-- `FirestoreMirror.set` and `BigQuerySink.insert`.
unfoldable pub mirror_set : String → String → Document → World → World
mirror_set collection doc_id document w = record w {
  mirror =
      w.mirror ++ record { collection = collection; doc_id = doc_id; document = document } ∷ [];
}

unfoldable pub audit_insert : String → Document → World → World
audit_insert table row w = record w { audit = w.audit ++ record { table = table; row = row } ∷ [] }

unfoldable pub save_event : AgentEvent → Option String → World → World
unfolding mirror_set audit_insert
save_event event asset_id w =
    let stored : World = record w { events = w.events ++ event ∷ []; draws = suc w.draws } in
    audit_insert "events" (event_copy event asset_id)
      (mirror_set "events" event.id (event_copy event asset_id) stored)

-- `EventRecorder.record`: `none` where the insert raises, and then nothing is written.
unfoldable pub record_event :
    Env
    → String
    → Payload
    → Option IpAsset
    → Option NegotiationSession
    → EventContext
    → World
    → Option World
unfolding save_event
record_event env type payload asset session context w =
    let event : AgentEvent = new_event env type payload asset session context w.draws in
    if env.insert_event event
    then some (save_event event (or_option context.asset_id (asset_id_of asset)) w)
    else none

-- The `try: recorder.record(...) except Exception` of the services.
unfoldable pub try_record_event :
    Env → String → Payload → Option IpAsset → Option NegotiationSession → World → World
try_record_event env type payload asset session w =
    elim (record_event env type payload asset session no_context w) [ none ↦ w | some w' ↦ w' ]

-- What recording leaves alone, whether or not it succeeds.
pub record SameRows (a b : World) : Type 0 where
  pub assets : a.assets ≡ b.assets
  pub sessions : a.sessions ≡ b.sessions
  pub licenses : a.licenses ≡ b.licenses
  pub distributions : a.distributions ≡ b.distributions
  pub orders : a.orders ≡ b.orders
  pub items : a.items ≡ b.items
  pub transfers : a.transfers ≡ b.transfers

pub try_record_event-SameRows :
    (env : Env) (type : String) (payload : Payload) (asset : Option IpAsset)
    (session : Option NegotiationSession) (w : World)
    → SameRows (try_record_event env type payload asset session w) w
unfolding try_record_event record_event save_event
try_record_event-SameRows env type payload asset session w = ground arith

-- A recorded event stands at the end of the log, and no row but the log's has changed.
pub record_event-events :
    (env : Env) (type : String) (payload : Payload) (asset : Option IpAsset)
    (session : Option NegotiationSession) (context : EventContext) (w w' : World)
    → record_event env type payload asset session context w ≡ some w'
    → w'.events ≡ w.events ++ new_event env type payload asset session context w.draws ∷ []
unfolding record_event save_event
record_event-events env type payload asset session context w w' h = ground arith

pub record_event-SameRows :
    (env : Env) (type : String) (payload : Payload) (asset : Option IpAsset)
    (session : Option NegotiationSession) (context : EventContext) (w w' : World)
    → record_event env type payload asset session context w ≡ some w'
    → SameRows w' w
unfolding record_event save_event
record_event-SameRows env type payload asset session context w w' h = ground arith

pub SameRows-refl : (w : World) → SameRows w w
SameRows-refl w = record {
  assets = refl;
  sessions = refl;
  licenses = refl;
  distributions = refl;
  orders = refl;
  items = refl;
  transfers = refl;
}

pub SameRows-trans : (a b c : World) → SameRows a b → SameRows b c → SameRows a c
SameRows-trans a b c h k = record {
  assets = h.assets ∙ k.assets;
  sessions = h.sessions ∙ k.sessions;
  licenses = h.licenses ∙ k.licenses;
  distributions = h.distributions ∙ k.distributions;
  orders = h.orders ∙ k.orders;
  items = h.items ∙ k.items;
  transfers = h.transfers ∙ k.transfers;
}

-- The services' recorders that may be absent: `if self.event_recorder is None: return`.
unfoldable pub best_effort :
    Bool → Env → String → Payload → Option IpAsset → Option NegotiationSession → World → World
best_effort has_recorder env type payload asset session w =
    if has_recorder then try_record_event env type payload asset session w else w

pub best_effort-SameRows :
    (has_recorder : Bool) (env : Env) (type : String) (payload : Payload) (asset : Option IpAsset)
    (session : Option NegotiationSession) (w : World)
    → SameRows (best_effort has_recorder env type payload asset session w) w
unfolding best_effort
best_effort-SameRows has_recorder env type payload asset session w =
    if-both (λ x. SameRows x w) has_recorder _ _
      (try_record_event-SameRows env type payload asset session w) (SameRows-refl w)
