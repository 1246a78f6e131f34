-- ===== src/Buyer.antt =====
-- The buyer agent's guards on spending: agents/buyer_agent/payments/policy.py and
-- agents/buyer_agent/payment_approval.py. Python's `int` and `uuid.UUID` are parameters.
pub mod Safety
pub mod Bargain
use veri_proof_hackerton.Prelude.{
  ℕ, String, Bool, true, false, not, Option, none, some, List, [], ◌∷◌, ◌==◌, ◌&&◌, if◌then◌else◌,
  ℤ, pos, leb_ℤ, ltb_ℤ, nat_eq,
}

-- `PaymentRequirements`: the fields that the policy reads.
pub record PaymentRequirements : Type 0 where
  pub scheme : String
  pub network : String
  pub asset : String
  pub amount : String

pub record AutonomousPaymentPolicy : Type 0 where
  pub enabled : Bool
  pub network : String
  pub asset : String
  pub max_atomic_amount : ℤ

-- A requirement, or one of the three refusals.
pub data Selection : Type 0 where
  selected : PaymentRequirements → Selection
  disabled wrong_version nothing_fits : Selection

abbrev pub is_within : AutonomousPaymentPolicy → PaymentRequirements → Option ℤ → Bool
is_within policy r none = false
is_within policy r (some amount) =
    r.scheme == "exact"
    && (r.network == policy.network
        && (r.asset == policy.asset
            && (ltb_ℤ (pos 0) amount && leb_ℤ amount policy.max_atomic_amount)))

abbrev pub first_within :
    (String → Option ℤ) → AutonomousPaymentPolicy → List PaymentRequirements → Selection
first_within int_of_text policy [] = nothing_fits
first_within int_of_text policy (r ∷ rest) =
    if is_within policy r (int_of_text r.amount)
    then selected r
    else first_within int_of_text policy rest

-- `AutonomousPaymentPolicy.select`
unfoldable pub select_requirement :
    (String → Option ℤ) → AutonomousPaymentPolicy → ℕ → List PaymentRequirements → Selection
select_requirement int_of_text policy version requirements =
    if not policy.enabled
    then disabled
    else if not (nat_eq version 2)
    then wrong_version
    else first_within int_of_text policy requirements

-- What the session stores under the approval key; a missing key is `none`.
pub record Approval : Type 0 where
  pub asset_id : Option String
  pub payment_method : Option String
  pub decision : Option String

-- The session's state: the payment mode and the approval, which is empty where it is no `dict`.
pub record ToolState : Type 0 where
  pub mode : Option String
  pub approval : Approval

-- `None`, the two answers, or a ValueError.
pub data Gate : Type 0 where
  allowed : Gate
  payment_declined approval_required : String → String → Gate
  invalid_asset : Gate

abbrev pub is_text : String → Option String → Bool
is_text t none = false
is_text t (some s) = s == t

abbrev pub is_approval_mode : ToolState → Bool
is_approval_mode state = is_text "approval" state.mode

abbrev pub stored : String → String → String → Approval
stored asset_id payment_method decision = record {
  asset_id = some asset_id;
  payment_method = some payment_method;
  decision = some decision;
}

abbrev pub decision_for : ToolState → String → String → Option String
decision_for state asset_id payment_method =
    if is_text asset_id state.approval.asset_id
      && is_text payment_method state.approval.payment_method
    then state.approval.decision
    else none

-- By whether the decision is "approved" and whether it is "declined".
abbrev pub decide_by : ToolState → String → String → Bool → Bool → Gate × ToolState
decide_by state asset_id payment_method approved declined =
    if approved
    then (allowed, record state { approval = stored asset_id payment_method "consumed" })
    else if declined
    then (
      payment_declined asset_id payment_method,
      record state { approval = stored asset_id payment_method "consumed" },
    )
    else (
      approval_required asset_id payment_method,
      record state { approval = stored asset_id payment_method "pending" },
    )

abbrev pub decide : ToolState → String → String → Option String → Gate × ToolState
decide state asset_id payment_method decision =
    decide_by state asset_id payment_method (is_text "approved" decision)
      (is_text "declined" decision)

abbrev pub gate_for : ToolState → String → Option String → Gate × ToolState
gate_for state payment_method none = (invalid_asset, state)
gate_for state payment_method (some asset_id) =
    decide state asset_id payment_method (decision_for state asset_id payment_method)

-- `payment_approval_gate`, with a tool context.
unfoldable pub payment_approval_gate :
    (String → Option String) → ToolState → String → String → Gate × ToolState
payment_approval_gate parse_uuid state asset_id payment_method =
    if is_approval_mode state
    then gate_for state payment_method (parse_uuid asset_id)
    else (allowed, state)
