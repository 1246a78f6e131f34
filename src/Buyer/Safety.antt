-- ===== src/Buyer/Safety.antt =====
-- What the buyer agent's guards on spending promise.
use veri_proof_hackerton.Prelude.{
  ℕ, String, Bool, true, false, not, ◌&&◌, Option, none, some, List, [], ◌∷◌, ◌++◌, ◌==◌,
  if◌then◌else◌, ℤ, pos, ◌≤ℤ◌, ◌<ℤ◌, ltb_ℤ, nat_eq, ◌≡◌, ◌≢◌, refl, sym, ap, ◌∙◌, arith, eq_iff,
  both_true, All, if-split,
}
use mathlib.Core.Path.{subst}
use text.Mathlib.TextPositions.{eq_refl}
use veri_proof_hackerton.Buyer.{
  PaymentRequirements, AutonomousPaymentPolicy, Selection, selected, disabled, wrong_version,
  nothing_fits, is_text, is_within, first_within, select_requirement, ToolState, allowed,
  approval_required, is_approval_mode, stored, decision_for, decide, decide_by, gate_for,
  payment_approval_gate,
}

-- A requirement that the policy delegates: exact, on its network, in its token, of a positive amount
-- up to its maximum.
abbrev pub IsDelegated :
    (String → Option ℤ) → AutonomousPaymentPolicy → PaymentRequirements → Type 0
IsDelegated int_of_text policy r =
    (amount : ℤ) × (int_of_text r.amount ≡ some amount)
    × (pos 0 <ℤ amount)
    × (amount ≤ℤ policy.max_atomic_amount)
    × (r.scheme ≡ "exact")
    × (r.network ≡ policy.network)
    × (r.asset ≡ policy.asset)

is_within-IsDelegated :
    (int_of_text : String → Option ℤ) (policy : AutonomousPaymentPolicy) (r : PaymentRequirements)
    (amount : Option ℤ)
    → int_of_text r.amount ≡ amount
    → is_within policy r amount ≡ true
    → IsDelegated int_of_text policy r
is_within-IsDelegated int_of_text policy r none e h = absurd (cc)
is_within-IsDelegated int_of_text policy r (some amount) e h =
    let (exact, h1) = both_true _ _ h in
    let (network, h2) = both_true _ _ h1 in
    let (asset, h3) = both_true _ _ h2 in
    let (positive, bounded) = both_true (ltb_ℤ (pos 0) amount) _ h3 in
    (
      amount,
      e,
      ground arith,
      ground arith,
      (eq_iff r.scheme "exact").0 exact,
      (eq_iff r.network policy.network).0 network,
      (eq_iff r.asset policy.asset).0 asset,
    )

IsDelegated-is_within :
    (int_of_text : String → Option ℤ) (policy : AutonomousPaymentPolicy) (r : PaymentRequirements)
    → IsDelegated int_of_text policy r
    → is_within policy r (int_of_text r.amount) ≡ true
IsDelegated-is_within int_of_text policy r (amount, e, positive, bounded, exact, network, asset) =
    rw e (
      ground (
        arith,
        positive,
        bounded,
        (eq_iff r.scheme "exact").1 exact,
        (eq_iff r.network policy.network).1 network,
        (eq_iff r.asset policy.asset).1 asset,
      ))

refused-IsDelegated :
    (int_of_text : String → Option ℤ) (policy : AutonomousPaymentPolicy) (r : PaymentRequirements)
    → is_within policy r (int_of_text r.amount) ≡ false
    → ¬ IsDelegated int_of_text policy r
refused-IsDelegated int_of_text policy r h d =
    let yes = IsDelegated-is_within int_of_text policy r d in absurd cc

-- How a selection ended.
abbrev pub IsChoice :
    (String → Option ℤ)
    → AutonomousPaymentPolicy
    → ℕ
    → List PaymentRequirements
    → Selection
    → Type 0
IsChoice int_of_text policy version requirements (selected r) =
    (policy.enabled ≡ true)
    × (version ≡ 2)
    × IsDelegated int_of_text policy r
    × ((before : List PaymentRequirements) × (after : List PaymentRequirements) × (requirements
          ≡ before ++ r ∷ after)
        × All (λ x. ¬ IsDelegated int_of_text policy x) before)
IsChoice int_of_text policy version requirements disabled = policy.enabled ≡ false
IsChoice int_of_text policy version requirements wrong_version = version ≢ 2
IsChoice int_of_text policy version requirements nothing_fits =
    All (λ x. ¬ IsDelegated int_of_text policy x) requirements

module _ (int_of_text : String → Option ℤ) (policy : AutonomousPaymentPolicy) (version : ℕ) where
  later-IsChoice :
      (r : PaymentRequirements) (rest : List PaymentRequirements) (s : Selection)
      → ¬ IsDelegated int_of_text policy r
      → IsChoice int_of_text policy version rest s
      → IsChoice int_of_text policy version (r ∷ rest) s
  later-IsChoice r rest (selected x) h (on, two, within, (before, after, same, refused)) =
      (on, two, within, (r ∷ before, after, ap (λ xs. r ∷ xs) same, (h, refused)))
  later-IsChoice r rest disabled h c = c
  later-IsChoice r rest wrong_version h c = c
  later-IsChoice r rest nothing_fits h c = (h, c)

  first_within-IsChoice :
      (requirements : List PaymentRequirements)
      → policy.enabled ≡ true
      → version ≡ 2
      → IsChoice int_of_text policy version requirements
          (first_within int_of_text policy requirements)
  first_within-IsChoice [] on two = tt
  first_within-IsChoice (r ∷ rest) on two =
      if-split (IsChoice int_of_text policy version (r ∷ rest))
        (is_within policy r (int_of_text r.amount)) _ _
        (λ within.
          (on, two, is_within-IsDelegated int_of_text policy r _ refl within, ([], rest, refl, tt)))
        (λ refused.
          later-IsChoice r rest _ (refused-IsDelegated int_of_text policy r refused)
            (first_within-IsChoice rest on two))

-- The policy selects only with autonomous payment enabled and for version 2, and then the first
-- requirement that it delegates: exact, on its network, in its token, of a positive amount up to its
-- maximum. It refuses only when disabled, for another version, or where no requirement fits.
pub select_requirement-IsChoice :
    (int_of_text : String → Option ℤ) (policy : AutonomousPaymentPolicy) (version : ℕ)
    (requirements : List PaymentRequirements)
    → IsChoice int_of_text policy version requirements
        (select_requirement int_of_text policy version requirements)
unfolding select_requirement
select_requirement-IsChoice int_of_text policy version requirements =
    if-split (IsChoice int_of_text policy version requirements) (not policy.enabled) _ _
      (λ off. ground arith)
      (λ on.
        if-split (IsChoice int_of_text policy version requirements) (not (nat_eq version 2)) _ _
          (λ other. ground arith)
          (λ two.
            first_within-IsChoice int_of_text policy version requirements (ground arith)
              (ground arith)))

gate_known :
    (parse_uuid : String → Option String) (state : ToolState) (asset_id payment_method id : String)
    → is_approval_mode state ≡ true
    → parse_uuid asset_id ≡ some id
    → payment_approval_gate parse_uuid state asset_id payment_method
      ≡ decide state id payment_method (decision_for state id payment_method)
unfolding payment_approval_gate
gate_known parse_uuid state asset_id payment_method id mode parsed =
    ap (λ b. if b then gate_for state payment_method (parse_uuid asset_id) else (allowed, state))
      mode
    ∙ ap (gate_for state payment_method) parsed

-- An approval is for a decision of "approved", and is replaced by a used one.
decide_allowed :
    (state state' : ToolState) (id payment_method : String) (decision : Option String)
    → decide state id payment_method decision ≡ (allowed, state')
    → (decision ≡ some "approved")
      × (record state { approval = stored id payment_method "consumed" } ≡ state')
decide_allowed state state' id payment_method none h = absurd (cc)
decide_allowed state state' id payment_method (some d) h =
    go (d == "approved") (d == "declined") refl h
  where
    go :
        (approved declined : Bool)
        → (d == "approved") ≡ approved
        → decide_by state id payment_method approved declined ≡ (allowed, state')
        → (some d ≡ some "approved")
          × (record state { approval = stored id payment_method "consumed" } ≡ state')
    go true declined e k = (ap (λ x. some x) ((eq_iff d "approved").0 e), ap (λ x. x.1) k)
    go false true e k = absurd (cc)
    go false false e k = absurd (cc)

decision_for-stored :
    (state : ToolState) (id payment_method decision : String)
    → decision_for (record state { approval = stored id payment_method decision }) id payment_method
      ≡ some decision
decision_for-stored state id payment_method decision = rw (eq_refl id, eq_refl payment_method)

is_text-some : (t : String) (o : Option String) → is_text t o ≡ true → o ≡ some t
is_text-some t none h = absurd cc
is_text-some t (some s) h = ap (λ x. some x) ((eq_iff s t).0 h)

decision_for-approved :
    (state : ToolState) (id payment_method : String)
    → decision_for state id payment_method ≡ some "approved"
    → (state.approval.asset_id ≡ some id)
      × (state.approval.payment_method ≡ some payment_method)
      × (state.approval.decision ≡ some "approved")
decision_for-approved state id payment_method h =
    go (is_text id state.approval.asset_id) (is_text payment_method state.approval.payment_method)
      refl refl h
  where
    go :
        (a b : Bool)
        → is_text id state.approval.asset_id ≡ a
        → is_text payment_method state.approval.payment_method ≡ b
        → (if a && b then state.approval.decision else none) ≡ some "approved"
        → (state.approval.asset_id ≡ some id)
          × (state.approval.payment_method ≡ some payment_method)
          × (state.approval.decision ≡ some "approved")
    go true true ea eb k = (is_text-some _ _ ea, is_text-some _ _ eb, k)
    go true false ea eb k = absurd cc
    go false b ea eb k = absurd cc

approval_mode : (state : ToolState) → state.mode ≡ some "approval" → is_approval_mode state ≡ true
approval_mode state h = rw h

-- In approval mode, a payment that the gate lets through had been approved for this very asset and
-- method, and the approval is used up: asked again, the gate requires a new approval.
pub payment_approval_gate_once :
    (parse_uuid : String → Option String) (state state' : ToolState)
    (asset_id payment_method id : String)
    → state.mode ≡ some "approval"
    → parse_uuid asset_id ≡ some id
    → payment_approval_gate parse_uuid state asset_id payment_method ≡ (allowed, state')
    → ((state.approval.asset_id ≡ some id)
        × (state.approval.payment_method ≡ some payment_method)
        × (state.approval.decision ≡ some "approved"))
      × ((payment_approval_gate parse_uuid state' asset_id payment_method).0
          ≡ approval_required id payment_method)
payment_approval_gate_once parse_uuid state state' asset_id payment_method id by_approval parsed h =
    let mode : is_approval_mode state ≡ true = approval_mode state by_approval in
    let (approved, used) =
      decide_allowed state state' id payment_method (decision_for state id payment_method)
        (sym (gate_known parse_uuid state asset_id payment_method id mode parsed) ∙ h) in
    let after : ToolState = record state { approval = stored id payment_method "consumed" } in
    (
      decision_for-approved state id payment_method approved,
      subst
          (λ s.
            (payment_approval_gate parse_uuid s asset_id payment_method).0
            ≡ approval_required id payment_method)
          used
          (ap (λ x. x.0) (gate_known parse_uuid after asset_id payment_method id mode parsed)
            ∙ ap (λ d. (decide after id payment_method d).0)
                (decision_for-stored state id payment_method "consumed")),
    )
