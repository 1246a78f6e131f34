-- ===== src/Registration/Within.antt =====
-- Registrations and the plans of their subscriptions: `consume_registration` of
-- veriproof/services/subscription_service.py, called by `RegistrationService.register`.
use veri_proof_hackerton.Prelude.{
  ℕ, suc, ◌≤◌, String, Bool, true, false, Option, none, some, List, [], ◌∷◌, find, nat_eq, ◌≡◌,
  refl, sym, arith, All, inl, inr, Bool-cases, if-both, if-split,
}
use mathlib.Core.Path.{subst}
use veri_proof_hackerton.Flow.{Result, done, failed}
use veri_proof_hackerton.Registration.{
  Office, CreatorSubscription, RegistrationService, RegistrationOutcome,
}
use veri_proof_hackerton.Registration.Subscription.{has_capacity, use_one, covers}
use veri_proof_hackerton.Registration.Register.{Application}
use veri_proof_hackerton.Registration.Completion.{register}
use veri_proof_hackerton.Registration.Transaction.{Charged}
use veri_proof_hackerton.Registration.Registered.{RegistrationEnds, register-RegistrationEnds}

abbrev pub HasUniqueId : List CreatorSubscription → Type 0
HasUniqueId [] = Unit
HasUniqueId (c ∷ rows) = (find (λ r. nat_eq r.id c.id) rows ≡ none) × HasUniqueId rows

-- No more registrations are used than the plan includes.
abbrev pub IsWithin : CreatorSubscription → Type 0
IsWithin c = c.registrations_used ≤ c.included_registrations

abbrev pub IsSubscribed : List CreatorSubscription → Type 0
IsSubscribed rows = HasUniqueId rows × All IsWithin rows

some_injective : (x y : CreatorSubscription) → Option.some x ≡ some y → x ≡ y
some_injective x y e = cc

capacity_left :
    (c : CreatorSubscription)
    → has_capacity c ≡ true
    → suc c.registrations_used ≤ c.included_registrations
capacity_left c h = ground arith

module _ (p : CreatorSubscription → Bool) (c : CreatorSubscription) where
  use_one_absent :
      (rows : List CreatorSubscription)
      → find (λ r. nat_eq r.id c.id) rows ≡ none
      → use_one c rows ≡ rows
  use_one_absent [] h = refl
  use_one_absent (x ∷ rows) h = ground (arith, use_one_absent rows)

  -- A row that is found later has another id than one whose id does not come again.
  other_id :
      (x : CreatorSubscription) (rows : List CreatorSubscription)
      → find p rows ≡ some c
      → find (λ r. nat_eq r.id x.id) rows ≡ none
      → nat_eq x.id c.id ≡ false
  other_id x [] found h = absurd cc
  other_id x (y ∷ rows) found h = ground (arith, found, other_id x rows)

  ids-use_one :
      (id : ℕ) (rows : List CreatorSubscription)
      → find (λ r. nat_eq r.id id) rows ≡ none
      → find (λ r. nat_eq r.id id) (use_one c rows) ≡ none
  ids-use_one id [] h = refl
  ids-use_one id (x ∷ rows) h = ground (arith, ids-use_one id rows)

  use_one-HasUniqueId :
      (rows : List CreatorSubscription) → HasUniqueId rows → HasUniqueId (use_one c rows)
  use_one-HasUniqueId [] h = tt
  use_one-HasUniqueId (x ∷ rows) h = ground (arith, use_one-HasUniqueId rows, ids-use_one x.id rows)

  abbrev used : CreatorSubscription → CreatorSubscription
  used x = record x { registrations_used = suc c.registrations_used }

  first_found :
      (x : CreatorSubscription) (rows : List CreatorSubscription)
      → p x ≡ true
      → find p (x ∷ rows) ≡ some c
      → x ≡ c
  first_found x rows e found = some_injective x c (rw e at found)

  later_found :
      (x : CreatorSubscription) (rows : List CreatorSubscription)
      → p x ≡ false
      → find p (x ∷ rows) ≡ some c
      → find p rows ≡ some c
  later_found x rows e found = rw e at found

  use_one-IsWithin :
      (rows : List CreatorSubscription)
      → HasUniqueId rows
      → find p rows ≡ some c
      → has_capacity c ≡ true
      → All IsWithin rows
      → All IsWithin (use_one c rows)
  use_one-IsWithin [] unique found capacity h = tt
  use_one-IsWithin (x ∷ rows) unique found capacity h = elim (Bool-cases (p x)) [
    | inl e ↦
        let same : x ≡ c = first_found x rows e found in
        (
          if-both IsWithin (nat_eq x.id c.id) (used x) x
              (subst (λ y. IsWithin (record y { registrations_used = suc c.registrations_used }))
                (sym same) (capacity_left c capacity))
              h.0,
          subst (All IsWithin)
              (sym (
                use_one_absent rows
                  (subst (λ y. find (λ r. nat_eq r.id y.id) rows ≡ none) same unique.0)))
              h.1,
        )
    | inr e ↦
        let later : find p rows ≡ some c = later_found x rows e found in
        (
          if-split IsWithin (nat_eq x.id c.id) (used x) x
              (λ same. absurd (ground (arith, same, other_id x rows later unique.0))) (λ _. h.0),
          use_one-IsWithin rows unique.1 later capacity h.1,
        )
  ]

Charged-IsSubscribed :
    (has_subscription : Bool) (now : ℕ) (wallet id : String) (before after : Office)
    → Charged has_subscription now wallet id before after
    → IsSubscribed before.subscriptions
    → IsSubscribed after.subscriptions
Charged-IsSubscribed true now wallet id before after (c, found, capacity, used, charge)
      (unique, within) =
    subst IsSubscribed (sym used) (
      use_one-HasUniqueId (covers wallet now) c before.subscriptions unique,
      use_one-IsWithin (covers wallet now) c before.subscriptions unique found capacity within,
    )
Charged-IsSubscribed false now wallet id before after (same, charge) ok =
    subst IsSubscribed (sym same) ok

ends-IsSubscribed :
    (s : RegistrationService) (a : Application) (o : Office)
    (r : Result RegistrationOutcome × Office)
    → RegistrationEnds s a o r
    → IsSubscribed o.subscriptions
    → IsSubscribed r.1.subscriptions
ends-IsSubscribed s a o (done out, after) h ok =
    Charged-IsSubscribed s.has_subscription s.env.now a.metadata.creator_wallet out.asset.id o after
      h.stored.1 ok
ends-IsSubscribed s a o (failed f, after) (inl same) ok =
    subst IsSubscribed (sym same.subscriptions) ok
ends-IsSubscribed s a o (failed f, after) (inr (asset, h)) ok =
    Charged-IsSubscribed s.has_subscription s.env.now a.metadata.creator_wallet asset.id o after
      h.stored.1 ok

-- However a registration ends, no subscription has more registrations used than its plan includes.
pub register-IsSubscribed :
    (s : RegistrationService) (a : Application) (index_text : ℕ → String) (o : Office)
    → IsSubscribed o.subscriptions
    → IsSubscribed (register s a index_text o).1.subscriptions
register-IsSubscribed s a index_text o =
    ends-IsSubscribed s a o (register s a index_text o) (register-RegistrationEnds s a index_text o)
