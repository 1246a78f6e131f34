-- ===== src/Registration/Subscription.antt =====
-- veriproof/services/subscription_service.py: the right to register under a subscription, and its
-- use. A list of subscriptions has the order in which the database returns its rows.
use veri_proof_hackerton.Prelude.{
  ℕ, suc, String, Bool, Option, none, some, List, [], ◌∷◌, ◌++◌, map, find, leb, ltb, nat_eq, ◌==◌,
  ◌&&◌, if◌then◌else◌,
}
use veri_proof_hackerton.Draft.{contains}
use veri_proof_hackerton.Flow.{subscription_required, Flow, Result, done, failed}
use veri_proof_hackerton.Registration.{Office, CreatorSubscription}

abbrev pub covers : String → ℕ → CreatorSubscription → Bool
covers wallet now s =
    s.creator == wallet
    && (s.is_active && (leb s.period_start now && (ltb now s.period_end && s.plan_is_active)))

-- The first subscription of the wallet that is in its period.
abbrev pub current_subscription : String → ℕ → List CreatorSubscription → Option CreatorSubscription
current_subscription wallet now = find (covers wallet now)

abbrev pub has_capacity : CreatorSubscription → Bool
has_capacity s = ltb s.registrations_used s.included_registrations

abbrev authorized : Option CreatorSubscription → Result (Unit {0})
authorized none = failed subscription_required
authorized (some s) = if has_capacity s then done tt else failed subscription_required

abbrev authorization : ℕ → String → Office → Result (Unit {0})
authorization now wallet o =
    if contains wallet o.drafts.creators
    then authorized (current_subscription wallet now o.subscriptions)
    else failed subscription_required

-- `authorize_registration`: a wallet that no creator has finds no subscription.
unfoldable pub authorize_registration : ℕ → String → Flow Office (Unit {0})
authorize_registration now wallet o = (authorization now wallet o, o)

abbrev pub use_one : CreatorSubscription → List CreatorSubscription → List CreatorSubscription
use_one s =
    map λ r.
      if nat_eq r.id s.id then record r { registrations_used = suc s.registrations_used } else r

abbrev pub charged : String → Option CreatorSubscription → Flow Office (Unit {0})
charged asset_id none o = (failed subscription_required, o)
charged asset_id (some s) o =
    if has_capacity s
    then (
      done tt,
      record o {
        subscriptions = use_one s o.subscriptions;
        charges = o.charges ++ record { subscription = s.id; asset = asset_id } ∷ [];
      },
    )
    else (failed subscription_required, o)

-- `consume_registration`
unfoldable pub consume_registration : ℕ → String → String → Flow Office (Unit {0})
consume_registration now wallet asset_id o =
    charged asset_id (current_subscription wallet now o.subscriptions) o
