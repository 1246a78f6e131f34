-- ===== src/Royalty/Legs.antt =====
-- `_settle_leg` and its loop in veriproof/services/royalty_service.py, and legs that are settled.
use veri_proof_hackerton.Prelude.{
  true, Option, none, some, List, [], ◌∷◌, ◌++◌, find, ◌≡◌, refl, ap, ◌∙◌, arith, Option-cases, ◌⊎◌,
  inl, inr, find-append_some, find-append_none, All,
}
use text.Mathlib.TextPositions.{eq_refl}
use veri_proof_hackerton.Models.{License, RoyaltyDistribution, Role, original, secondary, World}
use veri_proof_hackerton.Royalty.{
  TransferUsdc, Leg, is_settled_for, is_settled, same_role, new_distribution, settle_leg,
  settle_legs, settle_found, attempt,
}

abbrev pub settled_row : License → Role → World → Option RoyaltyDistribution
settled_row license role w = find (is_settled_for license role) w.distributions

module _ (solana : Option TransferUsdc) (license : License) where
  -- A leg either has a settled row, and nothing happens, or one new row is added for it.
  pub settle_leg_cases :
      (leg : Leg) (w : World)
      → ((rec : RoyaltyDistribution) × (settled_row license leg.role w ≡ some rec)
          × (settle_leg solana license leg w ≡ (rec, w)))
        ⊎ ((settled_row license leg.role w ≡ none)
            × (settle_leg solana license leg w ≡ attempt solana license leg w))
  unfolding settle_leg
  settle_leg_cases leg w = elim (Option-cases (settled_row license leg.role w)) [
    | inl open_leg ↦ inr (open_leg, ap (settle_found solana license leg w) open_leg)
    | inr (rec, done) ↦ inl (rec, done, ap (settle_found solana license leg w) done)
  ]

same_role_refl : (role : Role) → same_role role role ≡ true
same_role_refl original = refl
same_role_refl secondary = refl

-- What one attempt does to the rows and the transfers.
attempt_rows :
    (solana : Option TransferUsdc) (license : License) (leg : Leg) (w : World)
    → let (rec, w') = attempt solana license leg w in
      (w'.distributions ≡ w.distributions ++ rec ∷ [])
      × (rec.license ≡ license.id)
      × (rec.role ≡ leg.role)
unfolding new_distribution
attempt_rows none license leg w = (refl, refl, refl)
attempt_rows (some transfer) license leg w = (refl, refl, refl)

-- A row that is found settled stays found through every later leg.
settled_row-settle_leg :
    (solana : Option TransferUsdc) (license : License) (role : Role) (leg : Leg) (w : World)
    (rec : RoyaltyDistribution)
    → settled_row license role w ≡ some rec
    → settled_row license role (settle_leg solana license leg w).1 ≡ some rec
settled_row-settle_leg solana license role leg w rec h =
    elim (settle_leg_cases solana license leg w) [
      | inl (rec', done, same) ↦ rw same h
      | inr (open_leg, tried) ↦
          let (rows, _, _) = attempt_rows solana license leg w in
          rw (tried, rows) (find-append_some (is_settled_for license role) w.distributions _ rec h)
    ]

settled_row-settle_legs :
    (solana : Option TransferUsdc) (license : License) (role : Role) (legs : List Leg) (w : World)
    (rec : RoyaltyDistribution)
    → settled_row license role w ≡ some rec
    → settled_row license role (settle_legs solana license legs w).1 ≡ some rec
unfolding settle_legs
settled_row-settle_legs solana license role [] w rec h = h
settled_row-settle_legs solana license role (leg ∷ legs) w rec h =
    settled_row-settle_legs solana license role legs (settle_leg solana license leg w).1 rec
      (settled_row-settle_leg solana license role leg w rec h)

attempt-is_settled_for :
    (solana : Option TransferUsdc) (license : License) (leg : Leg) (w : World)
    → is_settled (attempt solana license leg w).0.status ≡ true
    → is_settled_for license leg.role (attempt solana license leg w).0 ≡ true
unfolding new_distribution
attempt-is_settled_for none license leg w h = cc
attempt-is_settled_for (some transfer) license leg w h =
    ground (arith, same_role_refl leg.role, eq_refl license.id)

-- A leg that comes back settled is the settled row of its role from then on.
settle_leg-settled_row :
    (solana : Option TransferUsdc) (license : License) (leg : Leg) (w : World)
    → is_settled (settle_leg solana license leg w).0.status ≡ true
    → settled_row license leg.role (settle_leg solana license leg w).1
      ≡ some (settle_leg solana license leg w).0
settle_leg-settled_row solana license leg w h = elim (settle_leg_cases solana license leg w) [
  | inl (rec, done, same) ↦ rw same done
  | inr (open_leg, tried) ↦
      let (rows, _, _) = attempt_rows solana license leg w in
      rw (
        tried,
        rows,
        find-append_none (is_settled_for license leg.role) w.distributions _ open_leg,
        attempt-is_settled_for solana license leg w (rw tried at h),
      )
]

-- Every leg came back settled.
abbrev pub AllSettled : List RoyaltyDistribution → Type 0
AllSettled recs = All (λ r. is_settled r.status ≡ true) recs

-- The rows that a later run will find for the legs.
abbrev pub Found : License → World → List Leg → List RoyaltyDistribution → Type 0
Found license w [] [] = Unit
Found license w (leg ∷ legs) (rec ∷ recs) =
    (settled_row license leg.role w ≡ some rec) × Found license w legs recs
Found license w _ _ = ⊥

pub settle_legs-Found :
    (solana : Option TransferUsdc) (license : License) (legs : List Leg) (w : World)
    → AllSettled (settle_legs solana license legs w).0
    → Found license (settle_legs solana license legs w).1 legs (settle_legs solana license legs w).0
unfolding settle_legs
settle_legs-Found solana license [] w h = tt
settle_legs-Found solana license (leg ∷ legs) w h =
    let w' : World = (settle_leg solana license leg w).1 in
    (
      settled_row-settle_legs solana license leg.role legs w' (settle_leg solana license leg w).0
          (settle_leg-settled_row solana license leg w h.0),
      settle_legs-Found solana license legs w' h.1,
    )

pub settle_legs-Found' :
    (solana : Option TransferUsdc) (license : License) (legs : List Leg)
    (recs : List RoyaltyDistribution) (w : World)
    → Found license w legs recs
    → settle_legs solana license legs w ≡ (recs, w)
unfolding settle_legs settle_leg
settle_legs-Found' solana license [] [] w h = refl
settle_legs-Found' solana license [] (_ ∷ _) w h = absurd h
settle_legs-Found' solana license (_ ∷ _) [] w h = absurd h
settle_legs-Found' solana license (leg ∷ legs) (rec ∷ recs) w h =
    let e : settle_leg solana license leg w ≡ (rec, w) =
      ap (settle_found solana license leg w) h.0 in
    rw (e, settle_legs-Found' solana license legs recs w h.1)

pub Found-rows :
    (license : License) (legs : List Leg) (recs : List RoyaltyDistribution) (w w' : World)
    → w'.distributions ≡ w.distributions
    → Found license w legs recs
    → Found license w' legs recs
Found-rows license [] [] w w' e h = tt
Found-rows license [] (_ ∷ _) w w' e h = h
Found-rows license (_ ∷ _) [] w w' e h = h
Found-rows license (leg ∷ legs) (rec ∷ recs) w w' e h =
    (ap (find (is_settled_for license leg.role)) e ∙ h.0, Found-rows license legs recs w w' e h.1)
