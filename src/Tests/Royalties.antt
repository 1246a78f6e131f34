-- ===== src/Tests/Royalties.antt =====
-- Royalties of a concrete derivative.
use veri_proof_hackerton.Prelude.{Option, none, some, List, [], ◌≡◌, refl}
use veri_proof_hackerton.Models.{RoyaltyDistribution, World}
use veri_proof_hackerton.Royalty.{
  distribute, legs_of, settle_leg, settle_legs, new_distribution, compute_split,
  record_royalty_split,
}
use veri_proof_hackerton.Events.{
  try_record_event, record_event, save_event, mirror_set, audit_insert,
}
use veri_proof_hackerton.Royalty.Distribute.{distribute_replay}
use veri_proof_hackerton.Tests.{
  sample_env, derivative, empty_world, sample_license, escrow_transfer,
}

abbrev ending : Option (List RoyaltyDistribution × World) → World
ending none = empty_world
ending (some (recs, w)) = w

abbrev rows : Option (List RoyaltyDistribution × World) → List RoyaltyDistribution
rows none = []
rows (some (recs, w)) = recs

abbrev first_run : Option (List RoyaltyDistribution × World)
first_run = distribute sample_env (some escrow_transfer) sample_license derivative empty_world

abbrev second_run : Option (List RoyaltyDistribution × World)
second_run = distribute sample_env none sample_license derivative (ending first_run)

distribute_replay_example :
    (rows second_run ≡ rows first_run)
    × ((ending second_run).transfers ≡ (ending first_run).transfers)
    × ((ending second_run).distributions ≡ (ending first_run).distributions)
unfolding distribute settle_legs settle_leg legs_of compute_split new_distribution
    record_royalty_split try_record_event record_event save_event mirror_set audit_insert
distribute_replay_example =
    distribute_replay sample_env sample_env (some escrow_transfer) none sample_license derivative
      empty_world {recs = rows first_run} {recs' = rows second_run} {w' = ending first_run}
      {w'' = ending second_run} refl (refl, (refl, tt)) refl
