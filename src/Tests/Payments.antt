-- ===== src/Tests/Payments.antt =====
-- Licenses and settlements at concrete rows.
use veri_proof_hackerton.Prelude.{◌≡◌, refl}
use veri_proof_hackerton.License.{grant}
use veri_proof_hackerton.License.Idempotence.{grant_replay}
use veri_proof_hackerton.Settlement.{settle_pipeline}
use veri_proof_hackerton.Settlement.Pipeline.{settle_pipeline-Settled, Settled}
use veri_proof_hackerton.Royalty.Ledger.{booked, delivered}
use veri_proof_hackerton.Tests.{
  sample_env, derivative, parent_asset, empty_world, licensing, sample_purchase, settling,
  sample_settlement,
}

grant_replay_example :
    grant licensing sample_env parent_asset
      (record sample_purchase { buyer_wallet = "thief" })
      (grant licensing sample_env derivative sample_purchase empty_world).1
    ≡ grant licensing sample_env derivative sample_purchase empty_world
grant_replay_example =
    grant_replay licensing licensing sample_env sample_env derivative parent_asset sample_purchase
      (record sample_purchase { buyer_wallet = "thief" }) empty_world refl

settle_pipeline-Settled_example :
    Settled settling sample_settlement empty_world
      (settle_pipeline settling sample_settlement empty_world)
unfolding booked delivered
settle_pipeline-Settled_example =
    settle_pipeline-Settled settling sample_settlement empty_world (tt, refl)
