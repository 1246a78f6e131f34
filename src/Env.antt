-- ===== src/Env.antt =====
-- What the services take from outside the repository, and the settings that they read: the clock,
-- `uuid`, `secrets`, `str.strip`, the database's answer to an insert, and
-- veriproof/config/settings.py.
use veri_proof_hackerton.Prelude.{ℕ, String, Bool, Option}
use veri_proof_hackerton.Models.{AgentEvent}

pub record Env : Type 0 where
  -- `timezone.now()` in seconds; one request reads one instant
  pub now : ℕ
  -- the printed UUID and the token of the n-th draw
  pub uuid4 : ℕ → String
  pub token_urlsafe : ℕ → String
  -- `uuid.uuid5(NAMESPACE_URL, name)`, and `uuid.UUID(text)` printed, `none` where it raises
  pub uuid5 : String → String
  pub parse_uuid : String → Option String
  pub strip : String → String
  -- whether `AgentEvent.objects.create` succeeds
  pub insert_event : AgentEvent → Bool
  pub platform_escrow_pubkey : String
  pub usdc_mint_address : String
  pub download_token_ttl_seconds : ℕ
  pub max_negotiation_rounds : ℕ
  pub batch_max_items : ℕ
