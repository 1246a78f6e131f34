-- ===== src/Negotiation.antt =====
-- Autonomous negotiation: the engine of one round, and the HTTP view that runs it.
pub mod Engine
pub mod View
