-- ===== src/Lib.antt =====
-- VeriProof: agents negotiate the price of a work, pay on Solana, and get a license; royalties of a
-- derivative are shared with the parent's creator. A buyer's request reaches the negotiation endpoint,
-- whose engine asks Gemini for a price within the seller's bounds. A payment is then verified on the
-- chain, and the settlement pipeline grants the license, issues a certificate, mirrors and logs it, and
-- distributes the royalties. A batch order grants the licenses of many assets under one payment.
--
-- Files and code, by paths from the repository's root:
--   Models         veriproof/apps/{ip,negotiation,settlement,common}/models.py: the rows. `World` is the
--                  database with the logs of the mirror, of the audit sink and of the transfers.
--   Env            veriproof/config/settings.py, and what the services take from outside: the clock,
--                  uuid, secrets, str.strip, the database's answer to the insert of an event.
--   Money          veriproof/services/_types.py and the conversions to units of royalty_service.py,
--                  batch_services.py, solana_service.py and x402_protocol_service.py; Money/Rounding.
--   Payment        veriproof/services/_payment.py: `resolve_pay_to`.
--   Events         veriproof/services/event_recorder.py, firestore_mirror.py and bigquery_sink.py.
--   Negotiation    Engine is veriproof/services/negotiation_engine.py (`run_round`, `_finalize`), View and
--                  View/Handler are veriproof/apps/negotiation/views_api.py (`negotiate`); Engine/Prices,
--                  Engine/Floor, View/Handler/Invariant and View/Handler/Responses hold the proofs.
--   License        veriproof/services/license_service.py (`grant`, `is_licensed`,
--                  `is_download_active`); License/{Idempotence,Access,Registry}.
--   Royalty        veriproof/services/royalty_service.py (`compute_split`, `distribute`, `_settle_leg`);
--                  Royalty/Split, Legs, Ledger and Distribute.
--   Settlement     veriproof/apps/settlement/services.py (`settle_pipeline`); Settlement/Pipeline,
--                  Settlement/Verified and Settlement/Persistence.
--   Batch          veriproof/apps/settlement/batch_services.py: `quote_batch_order` in Batch,
--                  `settle_batch_order` in Batch/Settle; Batch/Totals and Batch/Settle/{Reports,
--                  Outcome,Replay,Keys} hold the proofs.
--   Json, Solana   veriproof/services/solana_service.py: `verify_usdc_payment` and
--                  `verify_sol_payment_transaction` over decoded JSON; Solana/Evidence says what a
--                  payment is, for Solana/Verify/{Soundness,Usdc},
--                  and Solana/Reference for `verify_sol_payment_by_reference`.
--   Buyer          agents/buyer_agent/payments/policy.py (`select`) and payment_approval.py
--                  (`payment_approval_gate`); Buyer/Safety. Of tools.py
--                  `negotiate_usdc_with_list_price_fallback` in Buyer/Bargain, `_resolve_session_id` in
--                  Buyer/Bargain/Memory; Buyer/Bargain/{Published,Bounded,Recalled}.
--   Draft          veriproof/services/registration_draft_service.py (`save`, `confirm`, `consume`,
--                  `mark_executed`); Draft/Confirmation and Draft/Use.
--   Prelude        names, integers, tests and list lemmas that all modules share.
--   Web            veriproof/apps/settlement/views_api.py: `settle` in Web/Settle, `paysh_webhook` in
--                  Web/Webhook, `download` in Web/Download, `batch_negotiate` and `batch_settle` in
--                  Web/Batches; Web/Delivery joins settling and downloading.
--   X402           veriproof/services/x402_service.py; `_base58_encode` in X402/Base58,
--                  `verify_and_settle` of x402_protocol_service.py in X402/Facilitator, and `get_asset`
--                  of veriproof/apps/ip/views_api.py in X402/Access.
--   Sponsored      veriproof/services/sponsored_payment_service.py, and of veriproof/apps/ip/views_api.py
--                  `_create_sponsored_usdc_intent` in Sponsored/Open and
--                  `_settle_sponsored_usdc_intent` in Sponsored/Settle, whose check and commit are two
--                  steps; Sponsored/{Final,Sound,Steps} hold the proofs, and Sponsored/Endpoints has
--                  the endpoints of browser and agent.
--   AgentSol       `get_agent_sol_payment_terms` and `settle_agent_sol_payment` of
--                  veriproof/apps/ip/views_api.py; AgentSol/Evidence.
--   SolPay         `verify_solpay` of veriproof/apps/ip/views_api.py and
--                  veriproof/apps/ip/browser_license_session.py; SolPay/Evidence.
--   Fingerprint    veriproof/services/image_fingerprint.py: `compare`; Fingerprint/Hamming.
--   Flow           steps that read and write tables and may raise, with transactions and handlers.
--   Registration   veriproof/services/registration_service.py: the records in Registration, the private
--                  steps in Registration/Preparation, and `register` in Registration/Register up to its
--                  transaction and in Registration/Completion from there on; subscription_service.py in
--                  Registration/Subscription;
--                  Registration/{Quiet,Audited,Prepared,Transaction,Registered,Within} hold the proofs.
--   Assets         of veriproof/apps/ip/views_api.py `update_asset_terms` in Assets/Update,
--                  `delete_asset` in Assets/Deletion, and `register` in Assets/Register (the form) and
--                  Assets/Submission;
--                  Assets/{Changed,Permitted,Ordered,Sourced,Admitted,Catalogue,Kept,Steps,Deleted}
--                  hold the proofs.
--   System         the requests of both API modules in any order, as a step relation on the tables.
--   Tests          concrete rows, and the theorems at them.
--
-- How the code corresponds. A method of a service is a function from its arguments and the `World`
-- to its result and the `World` afterwards; `none`, `raised` and `crashed` are exceptions, after which
-- the `World` holds what was written before. A function that a fixed branch calls is named for what it
-- does, such as `after_verification`.
--
-- Bounds and numbers. A `Decimal` is an exact integer count of 10^-18, enough for every amount that the
-- columns can hold (six or nine decimals); a price with more decimals than that, which only a request
-- or a model could send, is not modelled, and neither are infinities and NaN. Integers are unbounded,
-- as in Python. JSON numbers are integers. Two loops on a number, `encode_loop` and `count_digits`, have
-- the number as their fuel, which is enough as each round makes it smaller. All other recursion is
-- structural.
--
-- Parameters, not modelled: Gemini's answers (`Negotiate`, `QuoteBatch`), the parsing of decimals and
-- integers, the RPC node's answers, the certificate's issue, the transfer of USDC, the order of rows
-- under `order_by("id")`, the database's refusal of a license in a batch, the x402 SDK, HMAC, Pub/Sub,
-- the storage of originals, and the hashes of an image. Inside one request nothing else runs, but for the
-- sponsored payments, where other requests may come between the check and the commit. A registration's
-- adapters (Pillow, Gemini, the chain, the storage) answer or raise; of its rows the database may refuse
-- that of the work. `System` has the requests that sell, `Assets/Steps` those that manage works, which
-- delete licenses too. The database is taken to accept the save of a certificate's signature, whose
-- failure the code only logs; a draft's id is compared as a text. The assistant's actions
-- (creator_action_service.py), which change works too, are no requests of `Assets/Steps`. The rest of the buyer agent, the creator's services and the HTML pages are not
-- modelled; neither are the clients of cloud services, migrations, templates and scripts.
pub mod Prelude
pub mod Money
pub mod Models
pub mod Env
pub mod Events
pub mod Flow
pub mod Payment
pub mod Negotiation
pub mod License
pub mod Royalty
pub mod Settlement
pub mod Batch
pub mod Json
pub mod Solana
pub mod Buyer
pub mod Draft
pub mod Web
pub mod Sponsored
pub mod X402
pub mod Fingerprint
pub mod AgentSol
pub mod SolPay
pub mod Registration
pub mod Assets
pub mod System
pub mod Tests
