-- ===== src/Tests/Sales.antt =====
-- Sales by x402, fingerprints and the registry of licenses at concrete values.
use veri_proof_hackerton.Prelude.{
  Bool, pos, String, true, false, some, List, [], ◌∷◌, ◌≡◌, refl, arith, ℕ,
}
use veri_proof_hackerton.Royalty.Ledger.{booked, delivered}
use veri_proof_hackerton.License.{grant, new_license}
use veri_proof_hackerton.License.Registry.{registry_of, claim, grant-claim}
use veri_proof_hackerton.X402.Base58.{base58_encode_injective, encode_loop, encode_loop_ends}
use veri_proof_hackerton.X402.Facilitator.{Server, Ran, verify_and_settle, verify_and_settle-Ran}
use veri_proof_hackerton.X402.Access.{Visit, Shop, get_asset}
use veri_proof_hackerton.X402.Access.Justified.{IsJustified, get_asset-IsJustified}
use veri_proof_hackerton.Fingerprint.{bits_to_int, hamming}
use veri_proof_hackerton.Fingerprint.Hamming.{count_differences, hamming-bits_to_int}
use veri_proof_hackerton.Sponsored.{is_for_sale}
use veri_proof_hackerton.Events.{record_event}
use veri_proof_hackerton.Money.{amount_to_lamports}
use veri_proof_hackerton.Solana.{get_transaction, slot_of, has_memo, instruction_memo}
use veri_proof_hackerton.Solana.Verify.{verify_sol_payment_transaction, instruction_transfer}
use veri_proof_hackerton.Payment.{resolve_pay_to}
use veri_proof_hackerton.Settlement.{settle_pipeline, verify_payment, settle_verified, finish}
use veri_proof_hackerton.Solana.Reference.{verify_sol_payment_by_reference}
use veri_proof_hackerton.SolPay.{
  SolPayDesk, BrowserSession, SolPayReply, paid, pending, verify_solpay,
}
use veri_proof_hackerton.SolPay.Evidence.{IsEarned, verify_solpay-IsEarned}
use veri_proof_hackerton.AgentSol.{
  SolDesk, SolReply, purchased, announced, settle_agent_sol_payment,
}
use veri_proof_hackerton.AgentSol.Evidence.{IsEvident, settle_agent_sol_payment-IsEvident}
use veri_proof_hackerton.Solana.Verify.Soundness.{answering}
use veri_proof_hackerton.Json.{number, text, array, object, Fields, end, field, nil, item}
use veri_proof_hackerton.Tests.Chains.{no_text}
use veri_proof_hackerton.Tests.Web.{sample_library, sample_request}
use veri_proof_hackerton.Tests.{
  sample_env, derivative, empty_world, licensing, sample_purchase, settling,
}

abbrev key : List ℕ
key = 0 ∷ 7 ∷ 255 ∷ []

encode_loop_ends_example : encode_loop 5000 4000 [] ≡ encode_loop 4000 4000 []
encode_loop_ends_example = encode_loop_ends 5000 4000 4000 [] (omega arith) (omega arith)

base58_encode_injective_example : key ≡ 0 ∷ 7 ∷ 255 ∷ []
base58_encode_injective_example =
    base58_encode_injective key (0 ∷ 7 ∷ 255 ∷ []) (omega arith, (omega arith, (omega arith, tt)))
      (omega arith, (omega arith, (omega arith, tt))) refl refl

hamming-bits_to_int_example :
    hamming (bits_to_int (true ∷ false ∷ true ∷ [])) (bits_to_int (false ∷ false ∷ true ∷ []))
    ≡ count_differences (true ∷ false ∷ true ∷ []) (false ∷ false ∷ true ∷ [])
hamming-bits_to_int_example =
    hamming-bits_to_int (true ∷ false ∷ true ∷ []) (false ∷ false ∷ true ∷ []) refl

grant-claim_example :
    (
      (grant licensing sample_env derivative sample_purchase empty_world).0,
      registry_of (grant licensing sample_env derivative sample_purchase empty_world).1,
    )
    ≡ claim "tx1"
        (new_license licensing sample_env derivative sample_purchase 0)
        (registry_of empty_world)
grant-claim_example = grant-claim licensing sample_env derivative sample_purchase empty_world

-- A facilitator that finds every payment valid and settles it.
abbrev facilitator : Server
facilitator = record {
  Payload = String;
  Requirements = String;
  Challenge = String;
  decode = λ header. some header;
  matching = λ challenge payload. some challenge;
  verify_payment = λ payload requirements. some (record { is_valid = true });
  settle_payment = λ payload requirements. some (record {
    success = true;
    transaction = some "tx9";
    payer = some "buyer";
    network = "devnet";
  });
  encode_response = λ r. "response";
}

verify_and_settle-Ran_example :
    Ran facilitator "signed" "terms" (verify_and_settle facilitator "signed" "terms")
verify_and_settle-Ran_example = verify_and_settle-Ran facilitator "signed" "terms"

abbrev shop : Shop
shop = record {
  settlement = settling;
  server = facilitator;
  lower = λ t. t;
  random_key = 1 ∷ [];
  challenge = λ payee units mint memo uri. some memo;
}

abbrev visit : Visit
visit = record { header = λ name. some "signed"; session_id = ""; uri = "/" }

get_asset-IsJustified_example :
    IsJustified shop visit "parent" empty_world (get_asset shop visit "parent" empty_world)
unfolding booked delivered
get_asset-IsJustified_example = get_asset-IsJustified shop visit "parent" empty_world (tt, refl)

-- A transfer of ten SOL to the creator, and the memo of the asset.
abbrev sol_sale : String → Fields
sol_sale memo =
    field "transaction"
      (object (
        field "message"
          (object (
            field "instructions"
              (array (
                item
                  (object (
                    field "program" (text "system") (
                      field "parsed"
                        (object (
                          field "type" (text "transfer") (
                            field "info"
                              (object (
                                field "destination" (text "parent_wallet") (
                                  field "source" (text "buyer")
                                    (field "lamports" (number (pos 10_000_000_000)) end))))
                              end)))
                        end)))
                  (item
                    (object (field "program" (text "spl-memo") (field "parsed" (text memo) end)))
                    nil)))
              end))
          end))
      end

abbrev desk : SolDesk
desk = record {
  settlement = settling;
  solana = answering no_text (sol_sale "VERIPROOF:parent:SOL");
  lib = sample_library;
  is_valid_pubkey = λ key. true;
  is_rpc_error = λ signature. true;
}

settle_agent_sol_payment-IsEvident_example :
    IsEvident desk "" "parent" empty_world
      (settle_agent_sol_payment desk sample_request "" "parent" empty_world)
unfolding booked delivered
settle_agent_sol_payment-IsEvident_example =
    settle_agent_sol_payment-IsEvident desk sample_request "" "parent" empty_world (tt, refl)

abbrev is_purchased : SolReply → Bool
is_purchased (purchased r) = true
is_purchased (announced payee amount memo) = false
is_purchased (SolReply.error f) = false
is_purchased SolReply.crashed = false

-- The run of the example above is a purchase.
settle_agent_sol_payment_run :
    is_purchased (settle_agent_sol_payment desk sample_request "" "parent" empty_world).0 ≡ true
unfolding settle_agent_sol_payment is_for_sale record_event amount_to_lamports
    verify_sol_payment_transaction get_transaction slot_of has_memo instruction_memo
    instruction_transfer resolve_pay_to settle_pipeline verify_payment settle_verified finish
settle_agent_sol_payment_run = refl

abbrev solpay_desk : SolPayDesk
solpay_desk = record {
  settlement = settling;
  solana = answering no_text (sol_sale "VERIPROOF:parent");
  signatures = λ address limit.
      some (field "result" (array (item (object (field "signature" (text "sig") end)) nil)) end);
  lib = record sample_library {
    loads = λ body. some (object (field "reference" (text "ref") end));
  };
  is_valid_pubkey = λ key. true;
  is_rpc_error = λ asked. true;
}

abbrev browsing : BrowserSession
browsing = record { reference = "ref"; asset_id = "parent"; created_at = 900 } ∷ []

verify_solpay-IsEarned_example :
    let (reply, session, w) =
      verify_solpay solpay_desk sample_request browsing (some "user") "parent" empty_world in
    IsEarned solpay_desk browsing "user" "parent" empty_world reply w
unfolding booked delivered
verify_solpay-IsEarned_example =
    verify_solpay-IsEarned solpay_desk sample_request browsing "user" "parent" empty_world
      (tt, refl)

abbrev is_paid : SolPayReply → Bool
is_paid (paid r) = true
is_paid pending = false
is_paid (SolPayReply.error f) = false
is_paid SolPayReply.crashed = false

-- The run of the example above is a sale.
verify_solpay_run :
    is_paid (verify_solpay solpay_desk sample_request browsing (some "user") "parent" empty_world).0
    ≡ true
unfolding verify_solpay is_for_sale verify_sol_payment_by_reference amount_to_lamports
    verify_sol_payment_transaction get_transaction slot_of has_memo instruction_memo
    instruction_transfer resolve_pay_to settle_pipeline verify_payment settle_verified finish
verify_solpay_run = refl
