-- ===== src/Tests/Buyers.antt =====
-- The buyer agent's guards at concrete requests.
use veri_proof_hackerton.Prelude.{
  String, true, Option, none, some, [], ◌∷◌, ◌≡◌, refl, ℤ, pos, ◌==◌, if◌then◌else◌, ℕ, zero, suc,
  List, map, ◌*◌, ◌/◌, ◌^◌,
}
use veri_proof_hackerton.Buyer.{
  PaymentRequirements, AutonomousPaymentPolicy, select_requirement, ToolState, stored,
  payment_approval_gate, approval_required,
}
use veri_proof_hackerton.Json.{Json, object, field, end, text, array, item, nil}
use veri_proof_hackerton.Buyer.Bargain.{
  Seller, Sessions, Bargained, Attempt, negotiate_usdc_with_list_price_fallback,
  negotiate_usdc_license, published_usdc_list_price, first_amount, keep_session,
}
use veri_proof_hackerton.Buyer.Bargain.Recalled.{EndsBargained, fallback-EndsBargained}
use veri_proof_hackerton.Buyer.Safety.{
  IsChoice, select_requirement-IsChoice, payment_approval_gate_once,
}

abbrev read_amount : String → Option ℤ
read_amount digits = if digits == "500" then some (pos 500) else none

abbrev sample_policy : AutonomousPaymentPolicy
sample_policy = record {
  enabled = true;
  network = "solana:devnet";
  asset = "usdc";
  max_atomic_amount = pos 1000;
}

abbrev asked : String → PaymentRequirements
asked amount = record {
  scheme = "exact";
  network = "solana:devnet";
  asset = "usdc";
  amount = amount;
}

select_requirement-IsChoice_example :
    IsChoice read_amount sample_policy 2
      (asked "many" ∷ asked "500" ∷ [])
      (select_requirement read_amount sample_policy 2 (asked "many" ∷ asked "500" ∷ []))
select_requirement-IsChoice_example =
    select_requirement-IsChoice read_amount sample_policy 2 (asked "many" ∷ asked "500" ∷ [])

abbrev approved_state : ToolState
approved_state = record { mode = some "approval"; approval = stored "work" "usdc" "approved" }

abbrev consumed_state : ToolState
consumed_state = record { mode = some "approval"; approval = stored "work" "usdc" "consumed" }

payment_approval_gate_once_example :
    ((approved_state.approval.asset_id ≡ some "work")
      × (approved_state.approval.payment_method ≡ some "usdc")
      × (approved_state.approval.decision ≡ some "approved"))
    × ((payment_approval_gate (λ id. some id) consumed_state "work" "usdc").0
        ≡ approval_required "work" "usdc")
unfolding payment_approval_gate
payment_approval_gate_once_example =
    payment_approval_gate_once (λ id. some id) approved_state consumed_state "work" "usdc" "work"
      refl refl refl

-- A seller that counters the first offer at 7, rejects 7, and takes the published price of 9. Its
-- state counts the offers.
abbrev said : String → String → Json
said status price = object (
    field "status" (text status)
      (field "price_usdc" (text price) (field "session_id" (text "session") end)))

abbrev reply_number : ℕ → Json
reply_number zero = said "COUNTER_OFFER" "7"
reply_number (suc zero) = said "REJECT" ""
reply_number (suc (suc n)) = said "ACCEPT" "9"

abbrev listing : Json
listing = object (
    field "accepts"
      (array
        (item (object (field "asset" (text "usdc") (field "amount" (text "9000000") end))) nil))
      end)

abbrev sample_seller : Seller ℕ ℕ
sample_seller = record {
  post_offer = λ id offer n. some (record { http_status = 200; body = reply_number n }, suc n);
  get_terms = λ id n. some (some listing, n);
  float_of = λ json. some 7;
  atomic_of = λ json. some (pos (9000000 * 10 ^ 18));
  float_of_micro = λ micro. micro / 10 ^ 6;
  parse_uuid = λ t. some t;
  usdc_mint_address = "usdc";
}

abbrev offers_of : Option (Bargained ℕ × Sessions × ℕ) → List ℕ
offers_of none = []
offers_of (some (b, sessions, n)) = map (λ (a : Attempt ℕ). a.offer) b.attempts

abbrev sessions_of : Option (Bargained ℕ × Sessions × ℕ) → Sessions
sessions_of none = []
sessions_of (some (b, sessions, n)) = sessions

-- Three offers, and the last one's session is remembered.
three_offers :
    offers_of (negotiate_usdc_with_list_price_fallback sample_seller "asset" 5 [] 0)
    ≡ 5 ∷ 7 ∷ 9 ∷ []
unfolding negotiate_usdc_with_list_price_fallback negotiate_usdc_license published_usdc_list_price
    first_amount
three_offers = refl

agreed_session :
    sessions_of (negotiate_usdc_with_list_price_fallback sample_seller "asset" 5 [] 0)
    ≡ ("asset", "session") ∷ []
unfolding negotiate_usdc_with_list_price_fallback negotiate_usdc_license published_usdc_list_price
    first_amount keep_session
agreed_session = refl

fallback-EndsBargained_example :
    EndsBargained sample_seller "asset" "asset" 5
      (negotiate_usdc_with_list_price_fallback sample_seller "asset" 5 [] 0)
fallback-EndsBargained_example = fallback-EndsBargained sample_seller "asset" "asset" 5 [] 0 refl
