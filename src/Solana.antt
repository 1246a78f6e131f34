-- ===== src/Solana.antt =====
-- veriproof/services/solana_service.py: how a payment is verified from a parsed transaction.
-- The RPC node's answers and Python's reading of integers are parameters; `none` is an exception.
pub mod Verify
pub mod Reference
pub mod Evidence
use veri_proof_hackerton.Prelude.{
  any, ℕ, String, Bool, true, false, not, Option, none, some, List, [], ◌∷◌, ◌==◌, ◌&&◌, ◌||◌, ◌*◌,
  if◌then◌else◌, ℤ, pos, ◌+ℤ◌, ◌-ℤ◌, eqb_ℤ, leb_ℤ,
}
use veri_proof_hackerton.Money.{Decimal, usdc_to_min_units, amount_to_lamports, sol_quantum}
use veri_proof_hackerton.Json.{
  Json, null, text, Fields, lookup, get, as_object, as_text, as_list, only_objects, is_text,
  is_null, truthy, hashable, to_int,
}

pub record SolanaService : Type 0 where
  -- the payload of the RPC's `getTransaction`
  pub post_rpc : String → Option Fields
  pub int_of_text : String → Option ℤ

pub record PaymentVerification : Type 0 where
  pub is_valid : Bool
  pub amount : Decimal
  pub sender : Json
  pub slot : ℤ
  pub commitment : Option String
  pub tx_signature : Option String

abbrev pub invalid_payment : ℤ → Option String → PaymentVerification
invalid_payment slot commitment = record {
  is_valid = false;
  amount = pos 0;
  sender = text "";
  slot = slot;
  commitment = commitment;
  tx_signature = none;
}

abbrev pub valid_payment : Decimal → Json → ℤ → String → PaymentVerification
valid_payment amount sender slot tx = record {
  is_valid = true;
  amount = amount;
  sender = sender;
  slot = slot;
  commitment = some "confirmed";
  tx_signature = some tx;
}

unfoldable pub get_transaction : SolanaService → String → Option Fields
get_transaction s signature = if signature == "" then none else s.post_rpc signature

abbrev pub memo_program_id : String
memo_program_id = "MemoSq4gqABAXKb96qnH8TysNcWxMyWCqXgDLGmfcHr"

unfoldable pub instruction_memo : Fields → Option String
instruction_memo instruction =
    if is_text "spl-memo" (get "program" instruction)
      || is_text memo_program_id (get "programId" instruction)
    then as_text (get "parsed" instruction)
    else none

-- `result["transaction"]["message"]["instructions"]`, where each is what it should be.
abbrev pub instructions_of : Fields → Option (List Fields)
instructions_of result = elim (as_object (get "transaction" result)) [
  | none ↦ none
  | some transaction ↦ elim (as_object (get "message" transaction)) [
    | none ↦ none
    | some message ↦ elim (as_list (get "instructions" message)) [
      | none ↦ none
      | some instructions ↦ some (only_objects instructions)
    ]
  ]
]

unfoldable pub transaction_instructions : Fields → List Fields
transaction_instructions result = elim (instructions_of result) [
  | none ↦ []
  | some instructions ↦ instructions
]

abbrev pub has_memo_text : String → Fields → Bool
has_memo_text memo instruction = elim (instruction_memo instruction) [
  | none ↦ false
  | some t ↦ t == memo
]

-- Whether the expected memo, if there is one, is among these instructions.
unfoldable pub has_memo : Option String → List Fields → Bool
has_memo none instructions = true
has_memo (some memo) instructions = any (has_memo_text memo) instructions

-- `int(result.get("slot") or 0)`
unfoldable pub slot_of : SolanaService → Fields → Option ℤ
slot_of s result =
    if truthy (get "slot" result) then to_int s.int_of_text (get "slot" result) else some (pos 0)

-- Token balances by owner, in the order in which the owners appear.
abbrev pub Balances : Type 0
Balances = List (String × ℤ)

abbrev pub balance_of : String → Balances → ℤ
balance_of owner [] = pos 0
balance_of owner ((o, n) ∷ rest) = if o == owner then n else balance_of owner rest

abbrev pub add_units : String → ℤ → Balances → Balances
add_units owner units [] = (owner, units) ∷ []
add_units owner units ((o, n) ∷ rest) =
    if o == owner then (o, n +ℤ units) ∷ rest else (o, n) ∷ add_units owner units rest

-- `item.get("uiTokenAmount", {}).get("amount")`: raises where the first is not a `dict`.
abbrev pub ui_amount : Fields → Option Json
ui_amount entry = elim (lookup "uiTokenAmount" entry) [
  | none ↦ some null
  | some value ↦ elim (as_object value) [ none ↦ none | some fields ↦ some (get "amount" fields) ]
]

abbrev pub counted : Option String → Option ℤ → Balances → Balances
counted none units balances = balances
counted (some owner) none balances = balances
counted (some owner) (some units) balances = add_units owner units balances

abbrev pub sum_balances : SolanaService → String → List Fields → Balances → Option Balances
sum_balances s mint [] balances = some balances
sum_balances s mint (entry ∷ rest) balances =
    if not (is_text mint (get "mint" entry))
    then sum_balances s mint rest balances
    else elim (ui_amount entry) [
      | none ↦ none
      | some amount ↦
          sum_balances s mint rest
            (counted (as_text (get "owner" entry)) (to_int s.int_of_text amount) balances)
    ]

unfoldable pub token_balances_by_owner : SolanaService → Json → String → Option Balances
token_balances_by_owner s raw mint = elim (as_list raw) [
  | none ↦ some []
  | some entries ↦ sum_balances s mint (only_objects entries) []
]

-- The first owner who lost the units; the empty text if none did.
abbrev payer : ℤ → Balances → Balances → String
payer units [] post = ""
payer units ((owner, before) ∷ rest) post =
    if leb_ℤ units (before -ℤ balance_of owner post) then owner else payer units rest post

abbrev pub delta_sender : String → ℤ → Balances → Balances → Option String
delta_sender recipient units pre post =
    if eqb_ℤ (balance_of recipient post -ℤ balance_of recipient pre) units
    then some (payer units pre post)
    else none

-- `_verify_token_balance_delta`: an exception, no match, or the sender.
unfoldable pub verify_token_balance_delta :
    SolanaService → Fields → String → ℤ → String → Option (Option String)
verify_token_balance_delta s meta recipient units mint =
    elim (token_balances_by_owner s (get "preTokenBalances" meta) mint) [
      | none ↦ none
      | some pre ↦ elim (token_balances_by_owner s (get "postTokenBalances" meta) mint) [
        | none ↦ none
        | some post ↦ some (delta_sender recipient units pre post)
      ]
    ]

pub record TokenTransfer : Type 0 where
  pub amount : ℤ
  pub authority : Json
  pub destination : String
  pub mint : Json
  pub source : Json

abbrev pub raw_amount : Fields → Json
raw_amount info =
    if is_null (get "amount" info)
    then elim (as_object (get "tokenAmount" info)) [
      | none ↦ null
      | some fields ↦ get "amount" fields
    ]
    else get "amount" info

abbrev pub read_transfer : Fields → Option String → Option ℤ → Option TokenTransfer
read_transfer info none amount = none
read_transfer info (some destination) none = none
read_transfer info (some destination) (some amount) = some record {
  amount = amount;
  authority = get "authority" info;
  destination = destination;
  mint = get "mint" info;
  source = get "source" info;
}

abbrev pub info_of : Fields → Option Fields
info_of parsed = as_object (get "info" parsed)

abbrev pub is_token_transfer : Json → Bool
is_token_transfer type = is_text "transfer" type || is_text "transferChecked" type

abbrev pub transfer_of : SolanaService → Option Fields → Option TokenTransfer
transfer_of s none = none
transfer_of s (some info) =
    read_transfer info (as_text (get "destination" info)) (to_int s.int_of_text (raw_amount info))

-- `none` is the TypeError of asking whether a list or a `dict` is in a set.
unfoldable pub instruction_token_transfer : SolanaService → Fields → Option (Option TokenTransfer)
instruction_token_transfer s instruction =
    if is_text "spl-token" (get "program" instruction)
    then elim (as_object (get "parsed" instruction)) [
      | none ↦ some none
      | some parsed ↦
          if not (hashable (get "type" parsed))
          then none
          else if is_token_transfer (get "type" parsed)
          then some (transfer_of s (info_of parsed))
          else some none
    ]
    else some none

-- `a or b`
abbrev pub or_json : Json → Json → Json
or_json a b = if truthy a then a else b

-- The transfer of the loop: of the mint or of none that it names, to the recipient, of the units.
abbrev pub pays : String → ℤ → String → TokenTransfer → Bool
pays recipient units mint t =
    (is_text mint t.mint || is_null t.mint) && (t.destination == recipient && eqb_ℤ t.amount units)

-- What the loop does with one instruction: go on, raise, or stop at a payment.
abbrev pub first_payment :
    SolanaService → String → ℤ → String → List Fields → Option (Option TokenTransfer)
first_payment s recipient units mint [] = some none
first_payment s recipient units mint (instruction ∷ rest) =
    elim (instruction_token_transfer s instruction) [
      | none ↦ none
      | some none ↦ first_payment s recipient units mint rest
      | some (some t) ↦
          if not (hashable t.mint)
          then none
          else if pays recipient units mint t
          then some (some t)
          else first_payment s recipient units mint rest
    ]

unfoldable pub verify_token_instruction :
    SolanaService → Fields → String → ℤ → String → Option (Option Json)
unfolding transaction_instructions
verify_token_instruction s result recipient units mint =
    elim (first_payment s recipient units mint (transaction_instructions result)) [
      | none ↦ none
      | some none ↦ some none
      | some (some t) ↦ some (some (or_json t.authority (or_json t.source (text ""))))
    ]
