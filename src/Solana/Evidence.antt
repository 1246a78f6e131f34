-- ===== src/Solana/Evidence.antt =====
-- What stands in a parsed transaction for a payment of veriproof/services/solana_service.py, said
-- without the verifier: memos, transfers and token balances in the JSON of the RPC node.
use veri_proof_hackerton.Prelude.{
  any-Any, Any, String, Bool, true, false, not, Option, none, some, List, [], ◌∷◌, ◌==◌, ◌&&◌, ◌||◌,
  ◌⊎◌, inl, inr, if◌then◌else◌, ℤ, pos, ◌+ℤ◌, eqb_ℤ, ◌≡◌, refl, sym, ap, ◌∙◌, arith, eq_iff,
  both_true, eq_of_parts, int_laws,
}
use veri_proof_hackerton.Json.{
  Json, null, bool, number, text, array, object, Fields, get, as_object, as_text, is_text, is_null,
  to_int, hashable, as_list, only_objects,
}
use veri_proof_hackerton.Solana.{
  SolanaService, has_memo, has_memo_text, instruction_memo, memo_program_id, TokenTransfer, pays,
  instruction_token_transfer, raw_amount, read_transfer, info_of, is_token_transfer, transfer_of,
  ui_amount, sum_balances, counted, Balances, balance_of, add_units, token_balances_by_owner,
}
use veri_proof_hackerton.Solana.Verify.{
  SolPayment, SolTransfer, UsdcPayment, instruction_transfer, pays_sol, read_sol, sol_info,
}

pub as_object-eq : (j : Json) (fields : Fields) → as_object j ≡ some fields → j ≡ object fields
as_object-eq (object f) fields h = cc
as_object-eq null fields h = absurd cc
as_object-eq (bool b) fields h = absurd cc
as_object-eq (number n) fields h = absurd cc
as_object-eq (text t) fields h = absurd cc
as_object-eq (array xs) fields h = absurd cc

pub as_text-eq : (j : Json) (t : String) → as_text j ≡ some t → j ≡ text t
as_text-eq (text s) t h = cc
as_text-eq (object f) t h = absurd cc
as_text-eq null t h = absurd cc
as_text-eq (bool b) t h = absurd cc
as_text-eq (number n) t h = absurd cc
as_text-eq (array xs) t h = absurd cc

pub is_text-eq : (t : String) (j : Json) → is_text t j ≡ true → j ≡ text t
is_text-eq t (text s) h = ap (λ x. text x) ((eq_iff s t).0 h)
is_text-eq t (object f) h = absurd cc
is_text-eq t null h = absurd cc
is_text-eq t (bool b) h = absurd cc
is_text-eq t (number n) h = absurd cc
is_text-eq t (array xs) h = absurd cc

pub is_null-eq : (j : Json) → is_null j ≡ true → j ≡ null
is_null-eq null h = refl
is_null-eq (text s) h = absurd cc
is_null-eq (object f) h = absurd cc
is_null-eq (bool b) h = absurd cc
is_null-eq (number n) h = absurd cc
is_null-eq (array xs) h = absurd cc

pub or_true : (a b : Bool) → (a || b) ≡ true → (a ≡ true) ⊎ (b ≡ true)
or_true true b h = inl refl
or_true false b h = inr h

pub eqb_ℤ-eq : (a b : ℤ) → eqb_ℤ a b ≡ true → a ≡ b
eqb_ℤ-eq a b h = ground (arith, eq_of_parts a b)

-- A memo instruction with this text.
abbrev pub IsMemo : String → Fields → Type 0
IsMemo memo x =
    ((get "program" x ≡ text "spl-memo")
      ⊎ (get "programId" x ≡ text "MemoSq4gqABAXKb96qnH8TysNcWxMyWCqXgDLGmfcHr"))
    × (get "parsed" x ≡ text memo)

-- The expected memo, if there is one, is in a memo instruction.
abbrev pub IsMarked : Option String → List Fields → Type 0
IsMarked none instructions = Unit
IsMarked (some memo) instructions = Any (IsMemo memo) instructions

has_memo_text-IsMemo : (memo : String) (x : Fields) → has_memo_text memo x ≡ true → IsMemo memo x
unfolding instruction_memo
has_memo_text-IsMemo memo x h =
    go (is_text "spl-memo" (get "program" x) || is_text memo_program_id (get "programId" x)) refl h
  where
    read :
        (o : Option String)
        → as_text (get "parsed" x) ≡ o
        → (elim o [ none ↦ false | some t ↦ t == memo ]) ≡ true
        → get "parsed" x ≡ text memo
    read none e k = absurd cc
    read (some t) e k = as_text-eq (get "parsed" x) t e ∙ ap (λ s. text s) ((eq_iff t memo).0 k)

    program :
        (is_text "spl-memo" (get "program" x) ≡ true)
          ⊎ (is_text memo_program_id (get "programId" x) ≡ true)
        → (get "program" x ≡ text "spl-memo")
          ⊎ (get "programId" x ≡ text "MemoSq4gqABAXKb96qnH8TysNcWxMyWCqXgDLGmfcHr")
    program (inl e) = inl (is_text-eq _ _ e)
    program (inr e) = inr (is_text-eq _ _ e)

    go :
        (b : Bool)
        → (is_text "spl-memo" (get "program" x) || is_text memo_program_id (get "programId" x)) ≡ b
        → (elim (if b then as_text (get "parsed" x) else none) [
          | none ↦ false
          | some t ↦ t == memo
        ])
          ≡ true
        → IsMemo memo x
    go true e k = (program (or_true _ _ e), read (as_text (get "parsed" x)) refl k)
    go false e k = absurd cc

pub has_memo-IsMarked :
    (memo : Option String) (instructions : List Fields)
    → has_memo memo instructions ≡ true
    → IsMarked memo instructions
unfolding has_memo
has_memo-IsMarked none instructions h = tt
has_memo-IsMarked (some memo) instructions h =
    any-Any (IsMemo memo) (has_memo_text memo) instructions (has_memo_text-IsMemo memo) h

-- A transfer of the system program, of the lamports to the recipient.
pub record IsSolTransfer (s : SolanaService) (p : SolPayment) (x : Fields) : Type 0 where
  pub parsed : Fields
  pub info : Fields
  pub program : get "program" x ≡ text "system"
  pub has_parsed : get "parsed" x ≡ object parsed
  pub type : get "type" parsed ≡ text "transfer"
  pub has_info : get "info" parsed ≡ object info
  pub destination : get "destination" info ≡ text p.recipient
  pub lamports : to_int s.int_of_text (get "lamports" info) ≡ some (pos p.lamports)

pub pays_by-IsSolTransfer :
    (s : SolanaService) (p : SolPayment) (x : Fields) (t : SolTransfer)
    → instruction_transfer s x ≡ some t
    → pays_sol p t ≡ true
    → IsSolTransfer s p x
unfolding instruction_transfer
pays_by-IsSolTransfer s p x t h paid = at_program (is_text "system" (get "program" x)) refl h
  where
    there : t.destination ≡ p.recipient
    there =
        (eq_iff t.destination p.recipient).0
          (both_true (t.destination == p.recipient) (eqb_ℤ t.lamports (pos p.lamports)) paid).0

    whole : t.lamports ≡ pos p.lamports
    whole =
        eqb_ℤ-eq t.lamports (pos p.lamports)
          (both_true (t.destination == p.recipient) (eqb_ℤ t.lamports (pos p.lamports)) paid).1

    read :
        (parsed info : Fields) (d source : Option String) (n : Option ℤ)
        → get "program" x ≡ text "system"
        → get "parsed" x ≡ object parsed
        → get "type" parsed ≡ text "transfer"
        → get "info" parsed ≡ object info
        → as_text (get "destination" info) ≡ d
        → to_int s.int_of_text (get "lamports" info) ≡ n
        → read_sol d source n ≡ some t
        → IsSolTransfer s p x
    read parsed info none source n ep eo et ei ed en k = absurd cc
    read parsed info (some d) none n ep eo et ei ed en k = absurd cc
    read parsed info (some d) (some source) none ep eo et ei ed en k = absurd cc
    read parsed info (some d) (some source) (some n) ep eo et ei ed en k = record {
      parsed = parsed;
      info = info;
      program = ep;
      has_parsed = eo;
      type = et;
      has_info = ei;
      destination =
          as_text-eq (get "destination" info) d ed
          ∙ ap (λ o. elim o [ none ↦ text d | some v ↦ text v.destination ]) k
          ∙ ap (λ v. text v) there;
      lamports =
          en
          ∙ ap (λ o. elim o [ none ↦ some n | some v ↦ some v.lamports ]) k
          ∙ ap (λ v. some v) whole;
    }

    at_info :
        (parsed : Fields) (o : Option Fields)
        → get "program" x ≡ text "system"
        → get "parsed" x ≡ object parsed
        → get "type" parsed ≡ text "transfer"
        → as_object (get "info" parsed) ≡ o
        → sol_info s o ≡ some t
        → IsSolTransfer s p x
    at_info parsed none ep eo et ei k = absurd cc
    at_info parsed (some info) ep eo et ei k =
        read parsed info _ (as_text (get "source" info)) _ ep eo et (as_object-eq _ info ei) refl
          refl k

    at_type :
        (parsed : Fields) (b : Bool)
        → get "program" x ≡ text "system"
        → get "parsed" x ≡ object parsed
        → is_text "transfer" (get "type" parsed) ≡ b
        → (if b then sol_info s (as_object (get "info" parsed)) else none) ≡ some t
        → IsSolTransfer s p x
    at_type parsed false ep eo et k = absurd cc
    at_type parsed true ep eo et k = at_info parsed _ ep eo (is_text-eq _ _ et) refl k

    at_parsed :
        (o : Option Fields)
        → get "program" x ≡ text "system"
        → as_object (get "parsed" x) ≡ o
        → (elim o [
          | none ↦ none
          | some parsed ↦
              if is_text "transfer" (get "type" parsed)
              then sol_info s (as_object (get "info" parsed))
              else none
        ])
          ≡ some t
        → IsSolTransfer s p x
    at_parsed none ep eo k = absurd cc
    at_parsed (some parsed) ep eo k = at_type parsed _ ep (as_object-eq _ parsed eo) refl k

    at_program :
        (b : Bool)
        → is_text "system" (get "program" x) ≡ b
        → (if b
            then elim (as_object (get "parsed" x)) [
              | none ↦ none
              | some parsed ↦
                  if is_text "transfer" (get "type" parsed)
                  then sol_info s (as_object (get "info" parsed))
                  else none
            ]
            else none)
          ≡ some t
        → IsSolTransfer s p x
    at_program false e k = absurd cc
    at_program true e k = at_parsed _ (is_text-eq _ _ e) refl k

-- The amount of a token transfer, where it stands on its own or inside `tokenAmount`.
abbrev pub IsAmount : SolanaService → Fields → ℤ → Type 0
IsAmount s info units =
    (to_int s.int_of_text (get "amount" info) ≡ some units)
    ⊎ ((get "amount" info ≡ null)
        × ((fields : Fields) × (get "tokenAmount" info ≡ object fields)
            × (to_int s.int_of_text (get "amount" fields) ≡ some units)))

-- A token transfer of the units to the recipient, in the mint or in one that it does not name.
pub record IsTokenTransfer (s : SolanaService) (p : UsdcPayment) (units : ℤ) (x : Fields)
    : Type 0 where
  pub parsed : Fields
  pub info : Fields
  pub program : get "program" x ≡ text "spl-token"
  pub has_parsed : get "parsed" x ≡ object parsed
  pub type : (get "type" parsed ≡ text "transfer") ⊎ (get "type" parsed ≡ text "transferChecked")
  pub has_info : get "info" parsed ≡ object info
  pub destination : get "destination" info ≡ text p.recipient
  pub mint : (get "mint" info ≡ text p.mint) ⊎ (get "mint" info ≡ null)
  pub amount : IsAmount s info units

raw_amount-IsAmount :
    (s : SolanaService) (info : Fields) (units : ℤ)
    → to_int s.int_of_text (raw_amount info) ≡ some units
    → IsAmount s info units
raw_amount-IsAmount s info units h = go (is_null (get "amount" info)) refl h
  where
    within :
        (o : Option Fields)
        → get "amount" info ≡ null
        → as_object (get "tokenAmount" info) ≡ o
        → to_int s.int_of_text (elim o [ none ↦ null | some fields ↦ get "amount" fields ])
          ≡ some units
        → IsAmount s info units
    within none e eo k = absurd cc
    within (some fields) e eo k = inr (e, (fields, as_object-eq _ fields eo, k))

    go :
        (b : Bool)
        → is_null (get "amount" info) ≡ b
        → to_int s.int_of_text (
            if b
            then elim (as_object (get "tokenAmount" info)) [
              | none ↦ null
              | some fields ↦ get "amount" fields
            ]
            else get "amount" info)
          ≡ some units
        → IsAmount s info units
    go true e k = within _ (is_null-eq _ e) refl k
    go false e k = inl k

pub token_pays-IsTokenTransfer :
    (s : SolanaService) (p : UsdcPayment) (units : ℤ) (x : Fields) (t : TokenTransfer)
    → instruction_token_transfer s x ≡ some (some t)
    → pays p.recipient units p.mint t ≡ true
    → IsTokenTransfer s p units x
unfolding instruction_token_transfer
token_pays-IsTokenTransfer s p units x t h paid =
    at_program (is_text "spl-token" (get "program" x)) refl h
  where
    of_mint : (is_text p.mint t.mint || is_null t.mint) ≡ true
    of_mint =
        (both_true (is_text p.mint t.mint || is_null t.mint)
          (t.destination == p.recipient && eqb_ℤ t.amount units) paid).0

    rest : (t.destination == p.recipient && eqb_ℤ t.amount units) ≡ true
    rest =
        (both_true (is_text p.mint t.mint || is_null t.mint)
          (t.destination == p.recipient && eqb_ℤ t.amount units) paid).1

    there : t.destination ≡ p.recipient
    there =
        (eq_iff t.destination p.recipient).0
          (both_true (t.destination == p.recipient) (eqb_ℤ t.amount units) rest).0

    whole : t.amount ≡ units
    whole =
        eqb_ℤ-eq t.amount units
          (both_true (t.destination == p.recipient) (eqb_ℤ t.amount units) rest).1

    minted : (m : Json) → m ≡ t.mint → (m ≡ text p.mint) ⊎ (m ≡ null)
    minted m e = elim (or_true (is_text p.mint t.mint) (is_null t.mint) of_mint) [
      | inl k ↦ inl (e ∙ is_text-eq p.mint t.mint k)
      | inr k ↦ inr (e ∙ is_null-eq t.mint k)
    ]

    read :
        (parsed info : Fields) (d : Option String) (n : Option ℤ)
        → get "program" x ≡ text "spl-token"
        → get "parsed" x ≡ object parsed
        → (get "type" parsed ≡ text "transfer") ⊎ (get "type" parsed ≡ text "transferChecked")
        → get "info" parsed ≡ object info
        → as_text (get "destination" info) ≡ d
        → to_int s.int_of_text (raw_amount info) ≡ n
        → read_transfer info d n ≡ some t
        → IsTokenTransfer s p units x
    read parsed info none n ep eo et ei ed en k = absurd cc
    read parsed info (some d) none ep eo et ei ed en k = absurd cc
    read parsed info (some d) (some n) ep eo et ei ed en k = record {
      parsed = parsed;
      info = info;
      program = ep;
      has_parsed = eo;
      type = et;
      has_info = ei;
      destination =
          as_text-eq (get "destination" info) d ed
          ∙ ap (λ o. elim o [ none ↦ text d | some v ↦ text v.destination ]) k
          ∙ ap (λ v. text v) there;
      mint = minted (get "mint" info) (ap (λ o. elim o [ none ↦ null | some v ↦ v.mint ]) k);
      amount = raw_amount-IsAmount s info units (
          en
          ∙ ap (λ o. elim o [ none ↦ some n | some v ↦ some v.amount ]) k
          ∙ ap (λ v. some v) whole);
    }

    at_info :
        (parsed : Fields) (o : Option Fields)
        → get "program" x ≡ text "spl-token"
        → get "parsed" x ≡ object parsed
        → (get "type" parsed ≡ text "transfer") ⊎ (get "type" parsed ≡ text "transferChecked")
        → as_object (get "info" parsed) ≡ o
        → transfer_of s o ≡ some t
        → IsTokenTransfer s p units x
    at_info parsed none ep eo et ei k = absurd cc
    at_info parsed (some info) ep eo et ei k =
        read parsed info _ _ ep eo et (as_object-eq _ info ei) refl refl k

    typed :
        (j : Json)
        → is_token_transfer j ≡ true
        → (j ≡ text "transfer") ⊎ (j ≡ text "transferChecked")
    typed j e = elim (or_true (is_text "transfer" j) (is_text "transferChecked" j) e) [
      | inl k ↦ inl (is_text-eq _ j k)
      | inr k ↦ inr (is_text-eq _ j k)
    ]

    at_type :
        (parsed : Fields) (ok b : Bool)
        → get "program" x ≡ text "spl-token"
        → get "parsed" x ≡ object parsed
        → is_token_transfer (get "type" parsed) ≡ b
        → (if ok then none else if b then some (transfer_of s (info_of parsed)) else some none)
          ≡ some (some t)
        → IsTokenTransfer s p units x
    at_type parsed true b ep eo et k = absurd cc
    at_type parsed false false ep eo et k = absurd cc
    at_type parsed false true ep eo et k =
        at_info parsed (info_of parsed) ep eo (typed _ et) refl
          (ap (λ o. elim o [ none ↦ none | some v ↦ v ]) k)

    at_parsed :
        (o : Option Fields)
        → get "program" x ≡ text "spl-token"
        → as_object (get "parsed" x) ≡ o
        → (elim o [
          | none ↦ some none
          | some parsed ↦
              if not (hashable (get "type" parsed))
              then none
              else if is_token_transfer (get "type" parsed)
              then some (transfer_of s (info_of parsed))
              else some none
        ])
          ≡ some (some t)
        → IsTokenTransfer s p units x
    at_parsed none ep eo k = absurd cc
    at_parsed (some parsed) ep eo k =
        at_type parsed (not (hashable (get "type" parsed))) _ ep (as_object-eq _ parsed eo) refl k

    at_program :
        (b : Bool)
        → is_text "spl-token" (get "program" x) ≡ b
        → (if b
            then elim (as_object (get "parsed" x)) [
              | none ↦ some none
              | some parsed ↦
                  if not (hashable (get "type" parsed))
                  then none
                  else if is_token_transfer (get "type" parsed)
                  then some (transfer_of s (info_of parsed))
                  else some none
            ]
            else some none)
          ≡ some (some t)
        → IsTokenTransfer s p units x
    at_program false e k = absurd cc
    at_program true e k = at_parsed _ (is_text-eq _ _ e) refl k

-- The units of one entry: those of its amount, if it is the owner's and a number.
abbrev pub units_of : String → Option String → Option ℤ → ℤ
units_of owner none n = pos 0
units_of owner (some o) none = pos 0
units_of owner (some o) (some n) = if o == owner then n else pos 0

-- What these entries hold of the mint for an owner.
unfoldable pub token_total : SolanaService → String → String → List Fields → ℤ
token_total s mint owner [] = pos 0
token_total s mint owner (entry ∷ rest) =
    let later = token_total s mint owner rest in
    if is_text mint (get "mint" entry)
    then elim (ui_amount entry) [
      | none ↦ later
      | some amount ↦
          units_of owner (as_text (get "owner" entry)) (to_int s.int_of_text amount) +ℤ later
    ]
    else later

balance_of-add_units :
    (owner o : String) (n : ℤ) (b : Balances)
    → balance_of owner (add_units o n b) ≡ balance_of owner b +ℤ (if o == owner then n else pos 0)
balance_of-add_units owner o n [] = go (o == owner)
  where
    go : (same : Bool) → (if same then n else pos 0) ≡ pos 0 +ℤ (if same then n else pos 0)
    go true = omega int_laws
    go false = omega int_laws
balance_of-add_units owner o n ((k, m) ∷ rest) =
    go (balance_of-add_units owner o n rest) (k == o) (k == owner) (o == owner) refl refl refl
  where
    here : (same : Bool) → same ≡ false → m ≡ m +ℤ (if same then n else pos 0)
    here true e = absurd cc
    here false e = omega int_laws

    go :
        balance_of owner (add_units o n rest)
          ≡ balance_of owner rest +ℤ (if o == owner then n else pos 0)
        → (a b c : Bool) → (k == o) ≡ a
        → (k == owner) ≡ b
        → (o == owner) ≡ c
        → balance_of owner (if a then (k, m +ℤ n) ∷ rest else (k, m) ∷ add_units o n rest)
          ≡ (if b then m else balance_of owner rest) +ℤ (if c then n else pos 0)
    go later true true true ea eb ec = rw eb
    go later true true false ea eb ec =
        ground (arith, ea, eb, ec, eq_iff k o, eq_iff k owner, eq_iff o owner)
    go later true false true ea eb ec =
        ground (arith, ea, eb, ec, eq_iff k o, eq_iff k owner, eq_iff o owner)
    go later true false false ea eb ec = rw eb (omega int_laws)
    go later false true true ea eb ec =
        ground (arith, ea, eb, ec, eq_iff k o, eq_iff k owner, eq_iff o owner)
    go later false true false ea eb ec = rw eb (omega int_laws)
    go later false false c ea eb ec =
        rw eb (later ∙ ap (λ x. balance_of owner rest +ℤ (if x then n else pos 0)) ec)

counted-units_of :
    (owner : String) (o : Option String) (n : Option ℤ) (b : Balances)
    → balance_of owner (counted o n b) ≡ balance_of owner b +ℤ units_of owner o n
counted-units_of owner none n b = omega int_laws
counted-units_of owner (some o) none b = omega int_laws
counted-units_of owner (some o) (some n) b = balance_of-add_units owner o n b

sum_balances-token_total :
    (s : SolanaService) (mint owner : String) (entries : List Fields) (b b' : Balances)
    → sum_balances s mint entries b ≡ some b'
    → balance_of owner b' ≡ balance_of owner b +ℤ token_total s mint owner entries
unfolding token_total
sum_balances-token_total s mint owner [] b b' h =
    ap (λ o. elim o [ none ↦ pos 0 | some x ↦ balance_of owner x ]) (sym h) ∙ omega int_laws
sum_balances-token_total s mint owner (entry ∷ rest) b b' h =
    go (sum_balances-token_total s mint owner rest) (is_text mint (get "mint" entry)) h
  where
    Totals : Type 0
    Totals =
        (b b' : Balances)
        → sum_balances s mint rest b ≡ some b'
        → balance_of owner b' ≡ balance_of owner b +ℤ token_total s mint owner rest

    add :
        Totals
        → (o : Option Json)
        → (elim o [
          | none ↦ none
          | some amount ↦
              sum_balances s mint rest
                (counted (as_text (get "owner" entry)) (to_int s.int_of_text amount) b)
        ])
          ≡ some b'
        → balance_of owner b'
          ≡ balance_of owner b +ℤ (elim o [
            | none ↦ token_total s mint owner rest
            | some amount ↦
                units_of owner (as_text (get "owner" entry)) (to_int s.int_of_text amount)
                +ℤ token_total s mint owner rest
          ])
    add totals none k = absurd cc
    add totals (some amount) k =
        let o = as_text (get "owner" entry) in
        let n = to_int s.int_of_text amount in
        let later = totals (counted o n b) b' k in
        let now = counted-units_of owner o n b in
        later ∙ ap (λ v. v +ℤ token_total s mint owner rest) now ∙ omega int_laws

    go :
        Totals
        → (m : Bool)
        → (if not m then sum_balances s mint rest b else elim (ui_amount entry) [
          | none ↦ none
          | some amount ↦
              sum_balances s mint rest
                (counted (as_text (get "owner" entry)) (to_int s.int_of_text amount) b)
        ])
          ≡ some b'
        → balance_of owner b'
          ≡ balance_of owner b
            +ℤ (if m
                then elim (ui_amount entry) [
                  | none ↦ token_total s mint owner rest
                  | some amount ↦
                      units_of owner (as_text (get "owner" entry)) (to_int s.int_of_text amount)
                      +ℤ token_total s mint owner rest
                ]
                else token_total s mint owner rest)
    go totals true k = add totals (ui_amount entry) k
    go totals false k = totals b b' k

-- The entries of a list of balances; anything but a list has none.
abbrev pub entries_of : Json → List Fields
entries_of raw = elim (as_list raw) [ none ↦ [] | some entries ↦ only_objects entries ]

pub balance_of-token_total :
    (s : SolanaService) (raw : Json) (mint owner : String) (b : Balances)
    → token_balances_by_owner s raw mint ≡ some b
    → balance_of owner b ≡ token_total s mint owner (entries_of raw)
unfolding token_balances_by_owner token_total
balance_of-token_total s raw mint owner b h = go (as_list raw) h
  where
    go :
        (o : Option (List Json))
        → (elim o [ none ↦ some [] | some entries ↦ sum_balances s mint (only_objects entries) [] ])
          ≡ some b
        → balance_of owner b
          ≡ token_total s mint owner (elim o [ none ↦ [] | some entries ↦ only_objects entries ])
    go none k = ap (λ x. elim x [ none ↦ pos 0 | some v ↦ balance_of owner v ]) (sym k)
    go (some entries) k =
        sum_balances-token_total s mint owner (only_objects entries) [] b k ∙ omega int_laws
