-- ===== src/Buyer/Bargain/Published.antt =====
-- The price that `_published_usdc_list_price` of agents/buyer_agent/tools.py reads.
use veri_proof_hackerton.Prelude.{
  ℕ, ◌<◌, ◌*◌, ◌^◌, ◌%◌, ◌/◌, String, true, Option, none, some, List, [], ◌∷◌, ◌≡◌, refl, sym, ap,
  ◌∙◌, inl, inr, ◌&&◌, if◌then◌else◌, eq_iff, both_true, ltb, nat_eq, ℤ, pos, negsuc, Any,
  Bool-cases, arith,
}
use mathlib.Core.Option.{some-injective}
use veri_proof_hackerton.Json.{
  Json, Fields, null, bool, number, text, array, object, get, lookup, is_text, as_list,
  only_objects,
}
use veri_proof_hackerton.Buyer.Bargain.{
  Seller, field_of, whole_micro, amount_in, or_first, first_amount, requirements_of,
  published_usdc_list_price,
}

module _ {S Offer : Type 0} (seller : Seller S Offer) where
  -- The requirement asks for so many whole micro units, more than none, of the expected token.
  abbrev pub Asks : ℕ → Fields → Type 0
  Asks micro requirement =
      (amount : Json) × (get "asset" requirement ≡ text seller.usdc_mint_address)
      × (lookup "amount" requirement ≡ some amount)
      × (seller.atomic_of amount ≡ some (pos (micro * 10 ^ 18)))
      × (0 < micro)

  -- The seller has answered terms for the asset, one of whose requirements asks for the amount.
  pub record IsPublished (asset_id : String) (micro : ℕ) : Type 0 where
    pub id : String
    pub before : S
    pub after : S
    pub terms : Json
    pub requirements : List Json
    pub parsed : seller.parse_uuid asset_id ≡ some id
    pub answer : seller.get_terms id before ≡ some (some terms, after)
    pub listed : as_list (field_of "accepts" terms) ≡ some requirements
    pub asked : Any (Asks micro) (only_objects requirements)

  is_text-eq : (t : String) (j : Json) → is_text t j ≡ true → j ≡ text t
  is_text-eq t (text s) h = ap (λ x. text x) ((eq_iff s t).0 h)
  is_text-eq t null h = absurd cc
  is_text-eq t (bool b) h = absurd cc
  is_text-eq t (number n) h = absurd cc
  is_text-eq t (array xs) h = absurd cc
  is_text-eq t (object fields) h = absurd cc

  no_amount : (micro : ℕ) → Option.none ≡ some micro → ⊥
  no_amount micro h = cc

  whole_micro-eq :
      (atomic : Option ℤ) (micro : ℕ)
      → whole_micro seller atomic ≡ some micro
      → (atomic ≡ some (pos (micro * 10 ^ 18))) × (0 < micro)
  whole_micro-eq none micro h = absurd cc
  whole_micro-eq (some (negsuc n)) micro h = absurd cc
  whole_micro-eq (some (pos n)) micro h = elim (Bool-cases (ltb 0 n && nat_eq (n % 10 ^ 18) 0)) [
    | inl e ↦
        let (positive, whole) = both_true (ltb 0 n) (nat_eq (n % 10 ^ 18) 0) e in
        let exact : n / 10 ^ 18 ≡ micro =
          some-injective _ _ (sym (ap (λ b. if b then some (n / 10 ^ 18) else none) e) ∙ h) in
        let parts : n ≡ micro * 10 ^ 18 = ground (arith, whole, exact) in
        (ap (λ k. some (pos k)) parts, ground (arith, positive, parts))
    | inr e ↦
        absurd (no_amount micro (sym (ap (λ b. if b then some (n / 10 ^ 18) else none) e) ∙ h))
  ]

  first_amount-Asks :
      (requirements : List Fields) (micro : ℕ)
      → first_amount seller requirements ≡ some micro
      → Any (Asks micro) requirements
  unfolding first_amount
  first_amount-Asks [] micro h = absurd cc
  first_amount-Asks (r ∷ rest) micro h =
      elim (Bool-cases (is_text seller.usdc_mint_address (get "asset" r))) [
        | inl e ↦ here (first_amount-Asks rest micro) e (lookup "amount" r) refl (
            sym (
              ap
                (λ b.
                  if b
                  then or_first seller (amount_in seller (lookup "amount" r))
                      (first_amount seller rest)
                  else first_amount seller rest)
                e)
            ∙ h)
        | inr e ↦ inr (
            first_amount-Asks rest micro (
              sym (
                ap
                  (λ b.
                    if b
                    then or_first seller (amount_in seller (lookup "amount" r))
                        (first_amount seller rest)
                    else first_amount seller rest)
                  e)
              ∙ h))
      ]
    where
      first :
          (amount : Json) (n : Option ℕ)
          → (first_amount seller rest ≡ some micro → Any (Asks micro) rest)
          → is_text seller.usdc_mint_address (get "asset" r) ≡ true
          → lookup "amount" r ≡ some amount
          → whole_micro seller (seller.atomic_of amount) ≡ n
          → or_first seller n (first_amount seller rest) ≡ some micro
          → Any (Asks micro) (r ∷ rest)
      first amount (some n) later e there whole k =
          let (atomic, positive) = whole_micro-eq (seller.atomic_of amount) micro (whole ∙ k) in
          inl (amount, is_text-eq _ _ e, there, atomic, positive)
      first amount none later e there whole k = inr (later k)

      here :
          (first_amount seller rest ≡ some micro → Any (Asks micro) rest)
          → is_text seller.usdc_mint_address (get "asset" r) ≡ true
          → (amount : Option Json) → lookup "amount" r ≡ amount
          → or_first seller (amount_in seller amount) (first_amount seller rest) ≡ some micro
          → Any (Asks micro) (r ∷ rest)
      here later e none there k = inr (later k)
      here later e (some amount) there k = first amount _ later e there refl k

  nothing : (micro : ℕ) → first_amount seller [] ≡ some micro → ⊥
  unfolding first_amount
  nothing micro h = cc

  abbrev read_in : Option (Option Json × S) → Option (Option ℕ × S)
  read_in none = none
  read_in (some (terms, s')) = some (first_amount seller (requirements_of seller terms), s')

  pub published_usdc_list_price-IsPublished :
      (asset_id : String) (s : S) (micro : ℕ) (s' : S)
      → published_usdc_list_price seller asset_id s ≡ some (some micro, s')
      → IsPublished asset_id micro
  unfolding published_usdc_list_price
  published_usdc_list_price-IsPublished asset_id s micro s' =
      parsed (seller.parse_uuid asset_id) refl
    where
      listed :
          (id : String) (terms : Json) (after : S) (xs : Option (List Json))
          → seller.parse_uuid asset_id ≡ some id
          → seller.get_terms id s ≡ some (some terms, after)
          → as_list (field_of "accepts" terms) ≡ xs
          → first_amount seller (elim xs [ none ↦ [] | some ys ↦ only_objects ys ]) ≡ some micro
          → IsPublished asset_id micro
      listed id terms after none e answer xs k = absurd (nothing micro k)
      listed id terms after (some requirements) e answer xs k = record {
        id = id;
        before = s;
        after = after;
        terms = terms;
        requirements = requirements;
        parsed = e;
        answer = answer;
        listed = xs;
        asked = first_amount-Asks (only_objects requirements) micro k;
      }

      answered :
          (id : String) (answer : Option (Option Json × S))
          → seller.parse_uuid asset_id ≡ some id
          → seller.get_terms id s ≡ answer
          → read_in answer ≡ some (some micro, s')
          → IsPublished asset_id micro
      answered id none e a k = absurd cc
      answered id (some (none, after)) e a k =
          absurd (nothing micro (ap (λ o. elim o [ none ↦ none | some x ↦ x.0 ]) k))
      answered id (some (some terms, after)) e a k =
          listed id terms after _ e a refl (ap (λ o. elim o [ none ↦ none | some x ↦ x.0 ]) k)

      parsed :
          (id : Option String)
          → seller.parse_uuid asset_id ≡ id
          → (elim id [ none ↦ none | some i ↦ read_in (seller.get_terms i s) ])
            ≡ some (some micro, s')
          → IsPublished asset_id micro
      parsed none e k = absurd cc
      parsed (some id) e k = answered id _ e refl k
