-- ===== src/Negotiation/Engine/Prices.antt =====
-- Which prices and which payee a round of veriproof/services/negotiation_engine.py can answer.
use veri_proof_hackerton.Prelude.{
  suc, String, not, Option, none, some, List, ◌≡◌, refl, ◌≤◌, ◌≤ℤ◌, ◌<ℤ◌, arith, length, leb_ℤ,
  ltb_ℤ, ◌⊎◌, inl, inr, Bool-cases, Option-cases, leb, ◌&&◌,
}
use mathlib.Core.Path.{subst, sym}
use veri_proof_hackerton.Money.{Decimal}
use veri_proof_hackerton.Money.Rounding.{quantize_usdc_mono, quantize_sol_mono}
use veri_proof_hackerton.Models.{
  IpAsset, NegotiationSession, Round, Currency, sol, usdc, Status, accept, counter_offer, reject,
  unknown,
}
use veri_proof_hackerton.Payment.{resolve_pay_to}
use veri_proof_hackerton.Negotiation.Engine.{
  NegotiationResult, RoundResult, ok, unavailable, Engine, quantize_price, clamp_up, finalize,
  run_priced_round, run_round, ask_model, reject_max_rounds, resolve_max_rounds,
}

pub quantize_price_mono :
    (c : Currency) (a b : Decimal) → a ≤ℤ b → quantize_price c a ≤ℤ quantize_price c b
unfolding quantize_price
quantize_price_mono usdc a b h = quantize_usdc_mono a b h
quantize_price_mono sol a b h = quantize_sol_mono a b h

pub le-clamp_up : (price : Option Decimal) (m : Decimal) → m ≤ℤ clamp_up price m
unfolding clamp_up
le-clamp_up none m = omega arith
le-clamp_up (some p) m = ground arith

-- The payee of an accepted round, and the bounds on the price, by the answer's status. Prices are
-- compared at the precision of the currency.
abbrev pub IsProtected :
    Engine → IpAsset → Decimal → Decimal → Currency → NegotiationResult → Type 0
IsProtected e asset min_price offer c r = elim r.status [
  | accept ↦
      (p : Decimal) × (r.price_sol ≡ some p)
      × (quantize_price c min_price ≤ℤ p)
      × (p ≤ℤ quantize_price c offer)
      × (r.pay_address ≡ some (resolve_pay_to e.settings_escrow asset none))
  | counter_offer ↦
      (p : Decimal) × (r.price_sol ≡ some p)
      × (quantize_price c min_price ≤ℤ p)
      × (r.pay_address ≡ none)
  | _ ↦ r.pay_address ≡ none
]

abbrev pub Returned : (NegotiationResult → Type 0) → RoundResult → Type 0
Returned P (ok r) = P r
Returned P _ = Unit

module _ (e : Engine) (asset : IpAsset) (m offer : Decimal) (c : Currency) where
  finalize_accept-IsProtected :
      (price : Option Decimal) (reason : String) (pay : Option String)
      → IsProtected e asset m offer c (
          finalize e
            (record { status = accept; price_sol = price; reason = reason; pay_address = pay })
            asset
            m
            offer
            c)
  unfolding finalize
  finalize_accept-IsProtected price reason pay =
      elim (Bool-cases (ltb_ℤ offer (clamp_up price m))) [
        | inl above ↦ rw above (
          quantize_price c (clamp_up price m),
          refl,
          quantize_price_mono c m (clamp_up price m) (le-clamp_up price m),
          refl,
        )
        | inr within ↦ rw within (
          quantize_price c (clamp_up price m),
          refl,
          quantize_price_mono c m (clamp_up price m) (le-clamp_up price m),
          quantize_price_mono c (clamp_up price m) offer (ground arith),
          refl,
        )
      ]

  finalize-IsProtected :
      (status : Status) (price : Option Decimal) (reason : String) (pay : Option String)
      → IsProtected e asset m offer c (
          finalize e
            (record { status = status; price_sol = price; reason = reason; pay_address = pay })
            asset
            m
            offer
            c)
  unfolding finalize
  finalize-IsProtected accept price reason pay = finalize_accept-IsProtected price reason pay
  finalize-IsProtected counter_offer price reason pay = (
    quantize_price c (clamp_up price m),
    refl,
    quantize_price_mono c m (clamp_up price m) (le-clamp_up price m),
    refl,
  )
  finalize-IsProtected reject price reason pay = refl
  finalize-IsProtected (unknown s) price reason pay = refl

module _ (e : Engine) (asset : IpAsset) (m t offer : Decimal) (usage : String) (rounds : List Round)
    (c : Currency) where
  -- Without a model, or when it raises, the round fails; otherwise its answer is finalized.
  ask_model_cases :
      (ask_model e asset m t offer usage rounds c ≡ unavailable)
      ⊎ ((raw : NegotiationResult) × (ask_model e asset m t offer usage rounds c
            ≡ ok (finalize e raw asset m offer c)))
  ask_model_cases = elim (Option-cases e.gemini) [
    | inl off ↦ inl (ground arith)
    | inr (g, on) ↦ elim (Option-cases (g m t offer usage rounds c)) [
      | inl raised ↦ inl (ground arith)
      | inr (raw, answered) ↦ inr (raw, ground arith)
    ]
  ]

  ask_model-IsProtected :
      Returned (IsProtected e asset m offer c) (ask_model e asset m t offer usage rounds c)
  ask_model-IsProtected = elim ask_model_cases [
    | inl failed ↦ subst (Returned (IsProtected e asset m offer c)) (sym failed) tt
    | inr (raw, answered) ↦
        subst (Returned (IsProtected e asset m offer c)) (sym answered) (
          finalize-IsProtected e asset m offer c raw.status raw.price_sol raw.reason
            raw.pay_address)
  ]

  run_priced_round-IsProtected :
      m ≤ℤ t
      → Returned (IsProtected e asset m offer c) (run_priced_round e asset m t offer usage rounds c)
  unfolding run_priced_round
  run_priced_round-IsProtected h = elim (Bool-cases (leb_ℤ t offer)) [
    | inl listed ↦ rw listed (
      quantize_price c t,
      refl,
      quantize_price_mono c m t h,
      quantize_price_mono c t offer (ground arith),
      refl,
    )
    | inr below ↦
        elim (Bool-cases (not (leb_ℤ m offer) && leb (resolve_max_rounds e) (length rounds))) [
          | inl capped ↦ rw (below, capped) refl
          | inr asked ↦ rw (below, asked) ask_model-IsProtected
        ]
  ]

run_round_priced :
    (e : Engine) (asset : IpAsset) (session : NegotiationSession) (offer : Decimal) (usage : String)
    (c : Currency) (m t : Decimal)
    → asset.min_amount ≡ some m
    → asset.target_amount ≡ some t
    → run_round e asset session offer usage c
      ≡ run_priced_round e asset m t offer usage session.rounds c
unfolding run_round
run_round_priced e asset session offer usage c m t hm ht = ground arith

-- Whatever the model answers, for an asset whose minimum is at most its list price: an accepted
-- round has a price, at least the minimum and at most the buyer's offer (both rounded to the
-- currency's precision), and pays the resolved payee. A counter offer has a price of at least the
-- rounded minimum. No answer other than an acceptance has a payee.
pub run_round-IsProtected :
    (e : Engine) (asset : IpAsset) (session : NegotiationSession) (offer : Decimal) (usage : String)
    (c : Currency) (m t : Decimal)
    → asset.min_amount ≡ some m
    → asset.target_amount ≡ some t
    → m ≤ℤ t
    → Returned (IsProtected e asset m offer c) (run_round e asset session offer usage c)
run_round-IsProtected e asset session offer usage c m t hm ht h =
    subst (Returned (IsProtected e asset m offer c))
      (sym (run_round_priced e asset session offer usage c m t hm ht))
      (run_priced_round-IsProtected e asset m t offer usage session.rounds c h)

-- An offer of the list price or more is accepted at the list price, with or without a model.
pub run_round-list_price :
    (e : Engine) (asset : IpAsset) (session : NegotiationSession) (offer : Decimal) (usage : String)
    (c : Currency) (m t : Decimal)
    → asset.min_amount ≡ some m
    → asset.target_amount ≡ some t
    → t ≤ℤ offer
    → run_round e asset session offer usage c
      ≡ ok (record {
        status = accept;
        price_sol = some (quantize_price c t);
        reason = "공개 원가 제안을 수락합니다.";
        pay_address = some (resolve_pay_to e.settings_escrow asset none);
      })
unfolding run_round run_priced_round
run_round-list_price e asset session offer usage c m t hm ht h = rw (hm, ht) (ground arith)

-- Below the list price: a round is a rejection without a price, whatever the model would say, if
-- the offer is under the minimum and the session has used up its rounds. In every other case the
-- answer or the failure of the model decides.
pub run_round-round_cap :
    (e : Engine) (asset : IpAsset) (session : NegotiationSession) (offer : Decimal) (usage : String)
    (c : Currency) (m t : Decimal)
    → asset.min_amount ≡ some m
    → asset.target_amount ≡ some t
    → offer <ℤ t
    → (((offer <ℤ m) × (resolve_max_rounds e ≤ length session.rounds))
        × (run_round e asset session offer usage c ≡ ok reject_max_rounds))
      ⊎ (((m ≤ℤ offer) ⊎ (suc (length session.rounds) ≤ resolve_max_rounds e))
          × (run_round e asset session offer usage c
              ≡ ask_model e asset m t offer usage session.rounds c))
unfolding run_round run_priced_round
run_round-round_cap e asset session offer usage c m t hm ht h = rw (hm, ht) (ground arith)
