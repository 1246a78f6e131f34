-- ===== src/X402/Facilitator.antt =====
-- `verify_and_settle` of veriproof/services/x402_protocol_service.py: a payment goes through the
-- facilitator, which the x402 SDK calls.
use veri_proof_hackerton.Prelude.{
  String, Bool, true, false, not, Option, none, some, ◌⊎◌, inl, inr, List, [], ◌∷◌, ◌==◌, ◌||◌,
  if◌then◌else◌, ◌≡◌, ◌≢◌, refl, ap, ◌∙◌, arith, eq_iff, if-split,
}
use mathlib.Core.Path.{subst}

-- What `verify_payment` and `settle_payment` answer; a missing text is none.
pub record Verification : Type 0 where
  pub is_valid : Bool

pub record SettleResponse : Type 0 where
  pub success : Bool
  pub transaction : Option String
  pub payer : Option String
  pub network : String

-- The SDK's server: payloads and requirements are its own types. `decode` is
-- `decode_payment_signature_header`, `matching` is `find_matching_requirements` among the accepted
-- ones of a challenge, and `none` of the two calls is an exception.
pub record Server : Type 1 where
  pub Payload : Type 0
  pub Requirements : Type 0
  pub Challenge : Type 0
  pub decode : String → Option Payload
  pub matching : Challenge → Payload → Option Requirements
  pub verify_payment : Payload → Requirements → Option Verification
  pub settle_payment : Payload → Requirements → Option SettleResponse
  pub encode_response : SettleResponse → String

-- `X402Settlement`
pub record X402Settlement : Type 0 where
  pub transaction : String
  pub payer : String
  pub network : String
  pub response_header : String

-- A settlement, X402PaymentInvalid, or X402ProtocolError.
pub data Settling : Type 0 where
  settled : X402Settlement → Settling
  payment_invalid protocol_error : Settling

module _ (server : Server) where
  -- The calls of the facilitator, in order.
  pub data Call : Type 0 where
    verify_call settle_call : server.Payload → server.Requirements → Call

  abbrev filled : Option String → Bool
  filled none = false
  filled (some t) = not (t == "")

  abbrev or_empty : Option String → String
  or_empty none = ""
  or_empty (some t) = t

  abbrev pub after_settle : Option SettleResponse → Settling
  after_settle none = protocol_error
  after_settle (some r) =
      if not r.success
      then payment_invalid
      else if not (filled r.transaction) || not (filled r.payer)
      then protocol_error
      else settled (record {
        transaction = or_empty r.transaction;
        payer = or_empty r.payer;
        network = r.network;
        response_header = server.encode_response r;
      })

  abbrev pub after_verify :
      server.Payload → server.Requirements → Option Verification → Settling × List Call
  after_verify payload requirements none = (protocol_error, verify_call payload requirements ∷ [])
  after_verify payload requirements (some v) =
      if not v.is_valid then (payment_invalid, verify_call payload requirements ∷ []) else (
        after_settle (server.settle_payment payload requirements),
        verify_call payload requirements ∷ settle_call payload requirements ∷ [],
      )

  abbrev pub with_requirements : server.Payload → Option server.Requirements → Settling × List Call
  with_requirements payload none = (payment_invalid, [])
  with_requirements payload (some requirements) =
      after_verify payload requirements (server.verify_payment payload requirements)

  abbrev pub with_payload : server.Challenge → Option server.Payload → Settling × List Call
  with_payload challenge none = (payment_invalid, [])
  with_payload challenge (some payload) =
      with_requirements payload (server.matching challenge payload)

  unfoldable pub verify_and_settle : String → server.Challenge → Settling × List Call
  verify_and_settle payment_signature challenge =
      with_payload challenge (server.decode payment_signature)

  -- The payment that a signature decodes to answers the challenge, and the facilitator holds it
  -- valid.
  pub record IsVerified (signature : String) (challenge : server.Challenge)
      (payload : server.Payload) (requirements : server.Requirements) : Type 0 where
    pub verification : Verification
    pub decoded : server.decode signature ≡ some payload
    pub matched : server.matching challenge payload ≡ some requirements
    pub answered : server.verify_payment payload requirements ≡ some verification
    pub valid : verification.is_valid ≡ true

  -- Which calls a run has made, by how far it came.
  pub data Ran (signature : String) (challenge : server.Challenge)
      : Settling × List Call → Type 0 where
    refused : Ran signature challenge (payment_invalid, [])
    not_verified :
        {payload : server.Payload} {requirements : server.Requirements} (o : Settling)
        → (o ≡ payment_invalid) ⊎ (o ≡ protocol_error)
        → Ran signature challenge (o, verify_call payload requirements ∷ [])
    submitted :
        {payload : server.Payload} {requirements : server.Requirements}
        → IsVerified signature challenge payload requirements
        → Ran signature challenge (
          after_settle (server.settle_payment payload requirements),
          verify_call payload requirements ∷ settle_call payload requirements ∷ [],
        )

  -- A run settles with the facilitator at most once, and only the payment that the signature decodes
  -- to, after it has matched the challenge and has been verified for it.
  pub verify_and_settle-Ran :
      (signature : String) (challenge : server.Challenge)
      → Ran signature challenge (verify_and_settle signature challenge)
  unfolding verify_and_settle
  verify_and_settle-Ran signature challenge = decoding (server.decode signature) refl
    where
      verifying :
          (payload : server.Payload) (requirements : server.Requirements) (v : Option Verification)
          → server.decode signature ≡ some payload
          → server.matching challenge payload ≡ some requirements
          → server.verify_payment payload requirements ≡ v
          → Ran signature challenge (after_verify payload requirements v)
      verifying payload requirements none d m e = not_verified protocol_error (inr refl)
      verifying payload requirements (some v) d m e =
          if-split (Ran signature challenge) (not v.is_valid) _ _
            (λ _. not_verified payment_invalid (inl refl))
            (λ valid. submitted (record {
              verification = v;
              decoded = d;
              matched = m;
              answered = e;
              valid = ground (arith, valid);
            }))

      matching :
          (payload : server.Payload) (requirements : Option server.Requirements)
          → server.decode signature ≡ some payload
          → server.matching challenge payload ≡ requirements
          → Ran signature challenge (with_requirements payload requirements)
      matching payload none d m = refused
      matching payload (some requirements) d m =
          verifying payload requirements (server.verify_payment payload requirements) d m refl

      decoding :
          (payload : Option server.Payload)
          → server.decode signature ≡ payload
          → Ran signature challenge (with_payload challenge payload)
      decoding none d = refused
      decoding (some payload) d = matching payload (server.matching challenge payload) d refl

  -- A run that comes back with a settlement had the payment verified, and the settlement is what the
  -- facilitator answered.
  pub settled-IsVerified :
      {signature : String} {challenge : server.Challenge} {r : Settling × List Call}
      → Ran signature challenge r
      → (x : X402Settlement) → r.0 ≡ settled x
      → (payload : server.Payload) × (requirements : server.Requirements) × IsVerified signature
          challenge payload requirements
        × (after_settle (server.settle_payment payload requirements) ≡ settled x)
  settled-IsVerified refused x e = absurd cc
  settled-IsVerified (not_verified o (inl h)) x e = absurd cc
  settled-IsVerified (not_verified o (inr h)) x e = absurd cc
  settled-IsVerified (submitted {payload = p} {requirements = q} h) x e = (p, q, h, e)

  -- The facilitator answered that the payment succeeded, under this transaction.
  pub record IsSettledBy (payload : server.Payload) (requirements : server.Requirements)
      (x : X402Settlement) : Type 0 where
    pub response : SettleResponse
    pub answered : server.settle_payment payload requirements ≡ some response
    pub succeeded : response.success ≡ true
    pub under : response.transaction ≡ some x.transaction
    pub named : x.transaction ≢ ""

  filled-eq : (o : Option String) → filled o ≡ true → (o ≡ some (or_empty o)) × (or_empty o ≢ "")
  filled-eq none h = absurd cc
  filled-eq (some t) h = (refl, ground (arith, h, eq_iff t ""))

  pub after_settle-IsSettledBy :
      (payload : server.Payload) (requirements : server.Requirements) (x : X402Settlement)
      → after_settle (server.settle_payment payload requirements) ≡ settled x
      → IsSettledBy payload requirements x
  after_settle-IsSettledBy payload requirements x h =
      go (server.settle_payment payload requirements) refl h
    where
      tests :
          (r : SettleResponse) (failed unnamed : Bool)
          → server.settle_payment payload requirements ≡ some r
          → not r.success ≡ failed
          → (not (filled r.transaction) || not (filled r.payer)) ≡ unnamed
          → (if failed
              then payment_invalid
              else if unnamed
              then protocol_error
              else settled (record {
                transaction = or_empty r.transaction;
                payer = or_empty r.payer;
                network = r.network;
                response_header = server.encode_response r;
              }))
            ≡ settled x
          → IsSettledBy payload requirements x
      tests r true unnamed e ef eu k = absurd cc
      tests r false true e ef eu k = absurd cc
      tests r false false e ef eu k =
          let has : filled r.transaction ≡ true = ground arith in
          let (same, nonempty) = filled-eq r.transaction has in
          let tx : or_empty r.transaction ≡ x.transaction =
            ap
              (λ v. elim v [
                | settled y ↦ y.transaction
                | payment_invalid ↦ ""
                | protocol_error ↦ ""
              ])
              k in
          record {
            response = r;
            answered = e;
            succeeded = ground arith;
            under = same ∙ ap (λ v. some v) tx;
            named = subst (λ v. v ≢ "") tx nonempty;
          }

      go :
          (o : Option SettleResponse)
          → server.settle_payment payload requirements ≡ o
          → after_settle o ≡ settled x
          → IsSettledBy payload requirements x
      go none e k = absurd cc
      go (some r) e k = tests r _ _ e refl refl k
