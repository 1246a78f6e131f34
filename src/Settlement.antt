-- ===== src/Settlement.antt =====
-- veriproof/apps/settlement/services.py: the settlement pipeline, from the verified payment to the
-- license, the certificate, the mirror, the audit row, the royalties and the event.
-- The chain is a parameter, as the pipeline sees it; `none` and `crashed` are exceptions.
pub mod Pipeline
pub mod Verified
pub mod Persistence
use veri_proof_hackerton.Prelude.{
  ℕ, suc, String, Bool, true, false, not, Option, none, some, List, [], ◌∷◌, ◌++◌, map, find, ◌==◌,
  ◌&&◌, ◌||◌, append_text, if◌then◌else◌,
}
use veri_proof_hackerton.Money.{Decimal, amount_to_lamports}
use veri_proof_hackerton.Models.{
  IpAsset, NegotiationSession, License, Payload, Value, text, money, int, instant, null, values,
  World, asset_by_id,
}
use veri_proof_hackerton.Env.{Env}
use veri_proof_hackerton.Events.{try_record_event, mirror_set, audit_insert}
use veri_proof_hackerton.Payment.{resolve_pay_to}
use veri_proof_hackerton.License.{LicenseService, Purchase, grant}
use veri_proof_hackerton.Royalty.{TransferUsdc, distribute}

-- What `issue_certificate` does: a signature, a `CertificateIssueError`, or another exception.
pub data CertificateOutcome : Type 0 where
  issued : String → CertificateOutcome
  refused crashed : CertificateOutcome

pub record Chain : Type 0 where
  -- `verify_usdc_payment` by signature, recipient, amount and mint: whether the payment is valid
  pub verify_usdc : String → String → Option Decimal → String → Option Bool
  -- `verify_sol_payment_transaction` by signature, recipient, lamports and memo
  pub verify_sol : String → String → ℕ → String → Option Bool
  -- `issue_certificate` by asset id, buyer wallet and memo
  pub issue_certificate : String → String → String → CertificateOutcome
  pub transfer_usdc : Option TransferUsdc

-- The arguments of `settle_pipeline`.
pub record Settlement : Type 0 where
  pub asset : IpAsset
  pub session : Option NegotiationSession
  pub tx_signature : String
  pub buyer_wallet : String
  pub expected_amount : Option Decimal
  pub usage_type : Option String
  pub payment_already_verified : Bool
  pub buyer_user : Option String
  pub payment_currency : String

-- `SettlementService`, with what it was built from.
pub record SettlementService : Type 0 where
  pub env : Env
  pub chain : Chain
  pub licenses : LicenseService
  pub usdc_mint : String

pub record Receipt : Type 0 where
  pub license : License
  pub certificate_tx : Option String
  pub download_url : String
  pub download_expires_at : Option ℕ

-- `SettlementResult`: success, `invalid_settlement`, or an exception.
pub data Outcome : Type 0 where
  success : Receipt → Outcome
  invalid raised : Outcome

unfoldable pub resolve_mint : SettlementService → String
resolve_mint s = if s.usdc_mint == "" then s.env.usdc_mint_address else s.usdc_mint

abbrev pub first_amount : Option Decimal → Option Decimal → Option Decimal
first_amount none b = b
first_amount (some a) b = some a

abbrev pub final_price_of : Option NegotiationSession → Option Decimal
final_price_of none = none
final_price_of (some s) = s.final_price_usdc

-- `expected_amount`, or the negotiated final price, or the list price.
unfoldable pub resolve_amount : Settlement → Option Decimal
resolve_amount x =
    first_amount x.expected_amount
      (first_amount (final_price_of x.session) x.asset.target_price_usdc)

abbrev or_text : Option String → String → String
or_text none d = d
or_text (some s) d = if s == "" then d else s

abbrev session_usage : Option NegotiationSession → String
session_usage none = "commercial"
session_usage (some s) = if s.usage_type == "" then "commercial" else s.usage_type

unfoldable pub resolve_usage : Settlement → String
resolve_usage x = or_text x.usage_type (session_usage x.session)

unfoldable pub sol_memo : IpAsset → String
sol_memo asset = append_text "VERIPROOF:" (append_text asset.id ":SOL")

abbrev pub lamports_of : Option Decimal → Option ℕ
lamports_of none = none
lamports_of (some a) = amount_to_lamports a

abbrev pub verify_lamports : SettlementService → Settlement → String → Option ℕ → Option Bool
verify_lamports s x recipient none = none
verify_lamports s x recipient (some lamports) =
    s.chain.verify_sol x.tx_signature recipient lamports (sol_memo x.asset)

-- Step A: `none` is an exception on the way.
unfoldable pub verify_payment : SettlementService → Settlement → Option Bool
unfolding resolve_amount resolve_mint sol_memo
verify_payment s x =
    let recipient : String = resolve_pay_to s.env.platform_escrow_pubkey x.asset none in
    if x.payment_already_verified
    then some true
    else if x.payment_currency == "SOL"
    then verify_lamports s x recipient (lamports_of (resolve_amount x))
    else s.chain.verify_usdc x.tx_signature recipient (resolve_amount x) (resolve_mint s)

unfoldable pub purchase_of : Settlement → Purchase
unfolding resolve_amount resolve_usage
purchase_of x = record {
  buyer_wallet = x.buyer_wallet;
  price = resolve_amount x;
  usage_type = resolve_usage x;
  payment_tx = x.tx_signature;
  session = x.session;
  buyer_user = x.buyer_user;
  payment_currency = if x.payment_currency == "SOL" then "SOL" else "USDC";
}

-- `license.save(update_fields=["certificate_tx_sig"])`, where the database accepts it; a failure, which
-- the code only logs, is not modelled.
abbrev pub certify : String → String → License → License
certify id signature l = if l.id == id then record l { certificate_tx_sig = some signature } else l

unfoldable pub save_certificate : License → String → World → World
save_certificate license signature w = record w {
  licenses = map (certify license.id signature) w.licenses;
}

abbrev text_or_null : Option String → Value
text_or_null none = null
text_or_null (some s) = text s

abbrev money_or_none : Option Decimal → Value
money_or_none none = text "None"
money_or_none (some a) = money a

-- Steps D and E: the mirror and the audit row.
unfoldable pub publish : SettlementService → Settlement → Option String → World → World
unfolding resolve_amount resolve_usage
publish s x certificate_tx w =
    audit_insert "transactions"
      (values (
        ("tx_time", instant s.env.now)
          ∷ ("asset_id", text x.asset.id)
          ∷ ("buyer_wallet", text x.buyer_wallet)
          ∷ ("price_usdc", money_or_none (resolve_amount x))
          ∷ (if x.payment_currency == "SOL"
              then ("price_sol", money_or_none (resolve_amount x))
                ∷ ("payment_currency", text "SOL")
                ∷ []
              else [])
        ++ ("payment_tx_sig", text x.tx_signature)
          ∷ ("certificate_tx_sig", text_or_null certificate_tx)
          ∷ ("usage_type", text (resolve_usage x))
          ∷ []))
      (mirror_set "asset_status" x.asset.id
        (values (
          ("status", text "LICENSED")
          ∷ ("asset_id", text x.asset.id)
          ∷ ("buyer_wallet", text x.buyer_wallet)
          ∷ ("payment_tx_sig", text x.tx_signature)
          ∷ ("certificate_tx_sig", text_or_null certificate_tx)
          ∷ ("updated_at", instant s.env.now)
          ∷ []))
        w)

abbrev distribute_for : SettlementService → License → World → Option IpAsset → World
distribute_for s license w none = w
distribute_for s license w (some asset) =
    elim (distribute s.env s.chain.transfer_usdc license asset w) [
      | none ↦ w
      | some (recs, w') ↦ w'
    ]

-- Step F: for a derivative only; an exception is logged and the pipeline goes on. It is raised
-- before the first leg, so nothing was written.
unfoldable pub share_royalties : SettlementService → Settlement → License → World → World
share_royalties s x license w = elim x.asset.parent_asset_id [
  | none ↦ w
  | some _ ↦ distribute_for s license w (asset_by_id license.asset w)
]

-- Step G.
unfoldable pub record_cert_issued :
    SettlementService → Settlement → License → Option String → World → World
record_cert_issued s x license certificate_tx w =
    try_record_event s.env "CERT_ISSUED"
      (("asset_id", text x.asset.id)
        ∷ ("license_id", text license.id)
        ∷ ("payment_tx_sig", text license.payment_tx_sig)
        ∷ ("certificate_tx_sig", text_or_null certificate_tx)
        ∷ [])
      (some x.asset) x.session w

abbrev pub receipt : License → Option String → Receipt
receipt license certificate_tx = record {
  license = license;
  certificate_tx = certificate_tx;
  download_url = append_text "/files/" (elim license.download_token [ none ↦ "None" | some t ↦ t ]);
  download_expires_at = license.download_expires_at;
}

-- Steps D to G, and the result.
unfoldable pub finish :
    SettlementService → Settlement → License → Option String → World → Outcome × World
unfolding publish share_royalties record_cert_issued
finish s x license certificate_tx w = (
  success (receipt license certificate_tx),
  record_cert_issued s x license certificate_tx
      (share_royalties s x license (publish s x certificate_tx w)),
)

-- Step C: a refused certificate leaves the license without one.
abbrev pub after_certificate :
    SettlementService → Settlement → License → World → CertificateOutcome → Outcome × World
after_certificate s x license w (issued signature) =
    finish s x (record license { certificate_tx_sig = some signature }) (some signature)
      (save_certificate license signature w)
after_certificate s x license w refused = finish s x license none w
after_certificate s x license w crashed = (raised, w)

unfoldable pub certificate_memo : IpAsset → String
certificate_memo asset = append_text "veriproof:cert:" asset.id

-- Steps B and C.
unfoldable pub settle_verified : SettlementService → Settlement → World → Outcome × World
unfolding purchase_of certificate_memo save_certificate
settle_verified s x w =
    let (license, w') = grant s.licenses s.env x.asset (purchase_of x) w in
    after_certificate s x license w'
      (s.chain.issue_certificate x.asset.id x.buyer_wallet (certificate_memo x.asset))

abbrev pub after_verification :
    SettlementService → Settlement → World → Option Bool → Outcome × World
after_verification s x w none = (raised, w)
after_verification s x w (some false) = (invalid, w)
after_verification s x w (some true) = settle_verified s x w

unfoldable pub settle_pipeline : SettlementService → Settlement → World → Outcome × World
settle_pipeline s x w =
    if x.payment_currency == "USDC" || x.payment_currency == "SOL"
    then after_verification s x w (verify_payment s x)
    else (raised, w)
