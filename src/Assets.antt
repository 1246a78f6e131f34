-- ===== src/Assets.antt =====
-- What the endpoints `register` and `update_asset_terms` of veriproof/apps/ip/views_api.py share: the
-- parsing of prices and terms, and the checks of a row.
pub mod Changed
pub mod Permitted
pub mod Register
pub mod Ordered
pub mod Catalogue
pub mod Steps
pub mod Deleted
pub mod Deletion
pub mod Kept
pub mod Update
pub mod Submission
pub mod Admitted
pub mod Sourced
use veri_proof_hackerton.Prelude.{
  ℕ, String, Bool, true, false, not, Option, none, some, List, [], ◌∷◌, ◌++◌, map, any, find, pos,
  leb_ℤ, ltb_ℤ, leb, ltb, ◌==◌, ◌&&◌, ◌||◌, if◌then◌else◌,
}
use Prim.Native.String.{len}
use veri_proof_hackerton.Money.{Decimal}
use veri_proof_hackerton.Models.{
  IpAsset, Visibility, private, public, World, License, BatchItem, NegotiationSession, AgentEvent,
  RoyaltyDistribution,
}
use veri_proof_hackerton.Env.{Env}
use veri_proof_hackerton.Json.{
  Json, Fields, null, bool, number, text, array, object, get, lookup, truthy, as_text, as_list,
  as_object,
}
use veri_proof_hackerton.Web.{Library, Failure, failure}
use veri_proof_hackerton.Draft.{DraftStore, RegistrationDraft}
use veri_proof_hackerton.Registration.{
  Office, AssetImage, AssetComponent, RegistrationCharge, is_royalty_share,
}
use veri_proof_hackerton.Sponsored.{SponsoredPaymentIntent}

-- `str.lower`, and for a text that is a decimal the number of its decimals.
pub record Desk : Type 0 where
  pub env : Env
  pub lib : Library
  pub lower : String → String
  pub places_of : String → ℕ

-- A finite `Decimal`, with `max(0, -exponent)`.
pub record Price : Type 0 where
  pub amount : Decimal
  pub places : ℕ

abbrev price_of : ℕ → Option Decimal → Option Price
price_of places none = none
price_of places (some amount) = some (record { amount = amount; places = places })

-- `_parse_money` of a text, and of a JSON value.
unfoldable pub parse_money : Desk → String → Option Price
parse_money desk raw =
    if raw == "" then none else price_of (desk.places_of raw) (desk.lib.finite_decimal raw)

abbrev pub parse_json_money : Desk → Json → Option Price
parse_json_money desk raw = elim raw [
  | null ↦ none
  | text t ↦ parse_money desk t
  | other ↦ parse_money desk (desk.lib.str_of other)
]

-- `_valid_sol_registration_prices`
abbrev pub valid_prices : Price → Price → Bool
valid_prices minimum target =
    leb_ℤ (pos 0) minimum.amount
    && (ltb_ℤ (pos 0) target.amount
        && (leb_ℤ minimum.amount target.amount && (leb minimum.places 9 && leb target.places 9)))

abbrev pub visibility_of : String → Option Visibility
visibility_of t =
    if t == "private" then some private else if t == "public" then some public else none

-- `str(value or "")`
abbrev pub str_or_empty : Desk → Json → String
str_or_empty desk value = if truthy value then desk.lib.str_of value else ""

-- A row with its price, and its `clean` and `save` constraint on derivatives.
abbrev pub is_saved : IpAsset → Bool
is_saved asset = elim asset.parent_asset_id [
  | none ↦ true
  | some parent ↦ is_royalty_share asset.royalty_share_bps
]

pub record Terms : Type 0 where
  pub minimum : Price
  pub target : Price
  pub visibility : Visibility

pub data TermsReply : Type 0 where
  error : Failure → TermsReply
  updated : IpAsset → TermsReply
  crashed : TermsReply

abbrev pub owned : String → String → IpAsset → Bool
owned id user a = a.id == id && elim a.account_owner [ none ↦ false | some owner ↦ owner == user ]

abbrev pub has_certificate : IpAsset → Bool
has_certificate asset = elim asset.registration_certificate_tx_sig [
  | none ↦ false
  | some tx ↦ not (tx == "")
]

abbrev pub is_public : Visibility → Bool
is_public private = false
is_public public = true

abbrev pub or_empty : Option String → String
or_empty none = ""
or_empty (some t) = t

abbrev pub text_or_none : String → Option String
text_or_none t = if t == "" then none else some t

-- `data.get(key, fallback)` where a text is asked for; `none` is another type.
abbrev pub given_text : Option Json → String → Option String
given_text none fallback = some fallback
given_text (some value) fallback = as_text value

abbrev all_texts : List Json → Option (List String)
all_texts [] = some []
all_texts (x ∷ xs) = elim (as_text x) [
  | none ↦ none
  | some t ↦ elim (all_texts xs) [ none ↦ none | some ts ↦ some (t ∷ ts) ]
]

abbrev pub given_tags : Option Json → List String → Option (List String)
given_tags none fallback = some fallback
given_tags (some value) fallback = elim (as_list value) [ none ↦ none | some xs ↦ all_texts xs ]

-- `[tag.strip() for tag in tags if tag.strip()]`
abbrev pub stripped_tags : (String → String) → List String → List String
stripped_tags strip [] = []
stripped_tags strip (t ∷ ts) =
    if strip t == "" then stripped_tags strip ts else strip t ∷ stripped_tags strip ts

-- The first row that satisfies a test is rewritten.
abbrev pub update_first {ℓ} : {A : Type ℓ} → (A → Bool) → (A → A) → List A → List A
update_first p f [] = []
update_first p f (x ∷ xs) = if p x then f x ∷ xs else x ∷ update_first p f xs
