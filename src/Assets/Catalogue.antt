-- ===== src/Assets/Catalogue.antt =====
-- What the tables of the catalogue satisfy, which `register`, `update_asset_terms` and
-- `delete_asset` of veriproof/apps/ip/views_api.py write, and lemmas on rewriting and removing rows.
use veri_proof_hackerton.Prelude.{
  ℕ, ℤ, ◌≤◌, String, Bool, true, Option, none, some, List, [], ◌∷◌, ◌++◌, map, find, ◌≡◌, ◌≢◌, refl,
  inl, inr, ◌==◌, eq_iff, All, arith, find-append_none, pos, leb_ℤ, ltb_ℤ, Bool-cases, if-split,
}
use veri_proof_hackerton.Money.{Decimal}
use veri_proof_hackerton.Models.{IpAsset, Visibility, private, public}
use veri_proof_hackerton.Registration.{Office}
use veri_proof_hackerton.Assets.{update_first}
use veri_proof_hackerton.Assets.Deletion.{keep}

-- No two works have the same content hash.
abbrev pub HasUniqueHash : List IpAsset → Type 0
HasUniqueHash [] = Unit
HasUniqueHash (a ∷ rows) =
    (find (λ x. x.image_sha256 == a.image_sha256) rows ≡ none) × HasUniqueHash rows

abbrev pub IsPriced : Option Decimal → Option Decimal → Type 0
IsPriced none target = Unit
IsPriced (some minimum) none = Unit
IsPriced (some minimum) (some target) =
    (leb_ℤ (pos 0) minimum ≡ true) × (ltb_ℤ (pos 0) target ≡ true) × (leb_ℤ minimum target ≡ true)

abbrev pub IsListable : Visibility → Option String → Type 0
IsListable private certificate = Unit
IsListable public certificate = certificate ≢ none

-- The royalty share of a derivative is between 1 and 10000 basis points.
abbrev pub IsShared : Option String → Option ℤ → Type 0
IsShared none share = Unit
IsShared (some parent) share = (n : ℕ) × (share ≡ some (pos n)) × (1 ≤ n) × (n ≤ 10000)

-- A derivative has a royalty share in range, a public work has a certificate, and the prices are in
-- order.
pub record IsProper (a : IpAsset) : Type 0 where
  pub royalty : IsShared a.parent_asset_id a.royalty_share_bps
  pub listable : IsListable a.visibility a.registration_certificate_tx_sig
  pub priced : IsPriced a.min_amount a.target_amount

pub record IsCatalogue (o : Office) : Type 0 where
  pub unique : HasUniqueHash o.world.assets
  pub proper : All IsProper o.world.assets

pub HasUniqueHash-append :
    (rows : List IpAsset) (a : IpAsset)
    → find (λ x. x.image_sha256 == a.image_sha256) rows ≡ none
    → HasUniqueHash rows
    → HasUniqueHash (rows ++ a ∷ [])
HasUniqueHash-append [] a new h = (refl, tt)
HasUniqueHash-append (x ∷ rows) a new h = ground (
  arith,
  HasUniqueHash-append rows a,
  eq_iff x.image_sha256 a.image_sha256,
  eq_iff a.image_sha256 x.image_sha256,
  find-append_none (λ (y : IpAsset). y.image_sha256 == x.image_sha256) rows (a ∷ []),
)

-- Rewriting rows without their hashes keeps hashes unique.
module _ (f : IpAsset → IpAsset) (same : (a : IpAsset) → (f a).image_sha256 ≡ a.image_sha256) where
  find-update_first :
      (p : IpAsset → Bool) (hash : String) (rows : List IpAsset)
      → find (λ x. x.image_sha256 == hash) rows ≡ none
      → find (λ x. x.image_sha256 == hash) (update_first p f rows) ≡ none
  find-update_first p hash [] h = refl
  find-update_first p hash (a ∷ rows) h = ground (arith, same a, find-update_first p hash rows)

  pub HasUniqueHash-update_first :
      (p : IpAsset → Bool) (rows : List IpAsset)
      → HasUniqueHash rows
      → HasUniqueHash (update_first p f rows)
  HasUniqueHash-update_first p [] h = tt
  HasUniqueHash-update_first p (a ∷ rows) h =
      ground
        (arith, same a, HasUniqueHash-update_first p rows, find-update_first p a.image_sha256 rows)

  find-map :
      (hash : String) (rows : List IpAsset)
      → find (λ x. x.image_sha256 == hash) rows ≡ none
      → find (λ x. x.image_sha256 == hash) (map f rows) ≡ none
  find-map hash [] h = refl
  find-map hash (a ∷ rows) h = ground (arith, same a, find-map hash rows)

  pub HasUniqueHash-map : (rows : List IpAsset) → HasUniqueHash rows → HasUniqueHash (map f rows)
  HasUniqueHash-map [] h = tt
  HasUniqueHash-map (a ∷ rows) h =
      ground (arith, same a, HasUniqueHash-map rows, find-map a.image_sha256 rows)

find-keep :
    (gone : IpAsset → Bool) (hash : String) (rows : List IpAsset)
    → find (λ x. x.image_sha256 == hash) rows ≡ none
    → find (λ x. x.image_sha256 == hash) (keep gone rows) ≡ none
find-keep gone hash [] h = refl
find-keep gone hash (a ∷ rows) h = ground (arith, find-keep gone hash rows)

pub HasUniqueHash-keep :
    (gone : IpAsset → Bool) (rows : List IpAsset)
    → HasUniqueHash rows
    → HasUniqueHash (keep gone rows)
HasUniqueHash-keep gone [] h = tt
HasUniqueHash-keep gone (a ∷ rows) h =
    ground (arith, HasUniqueHash-keep gone rows, find-keep gone a.image_sha256 rows)

pub All-keep {ℓ κ} :
    {A : Type ℓ} (P : A → Type κ) (gone : A → Bool) (rows : List A)
    → All P rows
    → All P (keep gone rows)
All-keep P gone [] h = tt
All-keep P gone (a ∷ rows) h =
    if-split (All P) (gone a) _ _ (λ _. All-keep P gone rows h.1)
      (λ _. (h.0, All-keep P gone rows h.1))

pub All-map_rows {ℓ κ} :
    {A : Type ℓ} (P : A → Type κ) (f : A → A) (rows : List A)
    → ((a : A) → P a → P (f a))
    → All P rows
    → All P (map f rows)
All-map_rows P f [] step h = tt
All-map_rows P f (a ∷ rows) step h = (step a h.0, All-map_rows P f rows step h.1)

-- The row that is found first is the one that is rewritten.
pub All-update_first {ℓ κ} :
    {A : Type ℓ} (P : A → Type κ) (p : A → Bool) (f : A → A) (rows : List A)
    → ((a : A) → find p rows ≡ some a → P a → P (f a))
    → All P rows
    → All P (update_first p f rows)
All-update_first P p f [] step h = tt
All-update_first P p f (a ∷ rows) step h = elim (Bool-cases (p a)) [
  | inl e ↦ rw e (step a (rw e refl) h.0, h.1)
  | inr e ↦ rw e (h.0, All-update_first P p f rows (λ b found. step b (rw e found)) h.1)
]
