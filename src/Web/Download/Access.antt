-- ===== src/Web/Download/Access.antt =====
-- Who gets a file from `download` of veriproof/apps/settlement/views_api.py, and that a settlement
-- opens it.
use veri_proof_hackerton.Prelude.{
  ◌<◌, ltb, ℕ, String, Bool, true, false, not, Option, none, some, List, [], ◌∷◌, ◌==◌,
  if◌then◌else◌, ◌≡◌, ◌≢◌, refl, sym, ap, arith, eq_iff, All, Bool-cases, inl, inr,
}
use mathlib.Core.Path.{subst, subst₂}
use text.Mathlib.TextPositions.{eq_refl}
use veri_proof_hackerton.Models.{IpAsset, License, World, asset_by_id}
use veri_proof_hackerton.License.{is_download_active, license_by_tx}
use veri_proof_hackerton.Web.{failure}
use veri_proof_hackerton.Web.Download.{
  Downloads, DownloadReply, file, archive, error, crashed, has_token, license_by_token,
  may_download, served, with_original, with_asset, with_license, download,
}

-- The license names no account, or the user's.
abbrev pub IsBuyers : Option String → Option String → Type 0
IsBuyers user none = Unit
IsBuyers user (some buyer) = user ≡ some buyer

may_download-IsBuyers :
    (user buyer : Option String) → may_download user buyer ≡ true → IsBuyers user buyer
may_download-IsBuyers user none h = tt
may_download-IsBuyers none (some buyer) h = absurd cc
may_download-IsBuyers (some u) (some buyer) h = ap (λ x. some x) ((eq_iff u buyer).0 h)

IsBuyers-may_download :
    (user buyer : Option String) → IsBuyers user buyer → may_download user buyer ≡ true
IsBuyers-may_download user none h = refl
IsBuyers-may_download user (some buyer) h = rw (h, eq_refl buyer)

-- The license has not expired.
abbrev pub IsActive : ℕ → License → Type 0
IsActive now license =
    (expires_at : ℕ) × (license.download_expires_at ≡ some expires_at) × (now < expires_at)

pub is_download_active-IsActive :
    (now : ℕ) (license : License) → is_download_active now license ≡ true → IsActive now license
unfolding is_download_active
is_download_active-IsActive now license h = go license.download_expires_at refl h
  where
    go :
        (o : Option ℕ)
        → license.download_expires_at ≡ o
        → (elim o [ none ↦ false | some e ↦ ltb now e ]) ≡ true
        → IsActive now license
    go none e k = absurd cc
    go (some expires_at) e k = (expires_at, e, ground arith)

IsActive-is_download_active :
    (now : ℕ) (license : License) → IsActive now license → is_download_active now license ≡ true
unfolding is_download_active
IsActive-is_download_active now license (expires_at, e, early) = rw e (ground arith)

-- The license that opens the asset: stored under the token, still active, and the user's.
pub record IsOpen (d : Downloads) (now : ℕ) (user : Option String) (token : String) (w : World)
    : Type 0 where
  pub license : License
  pub asset : IpAsset
  pub original : String
  pub by_token : license_by_token token w.licenses ≡ some license
  pub active : IsActive now license
  pub owned : IsBuyers user license.buyer_user
  pub of_asset : asset_by_id license.asset w ≡ some asset
  pub kept : asset.original_purged ≡ false
  pub stored : d.read_temporary asset.id ≡ some original

abbrev pub serves : DownloadReply → Bool
serves (file mime name content) = true
serves (archive files) = true
serves (error f) = false
serves crashed = false

-- The one file of an answer.
abbrev pub content_of : DownloadReply → Option String
content_of (file mime name content) = some content
content_of (archive files) = none
content_of (error f) = none
content_of crashed = none

module _ (d : Downloads) (now : ℕ) (user : Option String) (token : String) (w : World) where
  with_original-IsOpen :
      (license : License) (asset : IpAsset) (r : Option String)
      → license_by_token token w.licenses ≡ some license
      → is_download_active now license ≡ true
      → may_download user license.buyer_user ≡ true
      → asset_by_id license.asset w ≡ some asset
      → d.read_temporary asset.id ≡ r
      → serves (with_original d asset r) ≡ true
      → IsOpen d now user token w
  with_original-IsOpen license asset none found active owned of_asset e h = absurd (cc)
  with_original-IsOpen license asset (some original) found active owned of_asset e h =
      if-kept asset.original_purged refl h
    where
      if-kept :
          (b : Bool)
          → asset.original_purged ≡ b
          → serves (
              if b
              then error (failure "purged" 410)
              else served d asset original (d.gallery_images asset.id))
            ≡ true
          → IsOpen d now user token w
      if-kept true p k = absurd (cc)
      if-kept false p k = record {
        license = license;
        asset = asset;
        original = original;
        by_token = found;
        active = is_download_active-IsActive now license active;
        owned = may_download-IsBuyers user license.buyer_user owned;
        of_asset = of_asset;
        kept = p;
        stored = e;
      }

  with_asset-IsOpen :
      (license : License) (r : Option IpAsset)
      → license_by_token token w.licenses ≡ some license
      → is_download_active now license ≡ true
      → may_download user license.buyer_user ≡ true
      → asset_by_id license.asset w ≡ r
      → serves (with_asset d r) ≡ true
      → IsOpen d now user token w
  with_asset-IsOpen license none found active owned e h = absurd (cc)
  with_asset-IsOpen license (some asset) found active owned e h =
      with_original-IsOpen license asset (d.read_temporary asset.id) found active owned e refl h

  with_license-IsOpen :
      (r : Option License)
      → license_by_token token w.licenses ≡ r
      → serves (with_license d now user w r) ≡ true
      → IsOpen d now user token w
  with_license-IsOpen none e h = absurd (cc)
  with_license-IsOpen (some license) e h =
      go (is_download_active now license) (may_download user license.buyer_user) refl refl h
    where
      go :
          (active owned : Bool)
          → is_download_active now license ≡ active
          → may_download user license.buyer_user ≡ owned
          → serves (
              if not active
              then error (failure "expired_token" 403)
              else if not owned
              then error (failure "license_not_owned" 403)
              else with_asset d (asset_by_id license.asset w))
            ≡ true
          → IsOpen d now user token w
      go false owned ea eo k = absurd (cc)
      go true false ea eo k = absurd (cc)
      go true true ea eo k = with_asset-IsOpen license _ e ea eo refl k

  -- A file or an archive is served only for a token that a stored license carries, before the
  -- license expires, to its buyer where it names one, and while the asset's original is kept.
  pub download-IsOpen : serves (download d now user token w) ≡ true → IsOpen d now user token w
  unfolding download
  download-IsOpen h = with_license-IsOpen (license_by_token token w.licenses) refl h

  open_served :
      (asset : IpAsset) (original : String)
      → d.gallery_images asset.id ≡ []
      → content_of (served d asset original (d.gallery_images asset.id)) ≡ some original
  open_served asset original h = rw h refl

  -- An open license serves the original of a work with one image.
  pub IsOpen-download :
      (o : IsOpen d now user token w)
      → d.gallery_images o.asset.id ≡ []
      → content_of (download d now user token w) ≡ some o.original
  unfolding download
  IsOpen-download o single =
      subst (λ r. content_of (with_license d now user w r) ≡ some o.original) (sym o.by_token)
        (subst₂
          (λ a b.
            content_of (
              if not a
              then error (failure "expired_token" 403)
              else if not b
              then error (failure "license_not_owned" 403)
              else with_asset d (asset_by_id o.license.asset w))
            ≡ some o.original)
          (sym (IsActive-is_download_active now o.license o.active))
          (sym (IsBuyers-may_download user o.license.buyer_user o.owned))
          (subst (λ r. content_of (with_asset d r) ≡ some o.original) (sym o.of_asset)
            (subst (λ r. content_of (with_original d o.asset r) ≡ some o.original) (sym o.stored)
              (subst
                (λ b.
                  content_of (
                    if b
                    then error (failure "purged" 410)
                    else served d o.asset o.original (d.gallery_images o.asset.id))
                  ≡ some o.original)
                (sym o.kept) (open_served o.asset o.original single)))))

-- No two licenses carry one token.
abbrev pub HasUniqueTokens : List License → Type 0
HasUniqueTokens [] = Unit
HasUniqueTokens (l ∷ rows) =
    All (λ (x : License). x.download_token ≢ l.download_token) rows × HasUniqueTokens rows

has_token_apart :
    (m : License) (token : String) → some token ≢ m.download_token → has_token token m ≡ false
has_token_apart m token apart = go m.download_token apart
  where
    go :
        (o : Option String)
        → some token ≢ o
        → (elim o [ none ↦ false | some t ↦ t == token ]) ≡ false
    go none h = refl
    go (some t) h = elim (Bool-cases (t == token)) [
      | inl same ↦ absurd (h (ap (λ x. some x) (sym ((eq_iff t token).0 same))))
      | inr other ↦ other
    ]

has_token_self :
    (m : License) (token : String) → m.download_token ≡ some token → has_token token m ≡ true
has_token_self m token e = rw e (eq_refl token)

token-other :
    (rows : List License) (l m : License) (tx token : String)
    → All (λ (x : License). x.download_token ≢ m.download_token) rows
    → license_by_tx tx rows ≡ some l
    → l.download_token ≡ some token
    → has_token token m ≡ false
token-other [] l m tx token apart h e = cc
token-other (x ∷ rows) l m tx token (apart, later) h e =
    elim (Bool-cases (x.payment_tx_sig == tx)) [
      | inl same ↦ ground (arith, has_token_apart m token)
      | inr other ↦ token-other rows l m tx token later (ground arith) e
    ]

-- The license of a payment is the license of its token.
pub license_by_token_of_tx :
    (rows : List License) (l : License) (tx token : String)
    → HasUniqueTokens rows
    → license_by_tx tx rows ≡ some l
    → l.download_token ≡ some token
    → license_by_token token rows ≡ some l
license_by_token_of_tx [] l tx token unique h e = cc
license_by_token_of_tx (x ∷ rows) l tx token (apart, unique) h e =
    elim (Bool-cases (x.payment_tx_sig == tx)) [
      | inl same ↦ ground (arith, has_token_self x token)
      | inr other ↦ ground (
        arith,
        token-other rows l x tx token apart,
        license_by_token_of_tx rows l tx token unique,
      )
    ]
