-- ===== src/Web/Delivery.antt =====
-- A settlement and the download that it opens, of veriproof/apps/settlement/views_api.py.
use veri_proof_hackerton.Prelude.{ℕ, String, false, Option, some, [], ◌<◌, ◌≡◌}
use mathlib.Core.Path.{subst}
use veri_proof_hackerton.Models.{IpAsset, World, asset_by_id}
use veri_proof_hackerton.Settlement.{SettlementService, Receipt}
use veri_proof_hackerton.Settlement.Pipeline.{IsConsistent}
use veri_proof_hackerton.Web.{Request, Library}
use veri_proof_hackerton.Web.Settle.{settle, succeeded, IsAnswered, settle-IsAnswered}
use veri_proof_hackerton.Web.Download.{Downloads, download}
use veri_proof_hackerton.Web.Download.Access.{
  content_of, IsBuyers, IsOpen-download, HasUniqueTokens, license_by_token_of_tx,
}

-- What the buyer needs besides the receipt: the license's token, a time before its expiry, the right
-- account, and an asset of one image whose original is kept.
pub record CanFetch (d : Downloads) (now : ℕ) (user : Option String) (token : String) (r : Receipt)
    (w : World) : Type 0 where
  pub asset : IpAsset
  pub original : String
  pub expires_at : ℕ
  pub of_token : r.license.download_token ≡ some token
  pub expires : r.license.download_expires_at ≡ some expires_at
  pub early : now < expires_at
  pub owned : IsBuyers user r.license.buyer_user
  pub of_asset : asset_by_id r.license.asset w ≡ some asset
  pub kept : asset.original_purged ≡ false
  pub stored : d.read_temporary asset.id ≡ some original
  pub single : d.gallery_images asset.id ≡ []

-- After a settlement that is answered with 200, the token of its license fetches the work's
-- original: before the license expires, by the account that it names if it names one, as long as the
-- original is kept and the work has one image. Tokens are supposed unique among the licenses.
pub settle-download :
    (s : SettlementService) (lib : Library) (request : Request) (asset_id : String) (w w' : World)
    (r : Receipt) (d : Downloads) (now : ℕ) (user : Option String) (token : String)
    → IsConsistent w
    → settle s lib request asset_id w ≡ (succeeded r, w')
    → HasUniqueTokens w'.licenses
    → (can : CanFetch d now user token r w')
    → content_of (download d now user token w') ≡ some can.original
settle-download s lib request asset_id w w' r d now user token ok settled unique can =
    let ((x, _, _, stored), _) =
      subst (IsAnswered s lib request asset_id w) settled
        (settle-IsAnswered s lib request asset_id w ok) in
    IsOpen-download d now user token w'
      (record {
        license = r.license;
        asset = can.asset;
        original = can.original;
        by_token =
            license_by_token_of_tx w'.licenses r.license x.tx_signature token unique stored
              can.of_token;
        active = (can.expires_at, can.expires, can.early);
        owned = can.owned;
        of_asset = can.of_asset;
        kept = can.kept;
        stored = can.stored;
      })
      can.single
