-- ===== src/Web/Download.antt =====
-- GET /files/{token}: `download` of veriproof/apps/settlement/views_api.py, with `extension_for_mime`
-- of veriproof/services/storage_service.py.
pub mod Access
use veri_proof_hackerton.Prelude.{
  ℕ, suc, String, Bool, true, false, not, Option, none, some, List, [], ◌∷◌, ◌+◌, ◌==◌, ◌&&◌, ◌||◌,
  find, append_text, if◌then◌else◌,
}
use veri_proof_hackerton.Models.{IpAsset, License, World, asset_by_id}
use veri_proof_hackerton.License.{is_download_active}
use veri_proof_hackerton.Web.{Failure, failure}

-- A further image of a work: apps/ip/models.py, `AssetImage`.
pub record AssetImage : Type 0 where
  pub id : String
  pub file_name : String
  pub position : ℕ

-- The stored originals by id, the rows of an asset's gallery by position, and from Python's library
-- `split(";", 1)[0].strip().lower()`, `mimetypes.guess_extension`, `Path(name).name` and `str`.
pub record Downloads : Type 0 where
  pub read_temporary : String → Option String
  pub gallery_images : String → List AssetImage
  pub mime_essence : String → String
  pub guess_extension : String → Option String
  pub path_name : String → String
  pub digits : ℕ → String

pub data DownloadReply : Type 0 where
  -- one file: its MIME type, its name and its content
  file : String → String → String → DownloadReply
  -- a ZIP archive, by its entries
  archive : List (String × String) → DownloadReply
  error : Failure → DownloadReply
  crashed : DownloadReply

abbrev pub has_token : String → License → Bool
has_token token l = elim l.download_token [ none ↦ false | some t ↦ t == token ]

abbrev pub license_by_token : String → List License → Option License
license_by_token token rows = find (has_token token) rows

-- The user is `none` where the request is not authenticated.
abbrev pub may_download : Option String → Option String → Bool
may_download user none = true
may_download none (some buyer) = false
may_download (some user) (some buyer) = user == buyer

abbrev or_text : String → String → String
or_text a b = if a == "" then b else a

module _ (d : Downloads) where
  unfoldable pub download_mime : Option String → String
  download_mime content_mime_type =
      or_text (d.mime_essence (elim content_mime_type [ none ↦ "" | some t ↦ t ]))
        "application/octet-stream"

  abbrev guessed : Option String → String
  guessed none = ".bin"
  guessed (some extension) = or_text extension ".bin"

  -- `extension_for_mime`, with the overrides for PDF and JPEG.
  unfoldable pub extension_for_mime : String → String
  extension_for_mime content_mime_type =
      let mime : String = d.mime_essence content_mime_type in
      if mime == ""
      then ".bin"
      else if mime == "application/pdf"
      then ".pdf"
      else if mime == "image/jpeg"
      then ".jpg"
      else guessed (d.guess_extension mime)

  unfoldable pub download_file_name : String → String → String
  unfolding extension_for_mime
  download_file_name stem mime = append_text stem (extension_for_mime mime)

  unfoldable pub safe_download_name : String → ℕ → String
  safe_download_name file_name position =
      or_text (d.path_name file_name) (append_text "image-" (d.digits position))

  -- The entries of the gallery, if every image is still there.
  abbrev pub gallery_files : List AssetImage → Option (List (String × String))
  gallery_files [] = some []
  gallery_files (image ∷ rest) = elim (d.read_temporary image.id) [
    | none ↦ none
    | some bytes ↦ elim (gallery_files rest) [
      | none ↦ none
      | some files ↦ some ((safe_download_name image.file_name (image.position + 1), bytes) ∷ files)
    ]
  ]

  abbrev pub archived : IpAsset → String → Option (List (String × String)) → DownloadReply
  archived asset original none = error (failure "purged" 410)
  archived asset original (some files) =
      archive (
        (download_file_name "original-1" (download_mime asset.content_mime_type), original) ∷ files)

  abbrev pub served : IpAsset → String → List AssetImage → DownloadReply
  served asset original [] =
      file (download_mime asset.content_mime_type)
        (download_file_name "original" (download_mime asset.content_mime_type)) original
  served asset original (image ∷ rest) = archived asset original (gallery_files (image ∷ rest))

  abbrev pub with_original : IpAsset → Option String → DownloadReply
  with_original asset none = error (failure "purged" 410)
  with_original asset (some original) =
      if asset.original_purged
      then error (failure "purged" 410)
      else served asset original (d.gallery_images asset.id)

  abbrev pub with_asset : Option IpAsset → DownloadReply
  with_asset none = crashed
  with_asset (some asset) = with_original asset (d.read_temporary asset.id)

  abbrev pub with_license : ℕ → Option String → World → Option License → DownloadReply
  with_license now user w none = error (failure "invalid_token" 403)
  with_license now user w (some license) =
      if not (is_download_active now license)
      then error (failure "expired_token" 403)
      else if not (may_download user license.buyer_user)
      then error (failure "license_not_owned" 403)
      else with_asset (asset_by_id license.asset w)

  unfoldable pub download : ℕ → Option String → String → World → DownloadReply
  download now user token w = with_license now user w (license_by_token token w.licenses)
