-- ===== src/Tests/Web.antt =====
-- The endpoints at concrete requests.
use veri_proof_hackerton.Prelude.{String, true, none, some, [], ◌∷◌, ◌≡◌, refl, inr, arith, eq_iff}
use veri_proof_hackerton.Models.{World}
use veri_proof_hackerton.Json.{Json, null, text, array, item, nil, object, Fields, end, field}
use veri_proof_hackerton.Settlement.{
  Receipt, settle_pipeline, verify_payment, settle_verified, finish,
}
use veri_proof_hackerton.Settlement.Pipeline.{IsConsistent}
use veri_proof_hackerton.Royalty.Ledger.{booked, delivered}
use veri_proof_hackerton.License.{is_download_active, grant}
use veri_proof_hackerton.Events.{try_record_event, record_event, best_effort}
use veri_proof_hackerton.Web.{Request, Library, json_object, resolve_session}
use veri_proof_hackerton.Web.Settle.{SettleReply, succeeded, settle, IsAnswered, settle-IsAnswered}
use veri_proof_hackerton.Web.Webhook.{Webhook, paysh_webhook, paysh_webhook_forged, IsRefused}
use veri_proof_hackerton.Web.Download.{Downloads, download}
use veri_proof_hackerton.Web.Download.Access.{IsOpen, download-IsOpen, content_of}
use veri_proof_hackerton.Web.Delivery.{settle-download}
use veri_proof_hackerton.System.{◌⟶*◌, here, next, settled, notified, server-IsConsistent}
use veri_proof_hackerton.Tests.{parent_asset, empty_world, settling, sample_license}

abbrev body_fields : Fields
body_fields = field "tx_signature" (text "tx1") (
    field "buyer_wallet" (text "buyer") (
      field "items" (array (item (text "parent") nil)) (field "buyer_agent_id" (text "agent") end)))

abbrev pub sample_library : Library
sample_library = record {
  loads = λ body. some (object body_fields);
  uuid_of = λ value. none;
  str_of = str;
  finite_decimal = λ t. none;
}
  where
    str : Json → String
    str (text t) = t
    str null = "None"
    str (Json.bool b) = ""
    str (Json.number n) = ""
    str (array xs) = ""
    str (object fields) = ""

abbrev pub sample_request : Request
sample_request = record { is_post = true; raw_body = "{...}"; paysh_signature = "forged" }

settle-IsAnswered_example :
    IsAnswered settling sample_library sample_request "parent" empty_world
      (settle settling sample_library sample_request "parent" empty_world)
unfolding booked delivered
settle-IsAnswered_example =
    settle-IsAnswered settling sample_library sample_request "parent" empty_world (tt, refl)

abbrev hook : Webhook
hook = record {
  secret = "secret";
  hmac_sha256 = λ key body. "digest";
  is_ascii = λ t. true;
  publish = λ fields. none;
}

paysh_webhook_forged_example :
    IsRefused empty_world (paysh_webhook settling sample_library hook sample_request empty_world)
paysh_webhook_forged_example =
    paysh_webhook_forged settling sample_library hook sample_request empty_world
      (inr (ground (arith, eq_iff "digest" "forged")))

abbrev files : Downloads
files = record {
  read_temporary = λ id. some "bytes";
  gallery_images = λ id. [];
  mime_essence = λ mime. mime;
  guess_extension = λ mime. none;
  path_name = λ name. name;
  digits = λ n. "1";
}

abbrev sold : World
sold = record empty_world { licenses = sample_license ∷ [] }

download-IsOpen_example : IsOpen files 2000 none "token0" sold
unfolding download is_download_active
download-IsOpen_example = download-IsOpen files 2000 none "token0" sold refl

abbrev after_sale : World
after_sale = (settle settling sample_library sample_request "parent" empty_world).1

two_requests :
    empty_world ⟶* (paysh_webhook settling sample_library hook sample_request after_sale).1
two_requests =
    next (settled settling sample_library sample_request "parent" empty_world)
      (next (notified settling sample_library hook sample_request after_sale) here)

server-IsConsistent_example :
    IsConsistent (paysh_webhook settling sample_library hook sample_request after_sale).1
unfolding booked delivered
server-IsConsistent_example = server-IsConsistent two_requests (tt, refl)

abbrev no_receipt : Receipt
no_receipt = record {
  license = sample_license;
  certificate_tx = none;
  download_url = "";
  download_expires_at = none;
}

abbrev receipt_of : SettleReply → Receipt
receipt_of (succeeded r) = r
receipt_of (SettleReply.error f) = no_receipt
receipt_of SettleReply.crashed = no_receipt

settle-download_example :
    content_of (
      download files 2000 none "token"
        (settle settling sample_library sample_request "parent" empty_world).1)
    ≡ some "bytes"
unfolding booked delivered settle json_object resolve_session settle_pipeline verify_payment
    settle_verified finish try_record_event record_event grant best_effort
settle-download_example =
    settle-download settling sample_library sample_request "parent" empty_world after_sale
      (receipt_of (settle settling sample_library sample_request "parent" empty_world).0) files 2000
      none "token" (tt, refl) refl (tt, tt)
      (record {
        asset = parent_asset;
        original = "bytes";
        expires_at = 4600;
        of_token = refl;
        expires = refl;
        early = omega arith;
        owned = tt;
        of_asset = refl;
        kept = refl;
        stored = refl;
        single = refl;
      })
