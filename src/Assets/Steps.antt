-- ===== src/Assets/Steps.antt =====
-- `register`, `update_asset_terms` and `delete_asset` of veriproof/apps/ip/views_api.py in any order.
use veri_proof_hackerton.Prelude.{String, Bool, Option, some}
use veri_proof_hackerton.Assets.Register.{Counter, Form}
use veri_proof_hackerton.Assets.Submission.{register_work}
use veri_proof_hackerton.Registration.{Office}
use veri_proof_hackerton.Assets.{Desk}
use veri_proof_hackerton.Assets.Update.{update_asset_terms}
use veri_proof_hackerton.Assets.Deletion.{delete_asset}

-- One request to register a work, to change its terms or to delete it; what the services answer may
-- differ from request to request.
infix 40 ◌⟶◌ ◌⟶*◌
pub data ◌⟶◌ : Office → Office → Type 0 where
  registering : (c : Counter) (form : Form) (o : Office) → o ⟶ (register_work c form o).1
  changing :
      (desk : Desk) (is_post : Bool) (user raw_body asset_id : String) (o : Office)
      → o ⟶ (update_asset_terms desk is_post (some user) raw_body asset_id o).1
  removing :
      (is_delete : Bool) (user : Option String) (asset_id : String) (o : Office)
      → o ⟶ (delete_asset is_delete user asset_id o).1

pub data ◌⟶*◌ : Office → Office → Type 0 where
  here : {o : Office} → o ⟶* o
  next : {o o' o'' : Office} → o ⟶ o' → o' ⟶* o'' → o ⟶* o''
