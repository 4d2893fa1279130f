-- ===== src/Transfer/Send.antt =====
-- The uploads of records in src/DataTransfer.cpp: which pairs each function sends, and to which URL.
use camannex.Base.{ℕ, [], ◌∷◌, Bytes, codes, Option}
use camannex.Base.Int.{ℤ}
use camannex.Base.Text.{signed}
use camannex.Transfer.{
  Pairs, Transfer, Url, insert_all, reg_orig_img_url, update_vacuum_url, update_temperature_url,
  update_focus_url, update_mount_status_url, update_camera_status_url,
  update_obs_ctl_sys_status_url,
}
use camannex.Transfer.Upload.{Answer, Outcome, upload_datas}

-- `F` is `float`, `show` the text of `%f`, at most 47 characters, which fit `tstr`. A text that is
-- passed in has no zero.
module _ (source : Bytes) (F : Type 0) (show : F → Bytes) where
  -- What all of them do at their end.
  unfoldable pub upload :
      Transfer → Url → Bytes → Pairs → Pairs → Option ℕ → Answer → Option Outcome
  unfolding insert_all upload_datas
  upload t u path params files =
      upload_datas source t (t.url u) path (insert_all params []) (insert_all files [])

  unfoldable pub upload_focus : Transfer → ℤ → ℤ → ℤ → Option ℕ → Answer → Option Outcome
  unfolding upload signed
  upload_focus t fbf_id focus camera_id =
      upload t update_focus_url []
        ((codes "fbfId", signed fbf_id)
          ∷ (codes "focus", signed focus)
          ∷ (codes "cameraId", signed camera_id)
          ∷ [])
        []

  unfoldable pub upload_mount_status :
      Transfer
      → (group_id unit_id utc : Bytes) → (state errcode : ℤ) → (ra dec obj_ra obj_dec : F)
      → Option ℕ
      → Answer
      → Option Outcome
  unfolding upload signed
  upload_mount_status t group_id unit_id utc state errcode ra dec obj_ra obj_dec =
      upload t update_mount_status_url []
        ((codes "groupId", group_id)
          ∷ (codes "unitId", unit_id)
          ∷ (codes "utc", utc)
          ∷ (codes "state", signed state)
          ∷ (codes "errcode", signed errcode)
          ∷ (codes "ra", show ra)
          ∷ (codes "dec", show dec)
          ∷ (codes "objRa", show obj_ra)
          ∷ (codes "objDec", show obj_dec)
          ∷ [])
        []

  unfoldable pub upload_camera_status :
      Transfer
      → (group_id unit_id cam_id utc : Bytes) → (mc_state focus : ℤ) → (coolget : F)
      → (filter : Bytes) → (state errcode : ℤ) → (img_type obj_name : Bytes) → (frm_no : ℤ)
      → (file_name : Bytes) → Option ℕ
      → Answer
      → Option Outcome
  unfolding upload signed
  upload_camera_status t group_id unit_id cam_id utc mc_state focus coolget filter state errcode
        img_type obj_name frm_no file_name =
      upload t update_camera_status_url []
        ((codes "groupId", group_id)
          ∷ (codes "unitId", unit_id)
          ∷ (codes "camId", cam_id)
          ∷ (codes "utc", utc)
          ∷ (codes "mcState", signed mc_state)
          ∷ (codes "focus", signed focus)
          ∷ (codes "coolget", show coolget)
          ∷ (codes "filter", filter)
          ∷ (codes "state", signed state)
          ∷ (codes "errcode", signed errcode)
          ∷ (codes "imgType", img_type)
          ∷ (codes "objName", obj_name)
          ∷ (codes "frmNo", signed frm_no)
          ∷ (codes "fileName", file_name)
          ∷ [])
        []

  unfoldable pub upload_obs_ctl_sys_status :
      Transfer
      → (group_id unit_id utc : Bytes) → (state op_sn : ℤ) → (op_time : Bytes) → Option ℕ
      → Answer
      → Option Outcome
  unfolding upload signed
  upload_obs_ctl_sys_status t group_id unit_id utc state op_sn op_time =
      upload t update_obs_ctl_sys_status_url []
        ((codes "groupId", group_id)
          ∷ (codes "unitId", unit_id)
          ∷ (codes "utc", utc)
          ∷ (codes "state", signed state)
          ∷ (codes "opSn", signed op_sn)
          ∷ (codes "opTime", op_time)
          ∷ [])
        []

  unfoldable pub upload_temperature :
      Transfer
      → (group_id unit_id cam_id : Bytes) → (voltage current thot coolget coolset : F)
      → (time : Bytes) → Option ℕ
      → Answer
      → Option Outcome
  unfolding upload
  upload_temperature t group_id unit_id cam_id voltage current thot coolget coolset time =
      upload t update_temperature_url []
        ((codes "groupId", group_id)
          ∷ (codes "unitId", unit_id)
          ∷ (codes "camId", cam_id)
          ∷ (codes "voltage", show voltage)
          ∷ (codes "current", show current)
          ∷ (codes "thot", show thot)
          ∷ (codes "coolget", show coolget)
          ∷ (codes "coolset", show coolset)
          ∷ (codes "time", time)
          ∷ [])
        []

  unfoldable pub upload_vacuum :
      Transfer
      → (group_id unit_id cam_id : Bytes) → (voltage current pressure : F) → (time : Bytes)
      → Option ℕ
      → Answer
      → Option Outcome
  unfolding upload
  upload_vacuum t group_id unit_id cam_id voltage current pressure time =
      upload t update_vacuum_url []
        ((codes "groupId", group_id)
          ∷ (codes "unitId", unit_id)
          ∷ (codes "camId", cam_id)
          ∷ (codes "voltage", show voltage)
          ∷ (codes "current", show current)
          ∷ (codes "pressure", show pressure)
          ∷ (codes "time", time)
          ∷ [])
        []

  unfoldable pub reg_orig_image :
      Transfer
      → (group_id unit_id cam_id grid_id field_id img_name img_path gen_time : Bytes) → Option ℕ
      → Answer
      → Option Outcome
  unfolding upload
  reg_orig_image t group_id unit_id cam_id grid_id field_id img_name img_path gen_time =
      upload t reg_orig_img_url []
        ((codes "groupId", group_id)
          ∷ (codes "unitId", unit_id)
          ∷ (codes "camId", cam_id)
          ∷ (codes "gridId", grid_id)
          ∷ (codes "fieldId", field_id)
          ∷ (codes "imgName", img_name)
          ∷ (codes "imgPath", img_path)
          ∷ (codes "genTime", gen_time)
          ∷ [])
        []
