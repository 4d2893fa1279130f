-- ===== src/Transfer.antt =====
-- src/DataTransfer.cpp and src/DataTransfer.h: uploads of forms over HTTP. libcurl is the environment.
pub mod Reply
pub mod Upload
pub mod Send
pub mod Files
pub mod Requests
pub mod Forms
pub mod Release
pub mod Tests
use camannex.Base.{
  ℕ, ◌+◌, List, [], ◌∷◌, ◌++◌, Bytes, codes, Bool, true, false, Option, none, some, ltb, ◌==◌,
  if◌then◌else◌, map,
}

-- The codes of data.h that this part returns.
abbrev pub gwac_success : ℕ
gwac_success = 0

abbrev pub gwac_malloc_error : ℕ
gwac_malloc_error = 3003

abbrev pub gwac_function_input_null : ℕ
gwac_function_input_null = 3004

abbrev pub gwac_function_input_empty : ℕ
gwac_function_input_empty = 3005

abbrev pub gwac_status_str_null : ℕ
gwac_status_str_null = 3006

abbrev pub gwac_string_null_or_empty : ℕ
gwac_string_null_or_empty = 3007

abbrev pub gwac_send_data_error : ℕ
gwac_send_data_error = 3008

-- `a < b` of two strings
abbrev pub ltb_bytes : Bytes → Bytes → Bool
ltb_bytes [] [] = false
ltb_bytes [] (y ∷ ys) = true
ltb_bytes (x ∷ xs) [] = false
ltb_bytes (x ∷ xs) (y ∷ ys) =
    let later = ltb_bytes xs ys in if ltb x y then true else if x == y then later else false

-- multimap<string, string>: pairs in the order of their names, those of one name as they came.
abbrev pub Pairs : Type 0
Pairs = List (Bytes × Bytes)

-- multimap::insert
unfoldable pub insert : Bytes → Bytes → Pairs → Pairs
insert k v [] = (k, v) ∷ []
insert k v ((j, w) ∷ ps) =
    let later = insert k v ps in if ltb_bytes k j then (k, v) ∷ (j, w) ∷ ps else (j, w) ∷ later

-- The inserts of a function, one after the other.
unfoldable pub insert_all : List (Bytes × Bytes) → Pairs → Pairs
unfolding insert
insert_all [] ps = ps
insert_all ((k, v) ∷ rest) ps = insert_all rest (insert k v ps)

-- The members that hold URLs
pub data Url : Type 0 where
  ot1_list_url : Url
  get_ot2_cut_image_list_url : Url
  image_quality_file_url : Url
  look_back_result_url : Url
  send_ot2_cut_image_list_url : Url
  ot2_tmpl_cut_image_list_url : Url
  send_log_msg_url : Url
  send_mag_calibration_url : Url
  send_fits_preview_url : Url
  reg_orig_img_url : Url
  update_vacuum_url : Url
  update_temperature_url : Url
  update_focus_url : Url
  update_mount_status_url : Url
  update_camera_status_url : Url
  update_obs_ctl_sys_status_url : Url

-- What initParameter appends to the root for each.
unfoldable pub action : Url → Bytes
action ot1_list_url = codes "commonFileUpload.action"
action get_ot2_cut_image_list_url = codes "commonFileUpload.action"
action image_quality_file_url = codes "commonFileUpload.action"
action look_back_result_url = codes "otLookBack.action"
action send_ot2_cut_image_list_url = codes "commonFileUpload.action"
action ot2_tmpl_cut_image_list_url = codes "commonFileUpload.action"
action send_log_msg_url = codes "commonLog.action"
action send_mag_calibration_url = codes "commonFileUpload.action"
action send_fits_preview_url = codes "commonFileUpload.action"
action reg_orig_img_url = codes "regOrigImg.action"
action update_vacuum_url = codes "uploadVacuum.action"
action update_temperature_url = codes "uploadTemperature.action"
action update_focus_url = codes "uploadFocusStatus.action"
action update_mount_status_url = codes "uploadMountStatus.action"
action update_camera_status_url = codes "uploadCameraStatus.action"
action update_obs_ctl_sys_status_url = codes "uploadObsCtlSysStatus.action"

-- joinStr: its code, and the text that it stores. `room` says whether malloc finds memory.
unfoldable pub join_str : Bool → Bytes → Bytes → ℕ × Option Bytes
join_str false s1 s2 = (gwac_malloc_error, none)
join_str true s1 s2 = (gwac_success, some (s1 ++ s2))

-- struct CurlCache: the memory that it points to, none for NULL.
pub record CurlCache : Type 0 where
  pub memory : Option Bytes
  pub size : ℕ

-- The members of DataTransfer that are ever set.
pub record Transfer : Type 0 where
  pub root_url : Bytes
  pub url : Url → Option Bytes
  pub tmp_chunk : Option CurlCache

-- The constructor, with initParameter. `room` has the outcome of malloc for each URL, `cache` what
-- it gives for the CurlCache.
unfoldable pub new_transfer : (Url → Bool) → Option CurlCache → Bytes → Transfer
unfolding action join_str
new_transfer room cache root = record {
  root_url = root;
  url = λ u. (join_str (room u) root (action u)).1;
  tmp_chunk = cache;
}

-- `if (... != NULL) free(...)` for these members, in order: those that are freed.
unfoldable pub free_each : Transfer → List Url → List Url
free_each t [] = []
free_each t (u ∷ us) =
    let later = free_each t us in elim (t.url u) [ none ↦ later | some text ↦ u ∷ later ]

-- The order of the destructor.
abbrev pub free_order : List Url
free_order =
    ot1_list_url ∷ get_ot2_cut_image_list_url ∷ image_quality_file_url ∷ look_back_result_url
    ∷ ot2_tmpl_cut_image_list_url ∷ send_ot2_cut_image_list_url ∷ send_log_msg_url
    ∷ send_mag_calibration_url ∷ send_fits_preview_url ∷ reg_orig_img_url ∷ update_vacuum_url
    ∷ update_temperature_url ∷ update_focus_url ∷ update_mount_status_url ∷ update_camera_status_url
    ∷ update_obs_ctl_sys_status_url ∷ []

-- DataTransfer::~DataTransfer: the URLs that it frees, and whether it frees the CurlCache.
unfoldable pub destroy : Transfer → List Url × Bool
unfolding free_each
destroy t =
    (free_each t free_order, elim (t.tmp_chunk) as (λ c. Bool) [ none ↦ false | some c ↦ true ])
