-- ===== src/Transfer/Release.antt =====
-- What the destructor of DataTransfer frees.
use camannex.Base.{
  ℕ, ◌+◌, ◌≡◌, refl, List, [], ◌∷◌, true, none, some, if◌then◌else◌, ◌==◌, arith, Option-cases,
  Bool-cases, zero, if_same, sym, ap, ◌∙◌, get_or, ==_iff, inl, inr,
}
use camannex.Transfer.{Url, Transfer, free_each, free_order, destroy}
use camannex.Transfer.Upload.{is_some}

-- A number for each member.
unfoldable pub index : Url → ℕ
index Url.ot1_list_url = 0
index Url.get_ot2_cut_image_list_url = 1
index Url.image_quality_file_url = 2
index Url.look_back_result_url = 3
index Url.send_ot2_cut_image_list_url = 4
index Url.ot2_tmpl_cut_image_list_url = 5
index Url.send_log_msg_url = 6
index Url.send_mag_calibration_url = 7
index Url.send_fits_preview_url = 8
index Url.reg_orig_img_url = 9
index Url.update_vacuum_url = 10
index Url.update_temperature_url = 11
index Url.update_focus_url = 12
index Url.update_mount_status_url = 13
index Url.update_camera_status_url = 14
index Url.update_obs_ctl_sys_status_url = 15

-- How often a member stands in a list.
unfoldable pub times : Url → List Url → ℕ
unfolding index
times u [] = 0
times u (v ∷ vs) = (if index u == index v then 1 else 0) + times u vs

-- Different members have different numbers.
from_index : ℕ → Url
from_index n =
    get_or
      (Url.ot1_list_url ∷ Url.get_ot2_cut_image_list_url ∷ Url.image_quality_file_url
        ∷ Url.look_back_result_url ∷ Url.send_ot2_cut_image_list_url
        ∷ Url.ot2_tmpl_cut_image_list_url ∷ Url.send_log_msg_url ∷ Url.send_mag_calibration_url
        ∷ Url.send_fits_preview_url ∷ Url.reg_orig_img_url ∷ Url.update_vacuum_url
        ∷ Url.update_temperature_url ∷ Url.update_focus_url ∷ Url.update_mount_status_url
        ∷ Url.update_camera_status_url ∷ Url.update_obs_ctl_sys_status_url ∷ [])
      n Url.ot1_list_url

from_index-index : (u : Url) → from_index (index u) ≡ u
unfolding from_index index
from_index-index Url.ot1_list_url = refl
from_index-index Url.get_ot2_cut_image_list_url = refl
from_index-index Url.image_quality_file_url = refl
from_index-index Url.look_back_result_url = refl
from_index-index Url.send_ot2_cut_image_list_url = refl
from_index-index Url.ot2_tmpl_cut_image_list_url = refl
from_index-index Url.send_log_msg_url = refl
from_index-index Url.send_mag_calibration_url = refl
from_index-index Url.send_fits_preview_url = refl
from_index-index Url.reg_orig_img_url = refl
from_index-index Url.update_vacuum_url = refl
from_index-index Url.update_temperature_url = refl
from_index-index Url.update_focus_url = refl
from_index-index Url.update_mount_status_url = refl
from_index-index Url.update_camera_status_url = refl
from_index-index Url.update_obs_ctl_sys_status_url = refl

times-free_order : (u : Url) → times u free_order ≡ 1
unfolding times
times-free_order Url.ot1_list_url = refl
times-free_order Url.get_ot2_cut_image_list_url = refl
times-free_order Url.image_quality_file_url = refl
times-free_order Url.look_back_result_url = refl
times-free_order Url.send_ot2_cut_image_list_url = refl
times-free_order Url.ot2_tmpl_cut_image_list_url = refl
times-free_order Url.send_log_msg_url = refl
times-free_order Url.send_mag_calibration_url = refl
times-free_order Url.send_fits_preview_url = refl
times-free_order Url.reg_orig_img_url = refl
times-free_order Url.update_vacuum_url = refl
times-free_order Url.update_temperature_url = refl
times-free_order Url.update_focus_url = refl
times-free_order Url.update_mount_status_url = refl
times-free_order Url.update_camera_status_url = refl
times-free_order Url.update_obs_ctl_sys_status_url = refl

index_same : (u v : Url) → (index u == index v) ≡ true → u ≡ v
index_same u v e =
    sym (from_index-index u)
    ∙ (ap from_index ((==_iff (index u) (index v)).0 e) ∙ from_index-index v)

times-free_each :
    (t : Transfer) (u : Url) (us : List Url)
    → times u (free_each t us) ≡ (if is_some (t.url u) then times u us else zero)
unfolding times free_each
times-free_each t u [] = sym (if_same (is_some (t.url u)))
times-free_each t u (v ∷ us) = elim (Option-cases (t.url v)) [
  | inr (text, held) ↦ elim (Bool-cases (index u == index v)) [
    | inl same ↦
        let here : t.url u ≡ some text = rw (index_same u v same) held in
        ground (arith, times-free_each t u us)
    | inr other ↦ ground (arith, times-free_each t u us)
  ]
  | inl free ↦ elim (Bool-cases (index u == index v)) [
    | inl same ↦
        let here : t.url u ≡ none = rw (index_same u v same) free in
        ground (arith, times-free_each t u us)
    | inr other ↦ ground (arith, times-free_each t u us)
  ]
]

-- The destructor frees every URL that has memory once, and no other.
pub destroy-frees :
    (t : Transfer) (u : Url) → times u (destroy t).0 ≡ (if is_some (t.url u) then 1 else 0)
unfolding destroy
destroy-frees t u = rw (times-free_each t u free_order, times-free_order u) refl
