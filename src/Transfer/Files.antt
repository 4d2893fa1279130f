-- ===== src/Transfer/Files.antt =====
-- The uploads of files and messages in src/DataTransfer.cpp.
use camannex.Base.{ℕ, ◌/◌, List, [], ◌∷◌, ◌++◌, Bytes, codes, Option, ◌>>=◌, map}
use camannex.Base.Int.{ℤ}
use camannex.Base.Text.{decimal3, signed}
use camannex.Transfer.{
  Transfer, Url, insert_all, ot1_list_url, send_ot2_cut_image_list_url, image_quality_file_url,
  send_fits_preview_url, send_mag_calibration_url, look_back_result_url, send_log_msg_url,
}
use camannex.Transfer.Upload.{Answer, Outcome, upload_datas, print_to}

-- dateToStr of a time whose strftime text is `stamp`.
unfoldable pub date_to_str : Bytes → ℕ → Bytes
unfolding decimal3
date_to_str stamp usec = stamp ++ b'.' ∷ decimal3 (usec / 1000)

-- ENUM_MSG and ST_MSGBUF, with the strftime text of its seconds.
pub data EnumMsg : Type 0 where
  state : EnumMsg
  error : EnumMsg
  other : EnumMsg

pub record StMsgbuf : Type 0 where
  pub msgtype : EnumMsg
  pub msgmark : ℤ
  pub stamp : Bytes
  pub usec : ℕ
  pub msgtext : Bytes

-- The pair for the type of a message.
unfoldable pub type_pair : EnumMsg → List (Bytes × Bytes)
type_pair error = (codes "msgType", codes "error") ∷ []
type_pair state = (codes "msgType", codes "state") ∷ []
type_pair other = []

-- The pairs of the files: every name under `fileUpload`.
unfoldable pub file_pairs : List Bytes → List (Bytes × Bytes)
file_pairs = map λ name. (codes "fileUpload", name)

-- A text that is passed in has no zero.
module _ (source : Bytes) where
  -- A form with the type of the files and their names, which all that send files make.
  unfoldable pub send_files :
      Transfer → Url → Bytes → Bytes → List Bytes → Option ℕ → Answer → Option Outcome
  unfolding insert_all file_pairs upload_datas
  send_files t u file_type path names =
      upload_datas source t (t.url u) path (insert_all ((codes "fileType", file_type) ∷ []) [])
        (insert_all (file_pairs names) [])

  unfoldable pub send_ot1_list_file : Transfer → Bytes → Bytes → Option ℕ → Answer → Option Outcome
  unfolding send_files
  send_ot1_list_file t path f_name = send_files t ot1_list_url (codes "crsot1") path (f_name ∷ [])

  unfoldable pub send_ot2_cut_image :
      Transfer → Bytes → List Bytes → Option ℕ → Answer → Option Outcome
  unfolding send_files
  send_ot2_cut_image t path f_names =
      send_files t send_ot2_cut_image_list_url (codes "ot2im") path f_names

  unfoldable pub send_ot2_cut_image_ref :
      Transfer → Bytes → List Bytes → Option ℕ → Answer → Option Outcome
  unfolding send_files
  send_ot2_cut_image_ref t path f_names =
      send_files t send_ot2_cut_image_list_url (codes "ot2imr") path f_names

  unfoldable pub send_image_quality_file :
      Transfer → Bytes → Bytes → Option ℕ → Answer → Option Outcome
  unfolding send_files
  send_image_quality_file t path f_name =
      send_files t image_quality_file_url (codes "imqty") path (f_name ∷ [])

  unfoldable pub send_fits_preview : Transfer → Bytes → Bytes → Option ℕ → Answer → Option Outcome
  unfolding send_files
  send_fits_preview t path f_name =
      send_files t send_fits_preview_url (codes "impre") path (f_name ∷ [])

  unfoldable pub send_mag_calibration_file :
      Transfer → Bytes → Bytes → Option ℕ → Answer → Option Outcome
  unfolding send_files
  send_mag_calibration_file t path f_name =
      send_files t send_mag_calibration_url (codes "magclb") path (f_name ∷ [])

  -- DataTransfer::sendLookBackResult. `flagStr` has ten bytes.
  unfoldable pub send_look_back_result : Transfer → Bytes → ℤ → Option ℕ → Answer → Option Outcome
  unfolding insert_all print_to signed upload_datas
  send_look_back_result t ot2_name flag room a = print_to 10 (signed flag) >>= λ flag_str.
      upload_datas source t (t.url look_back_result_url) []
        (insert_all ((codes "ot2name", ot2_name) ∷ (codes "flag", flag_str) ∷ []) []) [] room a

  -- DataTransfer::sendLogMsg. `flagStr` has ten bytes, `dateStr` 40.
  unfoldable pub send_log_msg : Transfer → StMsgbuf → Option ℕ → Answer → Option Outcome
  unfolding insert_all print_to signed type_pair date_to_str upload_datas
  send_log_msg t msg room a = print_to 10 (signed msg.msgmark) >>= λ flag_str.
      print_to 40 (date_to_str msg.stamp msg.usec) >>= λ date_str.
      upload_datas source t (t.url send_log_msg_url) []
        (insert_all
          (((codes "logType", codes "logchb") ∷ type_pair msg.msgtype)
            ++ (codes "msgCode", flag_str)
              ∷ (codes "msgDate", date_str)
              ∷ (codes "msgContent", msg.msgtext)
              ∷ [])
          [])
        [] room a
