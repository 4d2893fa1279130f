-- ===== src/Transfer/Requests.antt =====
-- What the uploads of src/DataTransfer.cpp ask the server, and what they make of its answer.
use camannex.Base.{
  ℕ, ◌+◌, ◌<◌, ◌^◌, ◌≡◌, ◌≢◌, refl, List, [], ◌∷◌, ◌++◌, Bytes, true, false, ◌&&◌, Option, none,
  some, ltb, lt→ltb, ◌==◌, if◌then◌else◌, ◌>>=◌, length, All, arith, length-append, ◌∙◌,
}
use camannex.Base.Text.{c_string}
use camannex.Transfer.{Pairs, CurlCache, Transfer, Url, action, new_transfer}
use camannex.Transfer.Reply.{Piece, receive, reply, IsWhole, receive-reply, terminator}
use camannex.Transfer.Upload.{Answer, Part, form_of, judge, print_to, perform, upload_datas}

-- A text in front of its zero is read back.
c_string-append : (xs rest : Bytes) → All (λ c. c ≢ 0) xs → c_string (xs ++ 0 ∷ rest) ≡ some xs
unfolding c_string
c_string-append [] rest h = refl
c_string-append (x ∷ xs) rest (h, hs) = ground (arith, c_string-append xs rest hs)

-- A text without zero has no end.
c_string-none : (xs : Bytes) → All (λ c. c ≢ 0) xs → c_string xs ≡ none
unfolding c_string
c_string-none [] h = refl
c_string-none (x ∷ xs) (h, hs) = ground (arith, c_string-none xs hs)

-- The server took the request: a session, no error, and the response code 200.
abbrev pub IsAccepted : Answer → Type 0
IsAccepted a = (a.session ≡ true) × (a.code ≡ 0) × (a.http_code ≡ 200) × (a.info ≡ 0)

-- A reply of whole pieces, none of whose bytes is zero.
abbrev pub IsText : List Piece → Type 0
IsText ps = All IsWhole ps × All (λ c. c ≢ 0) (reply ps) × (length (reply ps) + 1 < 2 ^ 64)

terminator_zero : (z : ℕ) (ps : List Piece) → ps ≢ [] → terminator z ps ≡ 0
terminator_zero z [] ne = absurd (ne refl)
terminator_zero z (p ∷ ps) ne = refl

-- The server answers 200 with a text that is not empty.
abbrev pub IsTaken : Answer → Type 0
IsTaken a = IsAccepted a × (a.pieces ≢ []) × IsText a.pieces

judge-reply :
    (source : Bytes) (a : Answer) (memory : Option Bytes)
    → IsAccepted a
    → judge source a memory ≡ (memory >>= c_string >>= λ text. some (0, text ++ 10 ∷ []))
unfolding judge
judge-reply source a memory (s, c, h, i) = rw (c, h, i) refl

perform-reply :
    (source url : Bytes) (parts : List Part) (room : ℕ) (a : Answer)
    → IsTaken a
    → length url < 10240
    → perform source room url parts a ≡ (
        if ltb (length (reply a.pieces) + 1) room
        then some (record {
          rst_code = 0;
          status = some (reply a.pieces ++ 10 ∷ []);
          request = some (url, parts);
          leaked = [];
        })
        else none)
unfolding perform print_to
perform-reply source url parts room a (ok, some_piece, (whole, text, fits)) short =
    rw
      (
        lt→ltb (length url) 10240 short,
        receive-reply a.junk a.pieces whole fits,
        terminator_zero a.junk a.pieces some_piece,
        judge-reply source a (some (reply a.pieces ++ 0 ∷ [])) ok,
        c_string-append (reply a.pieces) [] text,
        length-append,
      )
      (ground arith)

action_short : (u : Url) → (0 < length (action u)) × (length (action u) < 40)
unfolding action
action_short Url.ot1_list_url = (omega arith, omega arith)
action_short Url.get_ot2_cut_image_list_url = (omega arith, omega arith)
action_short Url.image_quality_file_url = (omega arith, omega arith)
action_short Url.look_back_result_url = (omega arith, omega arith)
action_short Url.send_ot2_cut_image_list_url = (omega arith, omega arith)
action_short Url.ot2_tmpl_cut_image_list_url = (omega arith, omega arith)
action_short Url.send_log_msg_url = (omega arith, omega arith)
action_short Url.send_mag_calibration_url = (omega arith, omega arith)
action_short Url.send_fits_preview_url = (omega arith, omega arith)
action_short Url.reg_orig_img_url = (omega arith, omega arith)
action_short Url.update_vacuum_url = (omega arith, omega arith)
action_short Url.update_temperature_url = (omega arith, omega arith)
action_short Url.update_focus_url = (omega arith, omega arith)
action_short Url.update_mount_status_url = (omega arith, omega arith)
action_short Url.update_camera_status_url = (omega arith, omega arith)
action_short Url.update_obs_ctl_sys_status_url = (omega arith, omega arith)

upload_datas-perform :
    (source url path : Bytes) (params files : Pairs) (t : Transfer) (cache : CurlCache) (room : ℕ)
    (a : Answer)
    → 0 < length url
    → 0 < length params + length files
    → t.tmp_chunk ≡ some cache
    → a.session ≡ true
    → upload_datas source t (some url) path params files (some room) a
      ≡ perform source room url (form_of path params files) a
unfolding upload_datas
upload_datas-perform source [] path params files t cache room a some_url full here begun =
    absurd (omega arith)
upload_datas-perform source (c ∷ url) path params files t cache room a some_url full here begun =
    let left : (length params == 0 && length files == 0) ≡ false = ground arith in
    rw (left, here, begun) refl

-- A DataTransfer all of whose allocations found memory.
abbrev pub client : CurlCache → Bytes → Transfer
client cache root = new_transfer (λ u. true) (some cache) root

-- With a form that is not empty, a root below 10200 bytes and a server that answers 200 with a text,
-- uploadDatas returns success with the text and a line feed, has asked the URL for the whole form, and
-- leaks nothing, exactly if the caller's buffer holds the text and its end; else it writes behind it.
pub upload_datas-reply :
    (source root path : Bytes) (u : Url) (params files : Pairs) (cache : CurlCache) (room : ℕ)
    (a : Answer)
    → length root < 10200
    → 0 < length params + length files
    → IsTaken a
    → let t = client cache root in
      upload_datas source t (t.url u) path params files (some room) a ≡ (
        if ltb (length (reply a.pieces) + 1) room
        then some (record {
          rst_code = 0;
          status = some (reply a.pieces ++ 10 ∷ []);
          request = some (root ++ action u, form_of path params files);
          leaked = [];
        })
        else none)
unfolding new_transfer
upload_datas-reply source root path u params files cache room a short full ok =
    let size = action_short u in
    upload_datas-perform source (root ++ action u) path params files (client cache root) cache room
      a (omega (arith, length-append root (action u), size.0)) full refl ok.0.0
    ∙ perform-reply source (root ++ action u) (form_of path params files) room a ok
        (omega (arith, length-append root (action u), size.1))

-- Where the server answers 200 with an empty reply, and the byte of the fresh block is not zero,
-- uploadDatas prints memory behind the block.
pub upload_datas-empty_reply :
    (source root path : Bytes) (u : Url) (params files : Pairs) (cache : CurlCache) (room : ℕ)
    (a : Answer)
    → length root < 10200
    → 0 < length params + length files
    → IsAccepted a
    → a.pieces ≡ []
    → a.junk ≢ 0
    → let t = client cache root in
      upload_datas source t (t.url u) path params files (some room) a ≡ none
unfolding new_transfer perform receive
upload_datas-empty_reply source root path u params files cache room a short full ok e junk =
    let size = action_short u in
    upload_datas-perform source (root ++ action u) path params files (client cache root) cache room
      a (omega (arith, length-append root (action u), size.0)) full refl ok.0
    ∙ (rw
        (
          lt→ltb (length (root ++ action u)) 10240
              (omega (arith, length-append root (action u), size.1)),
          e,
          receive,
          judge-reply source a (some (a.junk ∷ [])) ok,
          c_string-none (a.junk ∷ []) (junk, tt),
        )
        refl)
