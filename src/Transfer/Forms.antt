-- ===== src/Transfer/Forms.antt =====
-- What sendOT2CutImage and sendLookBackResult of src/DataTransfer.cpp ask the server.
use camannex.Base.{
  ℕ, ◌+◌, ◌*◌, ◌<◌, ◌^◌, ◌≡◌, refl, ap, List, [], ◌∷◌, ◌++◌, Bytes, codes, false, Option, none,
  some, ltb, lt→ltb, if◌then◌else◌, length, map, arith, Bool-cases, inl, inr, ◌∙◌, append-nil,
  append_assoc,
}
use camannex.Base.Int.{ℤ, pos_part, neg_part}
use camannex.Base.Text.{signed, length-signed}
use camannex.Transfer.{
  CurlCache, Transfer, insert, insert_all, ltb_bytes, send_ot2_cut_image_list_url,
  look_back_result_url, action,
}
use camannex.Transfer.Reply.{reply}
use camannex.Transfer.Upload.{Answer, field, file, form_of, print_to, upload_datas}
use camannex.Transfer.Files.{file_pairs, send_ot2_cut_image, send_look_back_result}
use camannex.Transfer.Requests.{IsTaken, client, upload_datas-reply}

ltb_bytes_irrefl : (k : Bytes) → ltb_bytes k k ≡ false
ltb_bytes_irrefl [] = refl
ltb_bytes_irrefl (x ∷ xs) = ground (arith, ltb_bytes_irrefl xs)

-- Pairs of one name keep their order.
insert_same :
    (k v : Bytes) (names : List Bytes)
    → insert k v (map (λ n. (k, n)) names) ≡ map (λ n. (k, n)) (names ++ v ∷ [])
unfolding insert
insert_same k v [] = refl
insert_same k v (n ∷ names) = rw (ltb_bytes_irrefl k, insert_same k v names) refl

insert_all_same :
    (k : Bytes) (names before : List Bytes)
    → insert_all (map (λ n. (k, n)) names) (map (λ n. (k, n)) before)
      ≡ map (λ n. (k, n)) (before ++ names)
unfolding insert_all
insert_all_same k [] before = rw append-nil refl
insert_all_same k (n ∷ names) before =
    rw (insert_same k n before, insert_all)
      (insert_all_same k names (before ++ n ∷ [])
        ∙ ap (map (λ n. (k, n))) (append_assoc before (n ∷ []) names))

map-map {ℓ κ μ} :
    {A : Type ℓ} {B : Type κ} {C : Type μ} (g : B → C) (f : A → B) (xs : List A)
    → map g (map f xs) ≡ map (λ x. g (f x)) xs
map-map g f [] = refl
map-map g f (x ∷ xs) = ap (g (f x) ∷◌) (map-map g f xs)

form_of-files :
    (path ty : Bytes) (names : List Bytes)
    → form_of path (insert_all ((codes "fileType", ty) ∷ []) []) (insert_all (file_pairs names) [])
      ≡ field (codes "fileType") ty ∷ map (λ n. file (codes "fileUpload") (path ++ n)) names
unfolding form_of file_pairs insert_all insert
form_of-files path ty names = rw (insert_all_same (codes "fileUpload") names []) (
    ap (field (codes "fileType") ty ∷◌) (
      map-map (λ (p : Bytes × Bytes). file p.0 (path ++ p.1)) (λ n. (codes "fileUpload", n)) names))

-- sendOT2CutImage asks for the type of the files and then for every file, in order, under the path in
-- front of its name; the rest is as for uploadDatas.
pub send_ot2_cut_image-request :
    (source root path : Bytes) (names : List Bytes) (cache : CurlCache) (room : ℕ) (a : Answer)
    → length root < 10200
    → IsTaken a
    → length (reply a.pieces) + 1 < room
    → send_ot2_cut_image source (client cache root) path names (some room) a
      ≡ some (record {
        rst_code = 0;
        status = some (reply a.pieces ++ 10 ∷ []);
        request = some (
          root ++ codes "commonFileUpload.action",
          field (codes "fileType") (codes "ot2im")
              ∷ map (λ n. file (codes "fileUpload") (path ++ n)) names,
        );
        leaked = [];
      })
unfolding send_ot2_cut_image insert_all insert action
send_ot2_cut_image-request source root path names cache room a short ok fits =
    upload_datas-reply source root path send_ot2_cut_image_list_url
      (insert_all ((codes "fileType", codes "ot2im") ∷ []) []) (insert_all (file_pairs names) [])
      cache room a short (omega arith) ok
    ∙ (rw (lt→ltb (length (reply a.pieces) + 1) room fits, form_of-files path (codes "ot2im") names)
        refl)

-- sendLookBackResult prints the flag into ten bytes: it uploads name and flag exactly for flags from
-- -99999999 to 999999999, and writes behind the ten bytes for all others.
pub send_look_back_result-fits :
    (source name : Bytes) (flag : ℤ) (t : Transfer) (room : Option ℕ) (a : Answer)
    → send_look_back_result source t name flag room a ≡ (
        if ltb (pos_part flag + 10 * neg_part flag) (10 ^ 9)
        then upload_datas source t
            (t.url look_back_result_url)
            []
            ((codes "flag", signed flag) ∷ (codes "ot2name", name) ∷ [])
            []
            room
            a
        else none)
unfolding send_look_back_result print_to insert_all insert
send_look_back_result-fits source name flag t room a =
    elim (Bool-cases (ltb (length (signed flag)) 10)) [
      | inl fits ↦ rw (← length-signed flag, fits) refl
      | inr long ↦ rw (← length-signed flag, long) refl
    ]
