-- ===== src/Transfer/Tests.antt =====
-- Runs of DataTransfer.
use camannex.Base.{ℕ, ◌≡◌, refl, List, [], ◌∷◌, ◌++◌, Bytes, true, none, some, codes, arith, length}
use mathlib.Core.List.{cons-ne-nil}
use camannex.Base.Int.{pos, negsuc}
use camannex.Base.Text.{signed, decimal, digits, decimal3}
use camannex.Transfer.{CurlCache, new_transfer, action, update_focus_url}
use camannex.Transfer.Reply.{Piece, receive, reply, receive-reply}
use camannex.Transfer.Upload.{Answer, field, form_of, upload_datas}
use camannex.Transfer.Send.{upload_focus}
use camannex.Transfer.Files.{date_to_str}
use camannex.Transfer.Requests.{client, upload_datas-reply, upload_datas-empty_reply}

minus_120 : signed (negsuc 119) ≡ codes "-120"
unfolding signed decimal digits
minus_120 = refl

milliseconds : date_to_str (codes "2018-06-14T08:11:30") 42999 ≡ codes "2018-06-14T08:11:30.042"
unfolding date_to_str decimal3 decimal digits
milliseconds = refl

abbrev pub cache : CurlCache
cache = record { memory = none; size = 0 }

abbrev pub piece : Bytes → Piece
piece bytes = record { contents = bytes; size = 1; nmemb = length bytes; room = true }

abbrev pub answer : List Piece → Answer
answer ps = record {
  session = true;
  pieces = ps;
  code = 0;
  info = 0;
  http_code = 200;
  error = [];
  strerror = codes "No error";
  junk = 7;
}

abbrev pub root : Bytes
root = codes "http://h/"

focus_form :
    upload_focus
      (codes "DataTransfer.cpp")
      ℕ
      (λ n. [])
      (client cache root)
      (pos 42)
      (negsuc 1)
      (pos 7)
      (some 200)
      (answer (piece (codes "o") ∷ piece (codes "k") ∷ []))
    ≡ some (record {
      rst_code = 0;
      status = some (codes "ok" ++ 10 ∷ []);
      request = some (
        codes "http://h/uploadFocusStatus.action",
        field (codes "cameraId") (codes "7")
            ∷ field (codes "fbfId") (codes "42")
            ∷ field (codes "focus") (codes "-2")
            ∷ [],
      );
      leaked = [];
    })
unfolding upload_focus signed decimal digits new_transfer action receive upload_datas
focus_form = refl

receive-reply_example :
    receive 7
      (piece (codes "Hello ") ∷ piece [] ∷ piece (codes "world") ∷ [])
      (record { memory = some (7 ∷ []); size = 0 })
    ≡ some (6 ∷ 0 ∷ 5 ∷ [], record { memory = some (codes "Hello world" ++ 0 ∷ []); size = 11 })
unfolding reply
receive-reply_example =
    receive-reply 7 (piece (codes "Hello ") ∷ piece [] ∷ piece (codes "world") ∷ [])
      ((refl, refl), ((refl, refl), ((refl, refl), tt))) (omega arith)

upload_datas-reply_example :
    let t = client cache root in
    upload_datas
      (codes "s")
      t
      (t.url update_focus_url)
      []
      ((codes "focus", codes "5") ∷ [])
      []
      (some 4)
      (answer (piece (codes "ok") ∷ []))
    ≡ some (record {
      rst_code = 0;
      status = some (codes "ok" ++ 10 ∷ []);
      request =
          some (root ++ action update_focus_url, form_of [] ((codes "focus", codes "5") ∷ []) []);
      leaked = [];
    })
unfolding reply
upload_datas-reply_example =
    upload_datas-reply (codes "s") root [] update_focus_url ((codes "focus", codes "5") ∷ []) []
      cache 4 (answer (piece (codes "ok") ∷ [])) (omega arith) (omega arith)
      (
        (refl, refl, refl, refl),
        cons-ne-nil _ _,
        (((refl, refl), tt), (ground arith, (ground arith, tt)), omega arith),
      )

upload_datas-empty_reply_example :
    let t = client cache root in
    upload_datas
      (codes "s")
      t
      (t.url update_focus_url)
      []
      ((codes "focus", codes "5") ∷ [])
      []
      (some 200)
      (answer [])
    ≡ none
upload_datas-empty_reply_example =
    upload_datas-empty_reply (codes "s") root [] update_focus_url ((codes "focus", codes "5") ∷ [])
      [] cache 200 (answer []) (omega arith) (omega arith) (refl, refl, refl, refl) refl
      (ground arith)
