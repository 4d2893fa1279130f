-- ===== src/Transfer/Upload.antt =====
-- DataTransfer::uploadDatas of src/DataTransfer.cpp: one request over HTTP with a form.
use camannex.Base.{
  ℕ, List, [], ◌∷◌, ◌++◌, Bytes, codes, Bool, true, false, not, ◌&&◌, Option, none, some, ltb, ◌==◌,
  if◌then◌else◌, ◌>>=◌, length, map,
}
use camannex.Base.Text.{decimal, c_string}
use camannex.Transfer.{
  Pairs, CurlCache, Transfer, gwac_success, gwac_function_input_null, gwac_function_input_empty,
  gwac_status_str_null, gwac_string_null_or_empty, gwac_send_data_error,
}
use camannex.Transfer.Reply.{Piece, receive}

abbrev pub is_some {ℓ} : {A : Type ℓ} → Option A → Bool
is_some none = false
is_some (some a) = true

-- One curl_formadd: a name with its contents, or with the path of a file.
pub data Part : Type 0 where
  field : Bytes → Bytes → Part
  file : Bytes → Bytes → Part

-- What libcurl and the system do in one upload.
pub record Answer : Type 0 where
  -- whether curl_easy_init gives a session
  pub session : Bool
  -- the calls of the callback, and the code of curl_easy_perform; 0 is CURLE_OK
  pub pieces : List Piece
  pub code : ℕ
  -- curl_easy_getinfo: its code, and the response code that it stores
  pub info : ℕ
  pub http_code : ℕ
  -- the text of the error buffer, and curl_easy_strerror of the code
  pub error : Bytes
  pub strerror : Bytes
  -- what fresh memory holds
  pub junk : ℕ

-- What is allocated for one upload and not for the object.
pub data Block : Type 0 where
  form : Block
  header_list : Block
  chunk_memory : Block

-- What an upload returns, what it writes to `statusstr`, the request that it performs, and what it
-- has not freed at its end.
pub record Outcome : Type 0 where
  pub rst_code : ℕ
  pub status : Option Bytes
  pub request : Option (Bytes × List Part)
  pub leaked : List Block

-- The loops that add the parts.
unfoldable pub form_of : Bytes → Pairs → Pairs → List Part
form_of path params files =
    map (λ p. field p.0 p.1) params ++ map (λ p. file p.0 (path ++ p.1)) files

-- `File %s line %d, Error Code: %d\n`, with the name of the source as it was built.
unfoldable pub at_line : Bytes → ℕ → ℕ → Bytes
at_line source line n =
    codes "File "
    ++ (source
        ++ (codes " line " ++ (decimal line ++ (codes ", Error Code: " ++ (decimal n ++ 10 ∷ [])))))

-- CHECK_STRING_NULL_OR_EMPTY(url, "url"): its text
unfoldable pub url_text : Bytes → Bytes
url_text source =
    codes "Error Code: "
    ++ (decimal gwac_string_null_or_empty
        ++ (10 ∷ codes "File "
            ++ (source
                ++ (codes " line "
                    ++ (decimal 399 ++ (codes ", string \"url\" is NULL or empty!" ++ 10 ∷ []))))))

-- The text for a response code other than 200.
unfoldable pub http_text : Bytes → Answer → Bytes
http_text source a =
    codes "File "
    ++ (source
        ++ (codes " line "
            ++ (decimal 524
                ++ (codes ", Error Code of http: "
                    ++ (decimal a.http_code
                        ++ (10 ∷ codes "curl_easy_perform() error: "
                            ++ (a.strerror
                                ++ (codes ", server response: " ++ (a.error ++ 10 ∷ [])))))))))

-- sprintf to `statusstr`, which points to `room` bytes: `none` where it writes behind them.
unfoldable pub print_to : ℕ → Bytes → Option Bytes
print_to room s = if ltb (length s) room then some s else none

-- What follows curl_easy_perform: the code and the text. `memory` is what tmpChunk points to.
unfoldable pub judge : Bytes → Answer → Option Bytes → Option (ℕ × Bytes)
unfolding at_line http_text c_string
judge source a memory =
    if not (a.code == 0)
    then some (
      gwac_send_data_error,
      at_line source 509 gwac_send_data_error
          ++ (codes "curl_easy_perform() failed: " ++ (a.strerror ++ 10 ∷ [])),
    )
    else if a.http_code == 200 && a.info == 0
    then (memory >>= c_string >>= λ text. some (gwac_success, text ++ 10 ∷ []))
    else some (gwac_send_data_error, http_text source a)

module _ (source : Bytes) where
  -- The branch in which there is a session. The URL is copied to 10240 bytes.
  unfoldable pub perform : ℕ → Bytes → List Part → Answer → Option Outcome
  unfolding judge print_to
  perform room url parts a =
      let block : CurlCache = record { memory = some (a.junk ∷ []); size = 0 } in
      if not (ltb (length url) 10240)
      then none
      else (receive a.junk a.pieces block >>= λ r. judge source a r.1.memory >>= λ j.
          print_to room j.1 >>= λ text.
          some (record {
            rst_code = j.0;
            status = some text;
            request = some (url, parts);
            leaked = [];
          }))

  -- An upload that ends before it makes anything.
  unfoldable pub refuse : ℕ → ℕ → Bytes → Option Outcome
  unfolding print_to
  refuse n room text = print_to room text >>= λ s.
      some (record { rst_code = n; status = some s; request = none; leaked = [] })

  -- DataTransfer::uploadDatas. `statusstr` is NULL or points to so many bytes; `none` where the code
  -- reads or writes memory that is not its own. The allocations of fixed size find memory.
  unfoldable pub upload_datas :
      Transfer → Option Bytes → Bytes → Pairs → Pairs → Option ℕ → Answer → Option Outcome
  unfolding perform refuse form_of at_line url_text
  upload_datas t url path params files none a =
      some (record { rst_code = gwac_status_str_null; status = none; request = none; leaked = [] })
  upload_datas t none path params files (some room) a =
      refuse gwac_function_input_null room (url_text source)
  upload_datas t (some []) path params files (some room) a =
      refuse gwac_function_input_null room (url_text source)
  upload_datas t (some (c ∷ url)) path params files (some room) a =
      let none_text =
        at_line source 406 gwac_function_input_empty
        ++ (codes "the input parameter objvec is empty!" ++ 10 ∷ []) in
      let text =
        at_line source 548 gwac_send_data_error
        ++ (codes "In uploadDatas, the input parameter objvec is empty!" ++ 10 ∷ []) in
      if length params == 0 && length files == 0
      then refuse gwac_function_input_empty room none_text
      else if not (is_some t.tmp_chunk)
      then none
      else if a.session
      then perform room (c ∷ url) (form_of path params files) a
      else (print_to room text >>= λ s. some (record {
        rst_code = gwac_send_data_error;
        status = some s;
        request = none;
        leaked = form ∷ header_list ∷ chunk_memory ∷ [];
      }))
