-- ===== src/Rest/Connection.antt =====
-- MgConnectionW, server/src/mg_connection_w.cc: what a node reads of a request and sends back.
use tp.Common.{
  ℕ, zero, suc, not, Option, none, some, List, [], ◌∷◌, ◌++◌, length, ◌==◌, if◌then◌else◌,
}
use tp.Text.{Text, text_eq, codes}
use tp.World.{Platform, M, pure, crash, undefined_behaviour, json_error, ◌>>=◌}

-- A value of the JSON library. `field` is `root[name].asString()`, and `ids` is `root[i]["id"]` for
-- each i; `none` where the library throws.
pub record JsonValue : Type 0 where
  pub size : ℕ
  pub field : Text → Option Text
  pub ids : List (Option Text)

-- A part of a multipart body: the name of the variable, the name of the file, the content; all of
-- them are empty where there is none.
pub record Part : Type 0 where
  pub var_name : Text
  pub file_name : Text
  pub content : Text

-- A request as the web library and the JSON library give it, and the clock and the random numbers
-- while it is served.
--   `body`: what the JSON reader makes of the body, where it can parse it.
--   `null_body`: the value that is made of `nullptr` where it cannot; `none` where that throws.
--   `multipart_offset`: the member of MgConnectionW, 0 at first.
--   `parse_multipart`: what the parser of multipart bodies reads of the body from an offset on, and
--   the number that it returns.
--   `dangling`: what is read through a pointer to the text of a string that is destroyed; any text,
--   or `none` where the read ends the program.
pub record Connection : Type 0 where
  pub uri : Text
  pub request_method : Text
  pub query_string : Option Text
  pub authorization_header : Option Text
  pub body : Option JsonValue
  pub null_body : Option JsonValue
  pub multipart_offset : ℕ
  pub parse_multipart : ℕ → Part × ℕ
  pub date : Text
  pub seconds : Text
  pub first_random : Text
  pub second_random : Text
  pub dangling : Text → Option Text

pub data ContentType : Type 0 where
  content_type_json content_type_html content_type_total content_type_multipart : ContentType

-- What is sent: a status, a content type, the format of `printfData`, or bytes.
pub data Sent : Type 0 where
  status : ℕ → Sent
  content_type text bytes : Text → Sent

abbrev pub application_json : Text
application_json = codes "application/json"

-- `CONTENT_TYPES`: the comma behind "text/html" is missing, and C++ joins the texts.
abbrev content_types : List Text
content_types = application_json ∷ codes "text/htmlmultipart/form-data" ∷ []

abbrev content_type_index : ContentType → ℕ
content_type_index content_type_json = 0
content_type_index content_type_html = 1
content_type_index content_type_total = 2
content_type_index content_type_multipart = 3

abbrev pub status_code_ok : ℕ
status_code_ok = 200

abbrev pub status_code_no_content : ℕ
status_code_no_content = 204

abbrev pub status_code_bad_request : ℕ
status_code_bad_request = 400

abbrev pub status_code_unauthorized : ℕ
status_code_unauthorized = 401

abbrev pub status_code_method_not_allowed : ℕ
status_code_method_not_allowed = 405

abbrev pub status_code_internal_error : ℕ
status_code_internal_error = 500

-- `s.c_str()`, which ends at the first NUL.
unfoldable pub c_str : Text → Text
c_str [] = []
c_str (c ∷ s) = if c == 0 then [] else c ∷ c_str s

-- The loop of `split`, with the part of the next token that has been read. `getline` gives empty
-- tokens too, but for one at the end.
unfoldable pub split_from : ℕ → Text → Text → List Text
split_from d item [] = if length item == 0 then [] else item ∷ []
split_from d item (c ∷ s) =
    if c == d then item ∷ split_from d [] s else split_from d (item ++ c ∷ []) s

-- `split`, which each node has a copy of.
unfoldable pub split : Text → ℕ → List Text
split s delim = split_from delim [] s

unfoldable pub get_authorization : Connection → Text
get_authorization conn = elim conn.authorization_header [ none ↦ [] | some header ↦ header ]

-- `setMethod`, with a pointer to its parameter, which nothing reads while the next node is run. The
-- method is what a read would give, where it gives a text.
unfoldable pub set_method : Text → Connection → Connection
set_method method conn = elim (conn.dangling method) [
  | none ↦ conn
  | some read ↦ record conn { request_method = read }
]

-- `getMultipartData`: a part, and the offset that it leaves.
unfoldable pub get_multipart_data : Connection → Part × Connection
get_multipart_data conn =
    let (part, offset) = conn.parse_multipart conn.multipart_offset in
    (part, record conn { multipart_offset = offset })

module _ ⦃P : Platform⦄ where
  -- `lista[i]`, which is undefined behind the end.
  unfoldable pub at : List Text → ℕ → M Text
  at [] i = crash undefined_behaviour
  at (x ∷ xs) zero = pure x
  at (x ∷ xs) (suc i) = at xs i

  -- A read through a pointer to a string that is destroyed.
  unfoldable pub read_dangling : Text → Connection → M Text
  read_dangling s conn = elim (conn.dangling s) [
    | none ↦ crash undefined_behaviour
    | some read ↦ pure read
  ]

  -- `setUri` keeps a pointer to its parameter, which the next node reads first of all.
  unfoldable pub set_uri : Text → Connection → M Connection
  set_uri uri_aux conn = do read ← read_dangling uri_aux conn; pure (record conn { uri = read })

  -- `CONTENT_TYPES[type]`
  unfoldable pub send_content_type : ContentType → M (List Sent)
  send_content_type type = do
    name ← at content_types (content_type_index type)
    pure (content_type name ∷ [])

  -- `asString` throws on an array or an object.
  unfoldable pub as_string : Option Text → M Text
  as_string none = crash json_error
  as_string (some value) = pure value

  unfoldable pub get_body_field : Text → Connection → M Text
  get_body_field field conn = elim conn.body [
    | none ↦ pure []
    | some root ↦ if not (root.size == 0) then as_string (root.field field) else pure []
  ]

  unfoldable pub get_body_json : Connection → M JsonValue
  get_body_json conn = elim conn.body [
    | some root ↦ pure root
    | none ↦ elim conn.null_body [ none ↦ crash json_error | some root ↦ pure root ]
  ]

  -- The value of the first parameter of the query, if that is the key.
  unfoldable pub get_parameter : Text → Connection → M Text
  get_parameter key conn = elim conn.query_string [
    | none ↦ pure []
    | some query ↦ (do
      k ← at (split query b'=') 0
      (if text_eq k key then at (split query b'=') 1 else pure []))
  ]

-- `sendStatus`, `sendContentType` for JSON, and `printfData`.
abbrev pub reply : ℕ → Text → List Sent
reply code msg = status code ∷ content_type application_json ∷ text (c_str msg) ∷ []
