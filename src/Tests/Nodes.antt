-- ===== src/Tests/Nodes.antt =====
-- What the theorems of the nodes of files, of the URLs and of the digest say at the small server.
use tp.Common.{
  ◌<◌, ◌≤◌, ◌+◌, ◌%◌, All, ◌≡◌, refl, true, false, ◌||◌, none, some, [], ◌∷◌, length, ◌==◌, ◌++◌,
  if◌then◌else◌, arith,
}
use tp.Text.{Text, codes, text_eq}
use tp.Text.Decimal.{stoul, value}
use tp.World.{World, done, crashed, undefined_behaviour, pure, ◌>>=◌}
use tp.Db
use tp.Db.Memory.{memory}
use tp.Data.Constants.{status_user_forbidden, status_max_quota_exceeded, suffix_token}
use tp.Data.Keys.{
  generate_user_key, generate_dir_key, generate_file_key, generate_ticket_key, email_index_key,
}
use tp.Dispatcher.Listing
use tp.Dispatcher.Listing.{starts_with}
use tp.Rest.Connection.{
  Connection, reply, split, split_from, at, get_parameter, status_code_no_content,
}
use tp.Rest.Json.{join}
use tp.Rest.Users.{create_token}
use tp.Rest.Transfers.{
  receive_file_post, receive_default, send_file_get, first_part, file_loop, file_loop_exact,
}
use tp.Rest.Sessions.{create_token_returns}
use tp.Text.Split.{split_string}
use tp.Text.KeyList.{contains, tokens}
use tp.Data.Files
use tp.Storage.FileHandler
use tp.Dispatcher.Downloads
use tp.Rest.Downloads.{file_parts, download_undefined}
use tp.Rest.Routes.{mg_request, serve, answer_route, handler_caller}
use tp.Rest.Dispatch.{endpoint_node, endpoint_served}
use tp.Rest.Strangers.{stranger_refused}
use tp.Db.Laws.{stored}
use tp.Tests.Runs.{memory_Reliable}
use tp.Rest.Forbidden.{
  remove, endpoint_parts, endpoint_refusal, endpoint_handler, forbidden_request,
}
use tp.Data.Stored.Readers.{FileStored-get_file_info, UserStored-get_user_info}
use tp.Rest.Uploads.{upload_parts, upload_over_quota, upload_undefined}
use tp.Rest.Urls.{split-join}
use tp.Util.Md5.{padded_message}
use tp.Util.Md5.Rounds.{md5}
use tp.Util.Md5.Digest.{md5_returns, padded_message_chunks}
use tp.Data.Access
use tp.Dispatcher.Records.{stoul_decimal}
use tp.Tests.Web.{request, removal, token_request}
use tp.Tests.{
  fill, user_entries, tree_entries, ana, ana-UserStored, notes, notes-FileStored, start,
  start-Reliable,
}

file_loop_exact_example : file_loop 5 (removal []) (first_part (removal [])) ≡ (
    if length (first_part (removal [])).content == 0
    then some (first_part (removal []))
    else (if text_eq (first_part (removal [])).var_name (codes "file")
        then some (first_part (removal []))
        else none))
file_loop_exact_example = file_loop_exact 5 (removal [])

split-join_example :
    split (join (codes ";") (codes "work" ∷ [] ∷ codes "home" ∷ [])) b';'
    ≡ codes "work" ∷ [] ∷ codes "home" ∷ []
split-join_example =
    split-join b';' (codes "work") ([] ∷ codes "home" ∷ []) (refl, (refl, (refl, (refl, tt))))
      (tt, ((refl, (refl, (refl, (refl, tt)))), tt)) refl

abbrev look_around : Connection
look_around = request (codes "GET") (codes "/info/users/1/dir/0") (codes "old")

md5_returns_example :
    (output : Text) × (md5 (codes "abc") ≡ some output)
    × (length output ≡ 16)
    × All (λ b. b < 256) output
md5_returns_example = md5_returns (codes "abc")

create_token_returns_example :
    (token : Text) × (create_token token_request (codes "ana@mail") start ≡ (done token, start))
    × (length token ≡ 32)
create_token_returns_example = create_token_returns token_request (codes "ana@mail") start

padded_message_chunks_example :
    (length (padded_message (codes "abc")) % 64 ≡ 0)
    × (3 + 9 ≤ length (padded_message (codes "abc")))
    × (length (padded_message (codes "abc")) ≤ 3 + 72)
padded_message_chunks_example = padded_message_chunks (codes "abc")

-- The small server with the bytes of the file on disk.
abbrev with_bytes : World
with_bytes = record start {
  disk = λ name. if text_eq name (codes "111") then some (codes "hello") else none;
}

abbrev download : Connection
download = record (request (codes "GET") (codes "/users/1/file/1") (codes "old")) {
  query_string = some (codes "version=1");
}

download_parts : split download.uri b'/' ≡ file_parts (codes "1") (codes "1")
unfolding split split_from
download_parts = refl

download_version :
    get_parameter (codes "version") download with_bytes ≡ (done (codes "1"), with_bytes)
unfolding get_parameter at split split_from text_eq pure ◌>>=◌
download_version = refl

download_found :
    Downloads.get_file_stream (codes "1") (codes "1") (codes "1") with_bytes
    ≡ (done (codes "hello"), with_bytes)
unfolding Downloads.get_file_stream Listing.is_authorized Files.get_file_info Files.get_file
    Access.dbh_get Access.answer_read Db.get FileHandler.load_file contains split_string
    stoul_decimal stoul generate_user_key generate_dir_key generate_file_key generate_ticket_key
    email_index_key text_eq ◌>>=◌
download_found = refl

download_undefined_example :
    send_file_get download with_bytes ≡ (crashed undefined_behaviour, with_bytes)
download_undefined_example =
    download_undefined download (codes "1") (codes "1") (codes "1") (codes "hello") with_bytes
      with_bytes download_parts download_version download_found

abbrev strange_removal : Connection
strange_removal = request (codes "DELETE") (codes "/users/2/file/1") (codes "t")

strange_parts : split strange_removal.uri b'/' ≡ endpoint_parts remove (codes "2") (codes "1")
unfolding split split_from
strange_parts = refl

strange_denied :
    (text_eq notes.owner (codes "2") || contains (codes "2") (tokens notes.users_shared)) ≡ false
unfolding text_eq contains split_string
strange_denied = refl

-- User 2 does not own the file, and it is not shared with him.
forbidden_request_example :
    endpoint_handler remove strange_removal start
    ≡ (done (endpoint_refusal remove), record start { status = status_user_forbidden })
forbidden_request_example =
    forbidden_request (codes "2") (codes "1") notes start
      (FileStored-get_file_info (codes "1") notes start start-Reliable notes-FileStored)
      strange_denied remove strange_removal strange_parts tt

abbrev big_upload : Connection
big_upload = record (request (codes "POST") (codes "/file/users/1/dir/1") (codes "old")) {
  parse_multipart = λ _. (
    record {
      var_name = codes "file";
      file_name = codes "big.txt";
      content = codes "eighteen bytes are";
    },
    120,
  );
}

big_parts :
    (split big_upload.uri b'/' ≡ upload_parts (codes "1") (codes "1"))
    × (split (first_part big_upload).file_name b'.' ≡ codes "big" ∷ codes "txt" ∷ [])
    × (text_eq (first_part big_upload).var_name (codes "file") ≡ true)
unfolding split split_from text_eq
big_parts = (refl, refl, refl)

five_used : stoul (codes "5") ≡ value 5
unfolding stoul
five_used = refl

-- 18 bytes are too many beside the 5 that are used of 20.
upload_over_quota_example : receive_file_post big_upload start ≡ (
  done (reply status_code_no_content receive_default),
  record start { status = status_max_quota_exceeded },
)
upload_over_quota_example =
    upload_over_quota big_upload (codes "1") (codes "1") (codes "big") (codes "txt") ana 5 start
      big_parts.0 big_parts.2 refl big_parts.1 (omega arith)
      (UserStored-get_user_info (codes "1") ana start start-Reliable ana-UserStored) five_used refl

-- The name of the file has no extension.
abbrev bare_upload : Connection
bare_upload = record (request (codes "POST") (codes "/file/users/1/dir/1") (codes "old")) {
  parse_multipart = λ _. (
    record { var_name = codes "file"; file_name = codes "readme"; content = codes "hello" },
    120,
  );
}

bare_parts :
    (split bare_upload.uri b'/' ≡ upload_parts (codes "1") (codes "1"))
    × ((length (first_part bare_upload).content == 0
          || text_eq (first_part bare_upload).var_name (codes "file"))
        ≡ true)
    × (length (split (first_part bare_upload).file_name b'.') < 2)
unfolding split split_from text_eq
bare_parts = (refl, refl, omega arith)

upload_undefined_example :
    receive_file_post bare_upload start ≡ (crashed undefined_behaviour, start)
upload_undefined_example =
    upload_undefined bare_upload (codes "1") (codes "1") start bare_parts.0 bare_parts.1
      bare_parts.2

endpoint_served_example :
    handler_caller mg_request strange_removal start
    ≡ answer_route (serve (endpoint_node remove)) strange_removal start
unfolding join
endpoint_served_example =
    endpoint_served remove strange_removal (codes "2") (codes "1") start refl refl (refl, tt)
      (refl, tt) refl

-- The small server where user 2 has a session.
abbrev visited : World
visited = record start {
  db = some (
      fill
        ((generate_user_key (codes "2") suffix_token, codes "t") ∷ (user_entries ++ tree_entries)));
}

visitor_accepted : stored visited (generate_user_key (codes "2") suffix_token) ≡ some (codes "t")
unfolding generate_user_key generate_dir_key generate_file_key generate_ticket_key email_index_key
    text_eq
visitor_accepted = refl

notes_readable : Files.get_file_info (codes "1") visited ≡ (done notes, visited)
unfolding Files.get_file_info Access.dbh_get Access.answer_read Db.get generate_user_key
    generate_dir_key generate_file_key generate_ticket_key email_index_key text_eq ◌>>=◌
    Files.get_file
notes_readable = refl

stranger_refused_example : handler_caller mg_request strange_removal visited ≡ (
  done (record { processed = true; sent = endpoint_refusal remove }),
  record visited { status = status_user_forbidden },
)
unfolding tp.Rest.Connection.get_authorization join
stranger_refused_example =
    stranger_refused remove strange_removal (codes "2") (codes "1") notes visited
      (memory_Reliable visited visited.db refl) visitor_accepted refl notes_readable strange_denied
      refl refl (refl, tt) (refl, tt) refl tt
