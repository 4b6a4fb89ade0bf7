-- ===== src/Tests/Web.antt =====
-- What the theorems of sessions and of rights say of requests to the small server.
use tp.Common.{◌≡◌, refl, Bool, true, not, ◌&&◌, none, some, List, [], ◌∷◌, if◌then◌else◌}
use tp.Text.{Text, codes, text_eq}
use tp.Text.Decimal.{stoul, to_string}
use tp.World.{World, Outcome, done, crashed, undefined_behaviour, pure, attempt, ◌>>=◌}
use tp.Db
use tp.Db.Laws.{stored}
use tp.Db.Memory.{memory}
use tp.Data.Constants.{suffix_password, suffix_token}
use tp.Data.Keys.{
  generate_user_key, generate_dir_key, generate_file_key, generate_ticket_key, email_index_key,
}
use tp.Dispatcher.Listing.{starts_with}
use tp.Rest.Connection.{
  Connection, JsonValue, Sent, reply, split, split_from, at, c_str, as_string, get_body_field,
  get_authorization, status_code_ok,
}
use tp.Rest.Node.{check_authorization, uri_item, execute, execute_method, or_reply}
use tp.Rest.Users.{profile_node, create_token, token_post}
use tp.Rest.Guarded.{GuardedNode}
use tp.Rest.Guarded.Nodes.{profile_node-GuardedNode}
use tp.Rest.Guarded.Branches.{NeedsToken}
use tp.Rest.Routes.{mg_request, handler_caller}
use tp.Rest.Legible.{legible}
use tp.Rest.Refused.{Refused}
use tp.Rest.Authorized.{handler_caller_keeps_credentials}
use tp.Rest.Sessions.{execute_authorized, log_in_serves, TokenOpened, token_post-TokenOpened}
use tp.Util.Hex.{bin2hex}
use tp.Util.Md5.{to_bytes, to_int32, padded_length, padded_message}
use tp.Util.Md5.Rounds.{mix, round, rounds, read_words, add_chunk, process_chunks, md5, md5_str}
use tp.Data.Access
use tp.Data.Users
use tp.Dispatcher.Records.{stoul_decimal}
use tp.Dispatcher.Accounts
use tp.Tests.Runs.{session, session_done, session_db, memory_Reliable}
use tp.Tests.{start, start-Reliable}

abbrev log_in_body : JsonValue
log_in_body = record {
  size = 2;
  field = λ name.
      if text_eq name (codes "email") then some (codes "ana@mail") else some (codes "secret");
  ids = [];
}

-- A request with a method, a URL and a token.
abbrev pub request : Text → Text → Text → Connection
request method uri token = record {
  uri = uri;
  request_method = method;
  query_string = none;
  authorization_header = some token;
  body = some log_in_body;
  null_body = none;
  multipart_offset = 0;
  parse_multipart = λ _.
      (record { var_name = codes "photo"; file_name = codes "a.png"; content = codes "abc" }, 90);
  date = codes "d2";
  seconds = codes "7";
  first_random = codes "1";
  second_random = codes "2";
  dangling = λ s. some s;
}

abbrev pub removal : Text → Connection
removal token = request (codes "DELETE") (codes "/users/1/file/1") token

removal-NeedsToken : (token : Text) → NeedsToken (removal token)
unfolding text_eq starts_with
removal-NeedsToken token = record { not_token = refl; not_signup = refl }

-- No entry has the value.
abbrev lacks : Text → List (Text × Text) → Bool
lacks v [] = true
lacks v ((key, u) ∷ entries) = not (text_eq u v) && lacks v entries

-- The URL has the parts that are read of it.
removal-legible : legible (removal (codes "wrong")) ≡ true
unfolding starts_with text_eq split split_from
removal-legible = refl

handler_caller_keeps_credentials_example :
    let w' = (handler_caller mg_request (removal (codes "old")) start).1 in
    (stored w' (generate_user_key (codes "1") suffix_password)
      ≡ stored start (generate_user_key (codes "1") suffix_password))
    × (stored w' (generate_user_key (codes "1") suffix_token)
        ≡ stored start (generate_user_key (codes "1") suffix_token))
handler_caller_keeps_credentials_example =
    handler_caller_keeps_credentials mg_request (removal (codes "old")) (codes "1") start
      (removal-NeedsToken (codes "old"))

profile_checked : profile_node.auth ≡ check_authorization (uri_item 2)
unfolding profile_node
profile_checked = refl

abbrev profile_guard : GuardedNode profile_node
profile_guard = record {
  part = 2;
  checked = profile_checked;
  quiet = profile_node-GuardedNode.quiet;
}

abbrev look_up : Text → Connection
look_up token = request (codes "GET") (codes "/profile/1") token

looked_up : (token : Text) (w : World) → (uri_item 2 (look_up token) w).0 ≡ done (codes "1")
unfolding uri_item at split split_from tp.World.pure
looked_up token w = refl

old_held : stored start (generate_user_key (codes "1") suffix_token) ≡ some (codes "old")
unfolding generate_user_key generate_dir_key generate_file_key generate_ticket_key email_index_key
    text_eq
old_held = refl

execute_authorized_example :
    execute profile_node (look_up (codes "old")) start
    ≡ execute_method profile_node (look_up (codes "old")) start
unfolding get_authorization
execute_authorized_example =
    execute_authorized profile_node (look_up (codes "old")) start profile_guard (codes "1")
      start-Reliable (looked_up (codes "old") start) refl old_held

log_in_serves_example :
    execute profile_node (look_up (codes "new")) session.1
    ≡ execute_method profile_node (look_up (codes "new")) session.1
unfolding get_authorization
log_in_serves_example =
    log_in_serves (codes "ana@mail") (codes "secret") (codes "new") (codes "1") (codes "15") start
      session.1 session_done (memory_Reliable session.1 session.1.db session_db) refl profile_node
      (look_up (codes "new")) profile_guard refl (looked_up (codes "new") session.1)

abbrev pub token_request : Connection
token_request = request (codes "POST") (codes "/token") []

abbrev token_answer : Outcome (List Sent) × World
token_answer = token_post token_request start

-- The text that the small server answers with.
abbrev token_message : Text
token_message =
    codes
      "{ \"userId\": \"1\",  \"email\": \"ana@mail\",  \"token\": \"f81cbe8bde41f8c6767f4db33ff81b5d\", \"quotaAvailable\": \"15\" }"

token_answered : token_answer ≡ (done (reply status_code_ok token_message), token_answer.1)
unfolding token_post create_token get_body_field as_string attempt or_reply c_str md5_str md5
    process_chunks add_chunk read_words rounds round mix padded_message padded_length to_bytes
    to_int32 bin2hex Accounts.log_in Users.get_user_password Users.get_user
    Access.get_email_user_id_index Access.dbh_get Access.answer_read Db.get Users.add_user_token
    Access.dbh_put Db.put Users.get_user_info generate_user_key generate_dir_key generate_file_key
    generate_ticket_key email_index_key text_eq stoul_decimal stoul to_string tp.World.◌>>=◌
token_answered = refl

token_post-TokenOpened_example : TokenOpened token_request start token_answer.1
token_post-TokenOpened_example =
    token_post-TokenOpened token_request token_message start token_answer.1 token_answered
