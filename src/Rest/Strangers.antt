-- ===== src/Rest/Strangers.antt =====
-- Requests on one file by a user in a session who has no right to it, from handlerCaller of
-- server/src/web_server.cc to the answer.
use tp.Common.{ℕ, ◌≡◌, refl, ap, ◌∙◌, true, false, ◌||◌, ◌==◌, List, length, some}
use tp.Text.{Text, text_eq}
use tp.Text.KeyList.{tokens, contains}
use tp.World.{Platform, World, M, done, pure, ◌>>=◌}
use tp.Db.Laws.{stored}
use tp.Data.Constants.{suffix_token, status_user_forbidden}
use tp.Data.Keys.{generate_user_key}
use tp.Data.Access.Reading.{Reliable}
use tp.Data.Files
use tp.Data.Files.{FileInfo}
use tp.Rest.Connection.{Connection, split, at, Sent, get_authorization}
use tp.Rest.Node.{uri_item, check_authorization, execute, execute_method}
use tp.Rest.Transfers.{delete_file_node, send_file_node}
use tp.Rest.Tags.{list_tags_node, update_tags_node}
use tp.Rest.Directories.{modify_name_dir_node}
use tp.Rest.Sharing.{list_collaborators_node}
use tp.Rest.Elements.{list_info_elem_node}
use tp.Rest.Forbidden.{
  FileEndpoint, remove, send, show_tags, set_tags, rename, show_collaborators, describe,
  endpoint_parts, endpoint_refusal, endpoint_handler, Readable, forbidden_request,
}
use tp.Rest.Urls.{Free}
use tp.Rest.Routes.{mg_request, answer_route, handler_caller}
use tp.Rest.Sessions.{execute_accepted}
use tp.Rest.Dispatch.{endpoint_method, endpoint_uri, endpoint_split, endpoint_node, endpoint_served}

-- The part of the URL that is the user.
abbrev endpoint_part : FileEndpoint → ℕ
endpoint_part remove = 2
endpoint_part send = 2
endpoint_part _ = 3

module _ ⦃P : Platform⦄ where
  endpoint_checked :
      (e : FileEndpoint) → (endpoint_node e).auth ≡ check_authorization (uri_item (endpoint_part e))
  unfolding delete_file_node send_file_node list_tags_node update_tags_node modify_name_dir_node
      list_collaborators_node list_info_elem_node
  endpoint_checked remove = refl
  endpoint_checked send = refl
  endpoint_checked show_tags = refl
  endpoint_checked set_tags = refl
  endpoint_checked rename = refl
  endpoint_checked show_collaborators = refl
  endpoint_checked describe = refl

  endpoint_named :
      (e : FileEndpoint) (conn : Connection) (user file : Text) (w : World)
      → split conn.uri b'/' ≡ endpoint_parts e user file
      → (uri_item (endpoint_part e) conn w).0 ≡ done user
  unfolding uri_item at pure
  endpoint_named remove conn user file w parts = rw parts refl
  endpoint_named send conn user file w parts = rw parts refl
  endpoint_named show_tags conn user file w parts = rw parts refl
  endpoint_named set_tags conn user file w parts = rw parts refl
  endpoint_named rename conn user file w parts = rw parts refl
  endpoint_named show_collaborators conn user file w parts = rw parts refl
  endpoint_named describe conn user file w parts = rw parts refl

  endpoint_runs :
      (e : FileEndpoint) (conn : Connection)
      → conn.request_method ≡ endpoint_method e
      → execute_method (endpoint_node e) conn ≡ endpoint_handler e conn
  unfolding execute_method delete_file_node send_file_node list_tags_node update_tags_node
      modify_name_dir_node list_collaborators_node list_info_elem_node text_eq
  endpoint_runs remove conn method = rw method refl
  endpoint_runs send conn method = rw method refl
  endpoint_runs show_tags conn method = rw method refl
  endpoint_runs set_tags conn method = rw method refl
  endpoint_runs rename conn method = rw method refl
  endpoint_runs show_collaborators conn method = rw method refl
  endpoint_runs describe conn method = rw method refl

  -- A request on a file that carries the token of the user whom its URL names, where that user
  -- neither owns the file nor has it shared, is answered by the server as a failure and changes
  -- nothing but `status`: where reads of the database do not fail, the information of the file and
  -- what the node reads of the request first can be read, and the texts of the user and the file hold
  -- no slash and that of the file is not empty.
  pub stranger_refused :
      (e : FileEndpoint) (conn : Connection) (user file : Text) (info : FileInfo) (w : World)
      → Reliable w
      → stored w (generate_user_key user suffix_token) ≡ some (get_authorization conn)
      → (length (get_authorization conn) == 0) ≡ false
      → Files.get_file_info file w ≡ (done info, w)
      → (text_eq info.owner user || contains user (tokens info.users_shared)) ≡ false
      → conn.uri ≡ endpoint_uri e user file
      → conn.request_method ≡ endpoint_method e
      → Free b'/' user
      → Free b'/' file
      → (length file == 0) ≡ false
      → Readable e conn w
      → handler_caller mg_request conn w ≡ (
        done (record { processed = true; sent = endpoint_refusal e }),
        record w { status = status_user_forbidden },
      )
  unfolding answer_route ◌>>=◌ pure
  stranger_refused e conn user file info w r held carried stored_info denied uri method u f full
        readable =
      let parts : split conn.uri b'/' ≡ endpoint_parts e user file =
        ap (λ (t : Text). split t b'/') uri ∙ endpoint_split e user file u f full in
      let run : execute (endpoint_node e) conn w
          ≡ (done (endpoint_refusal e), record w { status = status_user_forbidden }) =
        execute_accepted (endpoint_node e) conn w (endpoint_part e) user (endpoint_checked e) r
          (endpoint_named e conn user file w parts) carried held
        ∙ ap (λ (m : M (List Sent)). m w) (endpoint_runs e conn method)
        ∙ forbidden_request user file info w stored_info denied e conn parts readable in
      endpoint_served e conn user file w uri method u f full ∙ rw run refl
