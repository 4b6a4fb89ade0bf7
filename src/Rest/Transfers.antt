-- ===== src/Rest/Transfers.antt =====
-- The nodes that move files, server/src/rest: receive_file_node.cc, send_file_node.cc,
-- send_dir_node.cc and delete_file_node.cc.
use tp.Common.{
  ℕ, zero, suc, ◌≡◌, Bool, Option, none, some, if◌then◌else◌, String, ◌++◌, ◌==◌, ◌&&◌, ◌||◌, List,
  [], ◌∷◌, length, arith,
}
use tp.Text.{Text, text_eq, codes}
use tp.Text.Decimal.{to_string}
use tp.World.{Platform, M, pure, crash, endless_loop, ◌>>=◌}
use tp.Dispatcher.Listing
use tp.Dispatcher.Downloads
use tp.Dispatcher.Uploads
use tp.Dispatcher.Trash
use tp.Rest.Connection.{
  Connection, Part, Sent, status, bytes, content_type_multipart, send_content_type, reply, split,
  at, get_parameter, get_multipart_data, set_uri, set_method, status_code_ok,
  status_code_no_content, status_code_bad_request, status_code_internal_error,
}
use tp.Rest.Node.{Handler, Node, node_at, on_copy, uri_item, or_reply}
use tp.Rest.Json.{result_failed}
use tp.Rest.Listing.{info_get}

abbrev pub receive_default : Text
receive_default =
    codes
      "[{ \"id\": \"0\",  \"name\": \"\",\"size\": \"0\" ,  \"type\": \"\",  \"cantItems\": \"0\", "
    ++ codes "\"shared\": \"\",  \"lastModDate\": \"\"}]"

abbrev pub send_default : Text
send_default =
    codes
      "[{ \"id\": \"0\",  \"name\": \"\",\"size\": \"0\" ,  \"type\": \"\",  \"cantItems\": \"0\", "
    ++ codes "\"shared\": \"\",  \"lastModDate\": \"\",  \"userOwner\": \"\"}]"

-- The test that ends the loop over the parts.
unfoldable pub loop_ends : Part → Bool
loop_ends part = length part.content == 0 || text_eq part.var_name (codes "file")

-- `getConnection().getMultipartData(...)`
unfoldable pub next_part : Connection → Part × Connection
next_part conn = on_copy get_multipart_data conn

-- The loop over the parts, for a number of turns, from a part that has been read.
unfoldable pub file_loop : ℕ → Connection → Part → Option Part
file_loop zero conn part = if loop_ends part then some part else none
file_loop (suc n) conn part =
    let (read, conn') = next_part conn in
    let rest = file_loop n conn' read in if loop_ends part then some part else rest

-- What the parser reads where the node's connection stands.
abbrev pub first_part : Connection → Part
first_part conn = (conn.parse_multipart conn.multipart_offset).0

-- However many turns the loop over the parts has, it gives the
-- first part where that is empty or is named "file", and has not ended where the first part is
-- another one.
pub file_loop_exact :
    (n : ℕ) (conn : Connection)
    → file_loop n conn (first_part conn) ≡ (
        if length (first_part conn).content == 0
        then some (first_part conn)
        else (if text_eq (first_part conn).var_name (codes "file")
            then some (first_part conn)
            else none))
unfolding file_loop loop_ends next_part on_copy get_multipart_data
file_loop_exact zero conn = ground arith
file_loop_exact (suc n) conn = ground (arith, file_loop_exact n conn)

module _ ⦃P : Platform⦄ where
  -- An InfoNode that is executed with the method and the URL set.
  unfoldable pub show_directory : Text → Text → Handler
  show_directory user_id dir_id conn = do
    with_uri ←
        set_uri (codes "/info/users/" ++ user_id ++ codes "/dir/" ++ dir_id)
          (set_method (codes "GET") conn)
    info_get with_uri

  -- The loop with one turn more than the first: further turns read the same part again.
  unfoldable pub find_file_part : Connection → M Part
  find_file_part conn =
      let (first, conn') = next_part conn in
      elim (file_loop 1 conn' first) [ none ↦ crash endless_loop | some part ↦ pure part ]

  -- `ReceiveFileNode::executePost`. A line of the log reads both parts of the name of the file.
  unfoldable pub receive_file_post : Handler
  receive_file_post conn = do
    field ← uri_item 4 conn
    (if text_eq field (codes "dir") && length (split conn.uri b'/') == 6
        then (do
          user_id ← uri_item 3 conn
          dir_id ← uri_item 5 conn
          part ← find_file_part conn
          _ ← at (split part.file_name b'.') 0
          extension ← at (split part.file_name b'.') 1
          (if length part.content == 0
              then pure (reply status_code_no_content receive_default)
              else or_reply (reply status_code_no_content receive_default)
                  (Uploads.new_file user_id part.file_name extension conn.date part.content
                    (to_string (length part.content)) dir_id)
                  (λ _. show_directory user_id dir_id conn)))
        else pure (reply status_code_bad_request receive_default))

  unfoldable pub receive_file_node : Node
  receive_file_node = record (node_at 3 receive_default) { execute_post = receive_file_post }

  unfoldable pub multipart_reply : Text → M (List Sent)
  multipart_reply stream = do
    header ← send_content_type content_type_multipart
    pure (status status_code_ok ∷ header ++ bytes stream ∷ [])

  -- What the nodes below /users share: the part behind the user, and the number of the parts. The
  -- body has the user and the id.
  unfoldable pub users_url :
      String → List Sent → Connection → (Text → Text → M (List Sent)) → M (List Sent)
  users_url label refusal conn serve = do
    field ← uri_item 3 conn
    (if text_eq field (codes label) && length (split conn.uri b'/') == 5
        then (do user_id ← uri_item 2 conn; id ← uri_item 4 conn; serve user_id id)
        else pure refusal)

  -- `SendFileNode::executeGet`
  unfoldable pub send_file_get : Handler
  send_file_get conn =
      users_url "file" (reply status_code_bad_request send_default) conn λ user_id file_id.
        get_parameter (codes "version") conn >>= λ revision.
        or_reply (reply status_code_internal_error send_default)
          (Downloads.get_file_stream user_id file_id revision) multipart_reply

  unfoldable pub send_file_node : Node
  send_file_node = record (node_at 2 send_default) { execute_get = send_file_get }

  -- `SendDirNode::executeGet`
  unfoldable pub send_dir_get : Handler
  send_dir_get conn =
      users_url "dir" (reply status_code_bad_request send_default) conn λ user_id dir_id.
        or_reply (reply status_code_no_content send_default)
          (Downloads.get_dir_stream user_id dir_id) multipart_reply

  unfoldable pub send_dir_node : Node
  send_dir_node = record (node_at 2 send_default) { execute_get = send_dir_get }

  -- `DeleteFileNode::executeDelete`
  unfoldable pub delete_file_delete : Handler
  delete_file_delete conn =
      users_url "file" (reply status_code_bad_request result_failed) conn λ user_id file_id.
        or_reply (reply status_code_no_content result_failed)
          (Listing.get_file_info user_id file_id)
          (λ file_info.
            or_reply (reply status_code_no_content result_failed)
              (Trash.delete_file user_id file_id)
              (λ _.
                show_directory user_id
                  (if length file_info.parent_directory == 0
                    then codes "0"
                    else file_info.parent_directory)
                  conn))

  unfoldable pub delete_file_node : Node
  delete_file_node = record (node_at 2 result_failed) { execute_delete = delete_file_delete }
