-- ===== src/Rest/Trash.antt =====
-- The nodes of the trash, server/src/rest: delete_trash_node.cc, delete_file_trash_node.cc,
-- restore_trash_node.cc and restore_file_trash_node.cc.
use tp.Common.{ℕ, leb, Bool, List, ◌++◌, ◌==◌, ◌&&◌, length, if◌then◌else◌}
use tp.Text.{Text, text_eq, codes}
use tp.World.{Platform, M, pure, ◌>>=◌}
use tp.Dispatcher.Trash
use tp.Rest.Connection.{
  Connection, Sent, reply, split, get_parameter, set_uri, set_method, status_code_ok,
  status_code_no_content, status_code_bad_request,
}
use tp.Rest.Node.{Handler, Node, node_at, uri_item, or_reply}
use tp.Rest.Listing.{info_trash_get, empty_list}

abbrev pub delete_file_trash_default : Text
delete_file_trash_default =
    codes
      "[{ \"id\": \"0\",  \"name\": \"\",\"size\": \"0\" ,  \"type\": \"\",  \"cantItems\": \"0\", "
    ++ codes "\"shared\": \"\",  \"lastModDate\": \"\", \"userOwner \":\"0\"}]"

module _ ⦃P : Platform⦄ where
  -- The four nodes test the part of the URL behind the user and the number of the parts.
  unfoldable pub trash_url : (ℕ → Bool) → Text → Connection → (Text → M (List Sent)) → M (List Sent)
  trash_url size_test response conn serve = do
    field ← uri_item 4 conn
    (if text_eq field (codes "trash") && size_test (length (split conn.uri b'/'))
        then (do user_id ← uri_item 3 conn; serve user_id)
        else pure (reply status_code_bad_request response))

  -- An InfoTrashNode that is executed with the method and the URL set.
  unfoldable pub show_trash : Text → Handler
  show_trash user_id conn = do
    with_uri ←
        set_uri (codes "/info/users/" ++ user_id ++ codes "/trash") (set_method (codes "GET") conn)
    info_trash_get with_uri

  -- `DeleteTrashNode::executeDelete`
  unfoldable pub delete_trash_delete : Handler
  delete_trash_delete conn =
      trash_url (λ n. n == 5) empty_list conn
        λ user_id.
          or_reply (reply status_code_no_content empty_list) (Trash.purge_deleted_files user_id)
            (λ _. pure (reply status_code_ok empty_list))

  unfoldable pub delete_trash_node : Node
  delete_trash_node = record (node_at 3 empty_list) { execute_delete = delete_trash_delete }

  -- `DeleteFileTrashNode::executeDelete`
  unfoldable pub delete_file_trash_delete : Handler
  delete_file_trash_delete conn =
      trash_url (λ n. n == 5) delete_file_trash_default conn
        λ user_id. get_parameter (codes "fileIds") conn >>= λ files_params.
          or_reply (reply status_code_no_content delete_file_trash_default)
            (Trash.purge_selected_files user_id (split files_params b','))
            (λ _. show_trash user_id conn)

  unfoldable pub delete_file_trash_node : Node
  delete_file_trash_node = record (node_at 3 delete_file_trash_default) {
    execute_delete = delete_file_trash_delete;
  }

  -- `RestoreTrashNode::executePost`
  unfoldable pub restore_trash_post : Handler
  restore_trash_post conn =
      trash_url (λ n. leb 6 n) empty_list conn
        λ user_id.
          or_reply (reply status_code_no_content empty_list) (Trash.recover_deleted_files user_id)
            (λ _. show_trash user_id conn)

  unfoldable pub restore_trash_node : Node
  restore_trash_node = record (node_at 3 empty_list) { execute_post = restore_trash_post }

  -- `RestoreFileTrashNode::executePost`
  unfoldable pub restore_file_trash_post : Handler
  restore_file_trash_post conn =
      trash_url (λ n. n == 6) empty_list conn
        λ user_id. get_parameter (codes "fileIds") conn >>= λ files_params.
          or_reply (reply status_code_no_content empty_list)
            (Trash.recover_selected_files user_id (split files_params b','))
            (λ _. show_trash user_id conn)

  unfoldable pub restore_file_trash_node : Node
  restore_file_trash_node = record (node_at 3 empty_list) { execute_post = restore_file_trash_post }
