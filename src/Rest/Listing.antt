-- ===== src/Rest/Listing.antt =====
-- InfoNode and InfoTrashNode, server/src/rest/info_node.cc and info_trash_node.cc: the elements of a
-- directory and of the trash.
use tp.Common.{none, some, List, [], ◌∷◌, ◌==◌, ◌&&◌, length, map, if◌then◌else◌}
use tp.Text.{Text, text_eq, codes}
use tp.Text.Decimal.{to_string}
use tp.World.{Platform, M, pure, attempt, ◌>>=◌}
use tp.Dispatcher.Records.{InfoElement}
use tp.Dispatcher.Listing
use tp.Rest.Connection.{
  reply, split, status_code_ok, status_code_no_content, status_code_bad_request,
}
use tp.Rest.Node.{Handler, Node, node_at, uri_item, or_reply}
use tp.Rest.Json.{element_json, deleted_json, list_json}

abbrev pub empty_list : Text
empty_list = codes "[]"

module _ ⦃P : Platform⦄ where
  -- `lastVersion` at an element: it stays as it was for a directory, and where the file is not found.
  unfoldable pub version_of : Text → InfoElement → Text → M Text
  version_of user_id e last_version =
      if text_eq e.kind (codes "a")
      then (do
        answer ← attempt (Listing.get_file_info user_id (to_string e.id))
        pure (elim answer [ none ↦ last_version | some file_info ↦ file_info.revision ]))
      else pure last_version

  -- The loop over the elements, with `lastVersion` before it.
  unfoldable pub element_rows : Text → List InfoElement → Text → M (List Text)
  element_rows user_id [] last_version = pure []
  element_rows user_id (e ∷ es) last_version = do
    version ← version_of user_id e last_version
    rows ← element_rows user_id es version
    pure (element_json version e ∷ rows)

  -- `InfoNode::executeGet`
  unfoldable pub info_get : Handler
  info_get conn = do
    field ← uri_item 4 conn
    (if text_eq field (codes "dir") && length (split conn.uri b'/') == 6
        then (do
          user_id ← uri_item 3 conn
          dir_id ← uri_item 5 conn
          or_reply (reply status_code_no_content empty_list)
              (Listing.get_directory_info user_id dir_id)
              (λ view. do
                rows ← element_rows user_id view.directory_element_info (codes "1")
                pure (reply status_code_ok (list_json rows))))
        else pure (reply status_code_bad_request empty_list))

  unfoldable pub info_node : Node
  info_node = record (node_at 3 empty_list) { execute_get = info_get }

  -- `InfoTrashNode::executeGet`
  unfoldable pub info_trash_get : Handler
  info_trash_get conn = do
    field ← uri_item 4 conn
    (if text_eq field (codes "trash") && length (split conn.uri b'/') == 5
        then (do
          user_id ← uri_item 3 conn
          or_reply (reply status_code_no_content empty_list) (Listing.get_deleted_files user_id)
              (λ deleted_files.
                pure (reply status_code_ok (list_json (map deleted_json deleted_files)))))
        else pure (reply status_code_bad_request empty_list))

  unfoldable pub info_trash_node : Node
  info_trash_node = record (node_at 3 empty_list) { execute_get = info_trash_get }
