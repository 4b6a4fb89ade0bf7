-- ===== src/Rest/Directories.antt =====
-- The nodes that change directories, server/src/rest: create_dir_node.cc, delete_dir_node.cc and
-- modify_name_dir_node.cc.
use tp.Common.{none, some, List, [], ◌∷◌, ◌++◌, ◌==◌, ◌&&◌, ◌||◌, length, map, if◌then◌else◌}
use tp.Text.{Text, text_eq, codes}
use tp.World.{Platform, M, pure, attempt, ◌>>=◌}
use tp.Dispatcher.Records.{InfoElement}
use tp.Dispatcher.Listing
use tp.Dispatcher.Uploads
use tp.Dispatcher.Trash
use tp.Rest.Connection.{
  Sent, reply, split, get_body_field, status_code_ok, status_code_no_content,
  status_code_bad_request,
}
use tp.Rest.Node.{Handler, Node, node_at, uri_item, or_reply}
use tp.Rest.Json.{created_json, list_json, result_ok, result_failed}
use tp.Rest.Listing.{empty_list}
use tp.Rest.Transfers.{users_url, show_directory}

abbrev create_default : Text
create_default =
    codes "[{ \"id\": \"0\",\"name\": \"\",\"size\": \"0\","
    ++ codes
        "\"type\": \"\",\"cantItems\": \"0\",\"shared\": \"\",\"lastModDate\": \"\",\"userOwner\": \"\","
    ++ codes "\"lastVersion\": \"\"}]"

-- An empty directory is answered with the default response.
unfoldable pub created_list : List InfoElement → Text
created_list [] = create_default
created_list (e ∷ es) = list_json (map (created_json (codes "0")) (e ∷ es))

module _ ⦃P : Platform⦄ where
  -- `CreateDirNode::executePost`
  unfoldable pub create_dir_post : Handler
  create_dir_post conn =
      users_url "dir" (reply status_code_bad_request create_default) conn λ user_id dir_id.
        get_body_field (codes "dirName") conn >>= λ dir_name.
        or_reply (reply status_code_bad_request create_default)
          (Uploads.new_directory user_id dir_name conn.date dir_id)
          (λ _.
            or_reply (reply status_code_no_content create_default)
              (Listing.get_directory_info user_id dir_id)
              (λ view. pure (reply status_code_ok (created_list view.directory_element_info))))

  unfoldable pub create_dir_node : Node
  create_dir_node = record (node_at 2 create_default) { execute_post = create_dir_post }

  -- The call of `get_directory_info` in DeleteDirNode: the reply where it fails, and the parent
  -- directory that `dir_info` has then in either case.
  unfoldable pub parent_or_reply : Text → Text → M (List Sent × Text)
  parent_or_reply user_id dir_id = do
    filled ← attempt (Listing.fill_directory_info user_id dir_id)
    elim filled [
      | none ↦ pure (reply status_code_no_content result_failed, [])
      | some dir_info ↦ (do
        parent ← attempt (Listing.client_parent dir_id dir_info.parent_directory)
        pure (elim parent [
          | none ↦ (reply status_code_no_content result_failed, dir_info.parent_directory)
          | some parent_directory ↦ ([], parent_directory)
        ]))
    ]

  -- `DeleteDirNode::executeDelete`, which goes on where the directory is not found, and has no answer
  -- to another URL.
  unfoldable pub delete_dir_delete : Handler
  delete_dir_delete conn = users_url "dir" [] conn λ user_id dir_id.
      parent_or_reply user_id dir_id >>= λ (first, parent_directory).
      or_reply (reply status_code_no_content result_failed) (Trash.delete_directory user_id dir_id)
        (λ _. show_directory user_id parent_directory conn)
      >>= λ sent. pure (first ++ sent)

  unfoldable pub delete_dir_node : Node
  delete_dir_node = record (node_at 2 result_failed) { execute_delete = delete_dir_delete }

  -- The change that ModifyNameDirNode makes.
  unfoldable pub rename_element : Text → Text → Text → Text → M Unit
  rename_element field user_id id name =
      if text_eq field (codes "file")
      then (do
        file_info ← Listing.get_file_info user_id id
        Listing.modify_file_info user_id id name file_info.extension file_info.date_last_mod
            file_info.tags)
      else (do
        dir_info ← Listing.get_directory_info user_id id
        Listing.modify_directory_info user_id id name dir_info.date_last_mod dir_info.tags)

  -- `ModifyNameDirNode::executePut`
  unfoldable pub modify_name_dir_put : Handler
  modify_name_dir_put conn = do
    field ← uri_item 4 conn
    (if (text_eq field (codes "dir") || text_eq field (codes "file"))
          && length (split conn.uri b'/') == 6
        then (do
          user_id ← uri_item 3 conn
          id ← uri_item 5 conn
          name ← get_body_field (codes "dirName") conn
          or_reply (reply status_code_no_content result_failed)
              (rename_element field user_id id name) (λ _. pure (reply status_code_ok result_ok)))
        else pure (reply status_code_bad_request empty_list))

  unfoldable pub modify_name_dir_node : Node
  modify_name_dir_node = record (node_at 3 empty_list) { execute_put = modify_name_dir_put }
