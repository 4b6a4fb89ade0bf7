-- ===== src/Rest/Tags.antt =====
-- The nodes of tags, server/src/rest: list_tags_node.cc, list_tags_user_node.cc and
-- update_tags_node.cc.
use tp.Common.{List, [], ◌∷◌, ◌++◌, ◌==◌, ◌&&◌, ◌||◌, length, if◌then◌else◌}
use tp.Text.{Text, text_eq, codes}
use tp.World.{Platform, M, pure, ◌>>=◌}
use tp.Dispatcher.Listing
use tp.Dispatcher.Searching
use tp.Rest.Connection.{
  Connection, Sent, text, reply, split, c_str, get_body_field, status_code_ok,
  status_code_no_content, status_code_bad_request,
}
use tp.Rest.Node.{Handler, Node, node_at, uri_item, or_reply}
use tp.Rest.Json.{member, join, result_ok, result_failed}

abbrev pub list_tags_default : Text
list_tags_default = codes "[{\"tags\": \"\"}]"

abbrev list_tags_user_default : Text
list_tags_user_default = codes "[{\"tagName\": \"\"}]"

unfoldable pub tags_json : Text → Text
tags_json tags = codes "{" ++ member "tags" tags ++ codes "}"

module _ ⦃P : Platform⦄ where
  -- What ListTagsNode and UpdateTagsNode share: the part behind the user, and the number of the
  -- parts. The body has that part, the user and the id.
  unfoldable pub tags_url : Text → Connection → (Text → Text → Text → M (List Sent)) → M (List Sent)
  tags_url response conn serve = do
    field ← uri_item 4 conn
    (if (text_eq field (codes "file") || text_eq field (codes "dir"))
          && length (split conn.uri b'/') == 6
        then (do user_id ← uri_item 3 conn; id ← uri_item 5 conn; serve field user_id id)
        else pure (reply status_code_bad_request response))

  -- The tags of a file or of a directory.
  unfoldable pub element_tags : Text → Text → Text → M Text
  element_tags field user_id id =
      if text_eq field (codes "file")
      then (do file_info ← Listing.get_file_info user_id id; pure file_info.tags)
      else (do dir_info ← Listing.get_directory_info user_id id; pure dir_info.tags)

  -- `ListTagsNode::executeGet`
  unfoldable pub list_tags_get : Handler
  list_tags_get conn = tags_url list_tags_default conn λ field user_id id.
      or_reply (reply status_code_no_content list_tags_default) (element_tags field user_id id)
        (λ tags. pure (reply status_code_ok (tags_json tags)))

  unfoldable pub list_tags_node : Node
  list_tags_node = record (node_at 3 list_tags_default) { execute_get = list_tags_get }

  -- `ListTagsUserNode::executeGet`, which sends a list of no tags behind its refusal.
  unfoldable pub list_tags_user_get : Handler
  list_tags_user_get conn =
      if length (split conn.uri b'/') == 4
      then (do
        user_id ← uri_item 3 conn
        or_reply
            (reply status_code_no_content list_tags_user_default
              ++ text (c_str (tags_json [])) ∷ [])
            (Searching.get_tags user_id)
            (λ tags. pure (reply status_code_ok (tags_json (join (codes ";") tags)))))
      else pure (reply status_code_bad_request list_tags_user_default)

  unfoldable pub list_tags_user_node : Node
  list_tags_user_node = record (node_at 3 list_tags_user_default) {
    execute_get = list_tags_user_get;
  }

  -- The change that UpdateTagsNode makes.
  unfoldable pub write_tags : Text → Text → Text → Text → M Unit
  write_tags field user_id id tags =
      if text_eq field (codes "file")
      then (do
        file_info ← Listing.get_file_info user_id id
        Listing.modify_file_info user_id id file_info.name file_info.extension
            file_info.date_last_mod tags)
      else (do
        dir_info ← Listing.get_directory_info user_id id
        Listing.modify_directory_info user_id id dir_info.name dir_info.date_last_mod tags)

  -- `UpdateTagsNode::executePut`
  unfoldable pub update_tags_put : Handler
  update_tags_put conn = tags_url result_failed conn λ field user_id id.
      get_body_field (codes "tags") conn >>= λ tags.
      or_reply (reply status_code_no_content result_failed) (write_tags field user_id id tags)
        (λ _. pure (reply status_code_ok result_ok))

  unfoldable pub update_tags_node : Node
  update_tags_node = record (node_at 3 result_failed) { execute_put = update_tags_put }
