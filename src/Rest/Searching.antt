-- ===== src/Rest/Searching.antt =====
-- The nodes that search, server/src/rest: search_filename_node.cc, search_extension_node.cc,
-- search_tag_node.cc, search_owner_node.cc, search_users_node.cc and list_owners_node.cc.
use tp.Common.{List, [], ◌∷◌, ◌++◌, map, String, if◌then◌else◌}
use tp.Text.{Text, text_eq, codes}
use tp.World.{Platform, M, pure, ◌>>=◌}
use tp.Dispatcher.Records.{InfoElement}
use tp.Dispatcher.Searching
use tp.Rest.Connection.{
  Sent, reply, get_parameter, status_code_ok, status_code_no_content, status_code_bad_request,
}
use tp.Rest.Node.{Handler, Node, node_at, uri_item, or_reply}
use tp.Rest.Json.{element_json, list_json, join, comma}
use tp.Rest.Listing.{empty_list}

-- The version that the searches write of each element.
abbrev pub searched_json : InfoElement → Text
searched_json = element_json (codes "1")

-- SearchOwnerNode, which closes the list only where it is empty.
unfoldable pub open_list : List InfoElement → Text
open_list [] = empty_list
open_list (e ∷ es) = codes "[" ++ join comma (map searched_json (e ∷ es))

module _ ⦃P : Platform⦄ where
  abbrev pub found_reply : M (List InfoElement) → M (List Sent)
  found_reply search_files =
      or_reply (reply status_code_no_content empty_list) search_files
        (λ elements. pure (reply status_code_ok (list_json (map searched_json elements))))

  -- What SearchFilenameNode, SearchExtensionNode and SearchTagNode share.
  unfoldable pub parameter_search : String → String → (Text → Text → M (List InfoElement)) → Handler
  parameter_search label key search_files conn = do
    field ← uri_item 4 conn
    (if text_eq field (codes label)
        then (do
          user_id ← uri_item 3 conn
          value ← get_parameter (codes key) conn
          found_reply (search_files user_id value))
        else pure (reply status_code_bad_request empty_list))

  unfoldable pub search_filename_node : Node
  search_filename_node = record (node_at 3 empty_list) {
    execute_get = parameter_search "file" "name" Searching.search_by_name;
  }

  unfoldable pub search_extension_node : Node
  search_extension_node = record (node_at 3 empty_list) {
    execute_get = parameter_search "file" "extension" Searching.search_by_extension;
  }

  unfoldable pub search_tag_node : Node
  search_tag_node = record (node_at 3 empty_list) {
    execute_get = parameter_search "tags" "tagname" Searching.search_by_tag;
  }

  -- `SearchOwnerNode::executeGet`
  unfoldable pub search_owner_get : Handler
  search_owner_get conn = do
    field ← uri_item 4 conn
    (if text_eq field (codes "owners")
        then (do
          user_id ← uri_item 3 conn
          owner ← uri_item 5 conn
          or_reply (reply status_code_no_content empty_list)
              (Searching.search_by_user user_id owner)
              (λ elements. pure (reply status_code_ok (open_list elements))))
        else pure (reply status_code_bad_request empty_list))

  unfoldable pub search_owner_node : Node
  search_owner_node = record (node_at 3 empty_list) { execute_get = search_owner_get }
