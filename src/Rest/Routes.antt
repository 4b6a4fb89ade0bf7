-- ===== src/Rest/Routes.antt =====
-- WEBServer, server/src/web_server.cc: which node serves a request.
use tp.Common.{
  String, Bool, true, false, not, List, [], ◌∷◌, ◌==◌, ltb, ◌&&◌, length, if◌then◌else◌,
}
use tp.Text.{Text, text_eq, codes}
use tp.World.{Platform, M, pure, ◌>>=◌}
use tp.Dispatcher.Listing.{starts_with}
use tp.Rest.Connection.{Connection, Sent, split, get_parameter}
use tp.Rest.Node.{Node, uri_item, execute}
use tp.Rest.Listing.{info_node, info_trash_node}
use tp.Rest.Searching.{
  search_filename_node, search_extension_node, search_tag_node, search_owner_node,
}
use tp.Rest.Users.{
  token_node, signup_node, profile_node, update_photo_node, update_userfullname_node,
  update_location_node,
}
use tp.Rest.Trash.{
  delete_trash_node, delete_file_trash_node, restore_trash_node, restore_file_trash_node,
}
use tp.Rest.Transfers.{receive_file_node, send_file_node, send_dir_node, delete_file_node}
use tp.Rest.Directories.{create_dir_node, delete_dir_node, modify_name_dir_node}
use tp.Rest.Tags.{list_tags_node, list_tags_user_node, update_tags_node}
use tp.Rest.Sharing.{
  search_users_node, list_owners_node, list_collaborators_node, update_collaborators_node,
}
use tp.Rest.Elements.{list_info_elem_node}

-- `mg_event`
pub data Event : Type 0 where
  mg_auth mg_request other_event : Event

-- `MG_TRUE` or `MG_FALSE`, and what was sent.
pub record Answer : Type 0 where
  pub processed : Bool
  pub sent : List Sent

module _ ⦃P : Platform⦄ where
  -- A node that is executed, `return MG_TRUE` with nothing sent, or `return MG_FALSE`.
  pub data Route : Type 0 where
    serve : Node → Route
    ignore not_processed : Route

  -- The first branch of an `else if` chain whose condition holds.
  unfoldable pub first_route : List (M Bool × M Route) → M Route
  first_route [] = pure not_processed
  first_route ((condition, route) ∷ routes) = do
    holds ← condition
    (if holds then route else first_route routes)

  unfoldable pub uri_starts : String → Connection → M Bool
  uri_starts start conn = pure (starts_with (codes start) conn.uri)

  unfoldable pub method_starts : String → Connection → Bool
  method_starts start conn = starts_with (codes start) conn.request_method

  -- `mgConnection.getParameter(key) != ""`, behind a condition that is tested first.
  unfoldable pub and_parameter : Bool → String → Connection → M Bool
  and_parameter holds key conn =
      if holds
      then (do value ← get_parameter (codes key) conn; pure (not (length value == 0)))
      else pure false

  -- `mgConnection.getParameter(key) == ""`, behind a condition that is tested first.
  unfoldable pub and_no_parameter : Bool → String → Connection → M Bool
  and_no_parameter holds key conn =
      if holds
      then (do value ← get_parameter (codes key) conn; pure (length value == 0))
      else pure false

  unfoldable pub is_at : Text → String → String → Connection → Bool
  is_at field label method conn = text_eq field (codes label) && method_starts method conn

  -- The branches below "/info/users".
  unfoldable pub info_branches : Text → Connection → List (M Bool × M Route)
  info_branches field conn =
      (
        pure (is_at field "trash" "GET" conn && length (split conn.uri b'/') == 5),
        pure (serve info_trash_node),
      )
      ∷ (pure (is_at field "dir" "GET" conn), pure (serve info_node))
      ∷ (
        and_parameter (is_at field "file" "GET" conn) "name" conn,
        pure (serve search_filename_node),
      )
      ∷ (
        and_parameter (is_at field "file" "GET" conn) "extension" conn,
        pure (serve search_extension_node),
      )
      ∷ (and_parameter (is_at field "tags" "GET" conn) "tagname" conn, pure (serve search_tag_node))
      ∷ (pure (is_at field "owners" "GET" conn), pure (serve search_owner_node))
      ∷ (
        and_no_parameter (is_at field "trash" "DELETE" conn) "fileIds" conn,
        pure (serve delete_trash_node),
      )
      ∷ (pure (is_at field "trash" "DELETE" conn), pure (serve delete_file_trash_node))
      ∷ (
        and_parameter (is_at field "trash" "POST" conn) "fileIds" conn,
        pure (serve restore_file_trash_node),
      )
      ∷ (
        pure (is_at field "trash" "POST" conn && ltb 4 (length (split conn.uri b'/'))),
        pure (serve restore_trash_node),
      )
      ∷ []

  -- The line of the log reads a parameter too.
  unfoldable pub info_route : Connection → M Route
  info_route conn = do
    field ← uri_item 4 conn
    logged ← get_parameter (codes "fileIds") conn
    first_route (info_branches field conn)

  -- The branches below "/users".
  unfoldable pub users_branches : Text → Connection → List (M Bool × M Route)
  users_branches field conn =
      (pure (is_at field "file" "DELETE" conn), pure (serve delete_file_node))
      ∷ (pure (is_at field "dir" "DELETE" conn), pure (serve delete_dir_node))
      ∷ (pure (is_at field "dir" "POST" conn), pure (serve create_dir_node))
      ∷ (pure (is_at field "file" "GET" conn), pure (serve send_file_node))
      ∷ (pure (is_at field "dir" "GET" conn), pure (serve send_dir_node))
      ∷ []

  unfoldable pub users_route : Connection → M Route
  users_route conn = do field ← uri_item 3 conn; first_route (users_branches field conn)

  -- The branches below "/filetags/users/".
  unfoldable pub tags_branches : Connection → List (M Bool × M Route)
  tags_branches conn =
      (
        pure (method_starts "GET" conn && not (length (split conn.uri b'/') == 4)),
        pure (serve list_tags_node),
      )
      ∷ (
        pure (method_starts "GET" conn && length (split conn.uri b'/') == 4),
        pure (serve list_tags_user_node),
      )
      ∷ (pure (method_starts "PUT" conn), pure (serve update_tags_node))
      ∷ []

  -- The branches below "/fileInfo/user/".
  unfoldable pub collaborators_branches : Connection → List (M Bool × M Route)
  collaborators_branches conn =
      (pure (method_starts "GET" conn), pure (serve list_collaborators_node))
      ∷ (pure (method_starts "POST" conn), pure (serve update_collaborators_node))
      ∷ []

  unfoldable pub branches : Connection → List (M Bool × M Route)
  branches conn =
      (pure (text_eq conn.uri (codes "/token")), pure (serve token_node))
      ∷ (uri_starts "/info/users" conn, info_route conn)
      ∷ (uri_starts "/file/users" conn, pure (serve receive_file_node))
      ∷ (uri_starts "/users" conn, users_route conn)
      ∷ (uri_starts "/signup" conn, pure (serve signup_node))
      ∷ (uri_starts "/profile" conn, pure (serve profile_node))
      ∷ (uri_starts "/photo" conn, pure (serve update_photo_node))
      ∷ (uri_starts "/userfullname" conn, pure (serve update_userfullname_node))
      ∷ (uri_starts "/filetags/users/" conn, first_route (tags_branches conn))
      ∷ (uri_starts "/revisions/users/" conn, pure ignore)
      ∷ (uri_starts "/fileInfo/user/" conn, first_route (collaborators_branches conn))
      ∷ (uri_starts "/owners/users/" conn, pure (serve list_owners_node))
      ∷ (
        and_parameter (starts_with (codes "/user/") conn.uri) "q" conn,
        pure (serve search_users_node),
      )
      ∷ (uri_starts "/fileinfo/users/" conn, pure (serve list_info_elem_node))
      ∷ (uri_starts "/location/users/" conn, pure (serve update_location_node))
      ∷ (uri_starts "/filename/users/" conn, pure (serve modify_name_dir_node))
      ∷ []

  unfoldable pub answer_route : Route → Connection → M Answer
  answer_route (serve node) conn = do
    sent ← execute node conn
    pure (record { processed = true; sent = sent })
  answer_route ignore conn = pure (record { processed = true; sent = [] })
  answer_route not_processed conn = pure (record { processed = false; sent = [] })

  unfoldable pub handler_caller : Event → Connection → M Answer
  handler_caller mg_auth conn = pure (record { processed = true; sent = [] })
  handler_caller mg_request conn = do route ← first_route (branches conn); answer_route route conn
  handler_caller other_event conn = pure (record { processed = false; sent = [] })
