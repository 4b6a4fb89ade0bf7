-- ===== src/Rest/Sharing.antt =====
-- The nodes of users and of sharing, server/src/rest: search_users_node.cc, list_owners_node.cc,
-- list_collaborators_node.cc and update_collaborators_node.cc.
use tp.Common.{
  Bool, true, false, Option, none, some, List, [], ◌∷◌, ◌++◌, ◌==◌, ◌||◌, length, map,
  if◌then◌else◌,
}
use tp.Text.{Text, text_eq, codes}
use tp.World.{Platform, M, pure, attempt, collect, ◌>>=◌}
use tp.Dispatcher.Records.{UserProfile}
use tp.Dispatcher.Accounts
use tp.Dispatcher.Listing
use tp.Dispatcher.Searching
use tp.Dispatcher.Sharing
use tp.Rest.Connection.{
  Connection, Sent, reply, split, get_parameter, get_body_json, as_string, status_code_ok,
  status_code_no_content, status_code_bad_request,
}
use tp.Rest.Node.{Handler, Node, node_at, uri_item, or_reply}
use tp.Rest.Json.{user_json, list_json, comma}
use tp.Rest.Listing.{empty_list}

-- All rows but that of the last user have a comma behind them, also where that one is not written.
unfoldable pub rows_text : List (Option Text) → Text
rows_text [] = []
rows_text (none ∷ rows) = rows_text rows
rows_text (some row ∷ []) = row
rows_text (some row ∷ r ∷ rows) = row ++ comma ++ rows_text (r ∷ rows)

unfoldable pub any_row : List (Option Text) → Bool
any_row [] = false
any_row (none ∷ rows) = any_row rows
any_row (some row ∷ rows) = true

module _ ⦃P : Platform⦄ where
  abbrev pub users_reply : M (List UserProfile) → M (List Sent)
  users_reply m =
      or_reply (reply status_code_no_content empty_list) m
        (λ users. pure (reply status_code_ok (list_json (map user_json users))))

  -- `SearchUsersNode::executeGet`
  unfoldable pub search_users_get : Handler
  search_users_get conn = do
    field ← uri_item 3 conn
    (if text_eq field (codes "users")
        then (do
          user_id ← uri_item 2 conn
          query_mail ← get_parameter (codes "q") conn
          users_reply (
              Searching.get_user_email_list_by_pattern
                (if text_eq query_mail (codes "%40") then codes "@" else query_mail)))
        else pure (reply status_code_bad_request empty_list))

  unfoldable pub search_users_node : Node
  search_users_node = record (node_at 2 empty_list) { execute_get = search_users_get }

  -- `ListOwnersNode::executeGet`
  unfoldable pub list_owners_get : Handler
  list_owners_get conn =
      if length (split conn.uri b'/') == 4
      then (do
        user_id ← uri_item 3 conn
        users_reply (Searching.get_owners_of_shared_files user_id))
      else pure (reply status_code_bad_request empty_list)

  unfoldable pub list_owners_node : Node
  list_owners_node = record (node_at 3 empty_list) { execute_get = list_owners_get }

  -- What the nodes of collaborators share. The body has the user and the file.
  unfoldable pub collaborators_url : Connection → (Text → Text → M (List Sent)) → M (List Sent)
  collaborators_url conn serve = do
    field ← uri_item 4 conn
    (if text_eq field (codes "files")
        then (do
          last ← uri_item 6 conn
          (if text_eq last (codes "collaborators")
              then (do user_id ← uri_item 3 conn; file_id ← uri_item 5 conn; serve user_id file_id)
              else pure (reply status_code_bad_request empty_list)))
        else pure (reply status_code_bad_request empty_list))

  -- `ListCollaboratorsNode::executeGet`
  unfoldable pub list_collaborators_get : Handler
  list_collaborators_get conn = collaborators_url conn λ user_id file_id.
      users_reply
        (do file_info ← Listing.get_file_info user_id file_id; pure file_info.shared_users)

  unfoldable pub list_collaborators_node : Node
  list_collaborators_node = record (node_at 3 empty_list) { execute_get = list_collaborators_get }

  -- The user with the id of the list, which the row is written with.
  unfoldable pub collaborator_row : Text → M (Option Text)
  collaborator_row id = do
    answer ← attempt (Accounts.get_user_info id)
    pure (elim answer [ none ↦ none | some u ↦ some (user_json (record u { id = id })) ])

  -- `UpdateCollaboratorsNode::executePost`
  unfoldable pub update_collaborators_post : Handler
  update_collaborators_post conn = collaborators_url conn λ user_id file_id.
      get_body_json conn >>= λ root. collect root.ids as_string >>= λ user_shared.
      or_reply (reply status_code_no_content empty_list)
        (Sharing.overwrite_file_sharing_by_list user_id file_id user_shared conn.date)
        (λ _. collect user_shared collaborator_row >>= λ rows. pure (
          if length rows == 0 || any_row rows
          then reply status_code_ok (codes "[" ++ rows_text rows ++ codes "]")
          else reply status_code_no_content empty_list))

  unfoldable pub update_collaborators_node : Node
  update_collaborators_node = record (node_at 3 empty_list) {
    execute_post = update_collaborators_post;
  }
