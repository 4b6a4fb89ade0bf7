-- ===== src/Rest/Guarded/Branches.antt =====
-- Every branch of server/src/web_server.cc but those to TokenNode and SignupNode leads to a guarded
-- node.
use tp.Common.{String, ◌≡◌, Bool, true, false}
use tp.Text.{text_eq, codes}
use tp.World.{Platform, M, pure}
use tp.World.Reads.{Reads, Reads-pure, Reads-bind}
use tp.Dispatcher.Listing.{starts_with}
use tp.Rest.Connection.{Connection}
use tp.Rest.Node.{uri_item}
use tp.Rest.Guarded.{
  Guarded, Branch, ◌▸◌, Reads-at, Reads-get_parameter, no_branch, Reads-first_route, to_node,
  to_uri_node, to_node_by, to_node_without,
}
use tp.Rest.Guarded.Nodes.{
  info_node-GuardedNode, info_trash_node-GuardedNode, search_filename_node-GuardedNode,
  search_extension_node-GuardedNode, search_tag_node-GuardedNode, search_owner_node-GuardedNode,
  profile_node-GuardedNode, update_photo_node-GuardedNode, update_userfullname_node-GuardedNode,
  update_location_node-GuardedNode, delete_trash_node-GuardedNode,
  delete_file_trash_node-GuardedNode, restore_trash_node-GuardedNode,
  restore_file_trash_node-GuardedNode, receive_file_node-GuardedNode, send_file_node-GuardedNode,
  send_dir_node-GuardedNode, delete_file_node-GuardedNode, create_dir_node-GuardedNode,
  delete_dir_node-GuardedNode, modify_name_dir_node-GuardedNode, list_tags_node-GuardedNode,
  list_tags_user_node-GuardedNode, update_tags_node-GuardedNode, search_users_node-GuardedNode,
  list_owners_node-GuardedNode, list_collaborators_node-GuardedNode,
  update_collaborators_node-GuardedNode, list_info_elem_node-GuardedNode,
}
use tp.Rest.Routes.{
  Route, first_route, uri_starts, info_branches, info_route, users_branches, users_route,
  tags_branches, collaborators_branches, branches, ignore,
}

-- Not one of the two URLs that are served without a token.
pub record NeedsToken (conn : Connection) : Type 0 where
  pub not_token : text_eq conn.uri (codes "/token") ≡ false
  pub not_signup : starts_with (codes "/signup") conn.uri ≡ false

module _ ⦃P : Platform⦄ where
  Reads-info_route : (conn : Connection) → Reads Guarded (info_route conn)
  unfolding info_route uri_item info_branches
  Reads-info_route conn =
      Reads-bind (λ _. Unit) Guarded _ _ (Reads-at _ 4)
        λ field _.
          Reads-bind (λ _. Unit) Guarded _ _ (Reads-get_parameter (codes "fileIds") conn)
            λ logged _. Reads-first_route (info_branches field conn) (
              to_node _ _ info_trash_node-GuardedNode
              ▸ to_node _ _ info_node-GuardedNode
              ▸ to_node_by _ "name" conn _ search_filename_node-GuardedNode
              ▸ to_node_by _ "extension" conn _ search_extension_node-GuardedNode
              ▸ to_node_by _ "tagname" conn _ search_tag_node-GuardedNode
              ▸ to_node _ _ search_owner_node-GuardedNode
              ▸ to_node_without _ "fileIds" conn _ delete_trash_node-GuardedNode
              ▸ to_node _ _ delete_file_trash_node-GuardedNode
              ▸ to_node_by _ "fileIds" conn _ restore_file_trash_node-GuardedNode
              ▸ to_node _ _ restore_trash_node-GuardedNode
              ▸ no_branch)

  Reads-users_route : (conn : Connection) → Reads Guarded (users_route conn)
  unfolding users_route uri_item users_branches
  Reads-users_route conn =
      Reads-bind (λ _. Unit) Guarded _ _ (Reads-at _ 3)
        λ field _. Reads-first_route (users_branches field conn) (
          to_node _ _ delete_file_node-GuardedNode
          ▸ to_node _ _ delete_dir_node-GuardedNode
          ▸ to_node _ _ create_dir_node-GuardedNode
          ▸ to_node _ _ send_file_node-GuardedNode
          ▸ to_node _ _ send_dir_node-GuardedNode
          ▸ no_branch)

  Reads-tags_route : (conn : Connection) → Reads Guarded (first_route (tags_branches conn))
  unfolding tags_branches
  Reads-tags_route conn = Reads-first_route (tags_branches conn) (
      to_node _ _ list_tags_node-GuardedNode
      ▸ to_node _ _ list_tags_user_node-GuardedNode
      ▸ to_node _ _ update_tags_node-GuardedNode
      ▸ no_branch)

  Reads-collaborators_route :
      (conn : Connection) → Reads Guarded (first_route (collaborators_branches conn))
  unfolding collaborators_branches
  Reads-collaborators_route conn = Reads-first_route (collaborators_branches conn) (
      to_node _ _ list_collaborators_node-GuardedNode
      ▸ to_node _ _ update_collaborators_node-GuardedNode
      ▸ no_branch)

  -- A branch that is not taken.
  closed-Branch : (b : Bool) (route : M Route) → b ≡ false → Branch (pure b, route)
  closed-Branch true route h = cc
  closed-Branch false route h = Reads-pure _ false λ is. cc

  -- A branch that leads to more branches.
  to_branches :
      (start : String) (conn : Connection) (route : M Route)
      → Reads Guarded route
      → Branch (uri_starts start conn, route)
  unfolding uri_starts
  to_branches start conn route r = Reads-pure _ _ λ _. r

  closed_uri :
      (start : String) (conn : Connection) (route : M Route)
      → starts_with (codes start) conn.uri ≡ false
      → Branch (uri_starts start conn, route)
  unfolding uri_starts
  closed_uri start conn route h = closed-Branch _ route h

  pub Reads-branches :
      (conn : Connection) → NeedsToken conn → Reads Guarded (first_route (branches conn))
  unfolding branches
  Reads-branches conn n = Reads-first_route (branches conn) (
      closed-Branch _ _ n.not_token
      ▸ to_branches _ conn _ (Reads-info_route conn)
      ▸ to_uri_node _ conn _ receive_file_node-GuardedNode
      ▸ to_branches _ conn _ (Reads-users_route conn)
      ▸ closed_uri _ conn _ n.not_signup
      ▸ to_uri_node _ conn _ profile_node-GuardedNode
      ▸ to_uri_node _ conn _ update_photo_node-GuardedNode
      ▸ to_uri_node _ conn _ update_userfullname_node-GuardedNode
      ▸ to_branches _ conn _ (Reads-tags_route conn)
      ▸ to_branches _ conn _ (Reads-pure Guarded ignore tt)
      ▸ to_branches _ conn _ (Reads-collaborators_route conn)
      ▸ to_uri_node _ conn _ list_owners_node-GuardedNode
      ▸ to_node_by _ "q" conn _ search_users_node-GuardedNode
      ▸ to_uri_node _ conn _ list_info_elem_node-GuardedNode
      ▸ to_uri_node _ conn _ update_location_node-GuardedNode
      ▸ to_uri_node _ conn _ modify_name_dir_node-GuardedNode
      ▸ no_branch)
