-- ===== src/Rest/Guarded/Nodes.antt =====
-- All nodes but TokenNode and SignupNode are guarded.
use tp.Common.{ℕ, refl}
use tp.Text.{Text}
use tp.World.{Platform}
use tp.Db.Keeps.{Keeps}
use tp.Data.Keys.Credentials.{IsCredential}
use tp.Rest.Connection.{Connection}
use tp.Rest.Node.{Handler, node_at}
use tp.Data.Constants.{by_name, by_extension, by_tag}
use tp.Dispatcher.Searching
use tp.Dispatcher.Frames.Searches.{Keeps-search_by_mode}
use tp.Rest.Listing.{info_node, info_trash_node}
use tp.Rest.Searching.{
  search_filename_node, search_extension_node, search_tag_node, search_owner_node,
}
use tp.Rest.Users.{profile_node, update_photo_node, update_userfullname_node, update_location_node}
use tp.Rest.Trash.{
  delete_trash_node, delete_file_trash_node, restore_trash_node, restore_file_trash_node,
}
use tp.Rest.Transfers.{receive_file_node, send_file_node, send_dir_node, delete_file_node}
use tp.Rest.Directories.{create_dir_node, delete_dir_node, modify_name_dir_node}
use tp.Rest.Tags.{list_tags_node, list_tags_user_node, update_tags_node}
use tp.Rest.Sharing.{
  search_users_node, list_owners_node, list_collaborators_node, update_collaborators_node,
}
use tp.Rest.Elements.{list_info_elem_node}
use tp.Rest.Frames.{KeepsNode-get, KeepsNode-post, KeepsNode-delete, KeepsNode-put}
use tp.Rest.Frames.Queries.{
  Keeps-info_get, Keeps-info_trash_get, Keeps-parameter_search, Keeps-search_owner_get,
  Keeps-profile_get, Keeps-send_file_get, Keeps-send_dir_get, Keeps-list_tags_get,
  Keeps-list_tags_user_get, Keeps-search_users_get, Keeps-list_owners_get,
  Keeps-list_collaborators_get, Keeps-list_info_elem_get,
}
use tp.Rest.Frames.Changes.{
  Keeps-update_photo_put, Keeps-update_userfullname_put, Keeps-update_location_put,
  Keeps-delete_trash_delete, Keeps-delete_file_trash_delete, Keeps-restore_trash_post,
  Keeps-restore_file_trash_post, Keeps-receive_file_post, Keeps-delete_file_delete,
  Keeps-create_dir_post, Keeps-delete_dir_delete, Keeps-modify_name_dir_put, Keeps-update_tags_put,
  Keeps-update_collaborators_post,
}
use tp.Rest.Guarded.{GuardedNode}

module _ ⦃P : Platform⦄ where
  -- A node that overrides one method, whose user is a part of the URL.
  module _ (i : ℕ) (response : Text) (h : Handler)
      (kh : (k : Text) → IsCredential k → (conn : Connection) → Keeps k (h conn)) where
    guarded_get : GuardedNode (record (node_at i response) { execute_get = h })
    guarded_get = record {
      part = i;
      checked = refl;
      quiet = λ k c. KeepsNode-get i response h (kh k c);
    }

    guarded_post : GuardedNode (record (node_at i response) { execute_post = h })
    guarded_post = record {
      part = i;
      checked = refl;
      quiet = λ k c. KeepsNode-post i response h (kh k c);
    }

    guarded_delete : GuardedNode (record (node_at i response) { execute_delete = h })
    guarded_delete = record {
      part = i;
      checked = refl;
      quiet = λ k c. KeepsNode-delete i response h (kh k c);
    }

    guarded_put : GuardedNode (record (node_at i response) { execute_put = h })
    guarded_put = record {
      part = i;
      checked = refl;
      quiet = λ k c. KeepsNode-put i response h (kh k c);
    }

  pub info_node-GuardedNode : GuardedNode info_node
  unfolding info_node
  info_node-GuardedNode = guarded_get 3 _ _ λ k c. Keeps-info_get c

  pub info_trash_node-GuardedNode : GuardedNode info_trash_node
  unfolding info_trash_node
  info_trash_node-GuardedNode = guarded_get 3 _ _ λ k c. Keeps-info_trash_get c

  pub search_filename_node-GuardedNode : GuardedNode search_filename_node
  unfolding search_filename_node Searching.search_by_name
  search_filename_node-GuardedNode =
      guarded_get 3 _ _
        λ k c conn. Keeps-parameter_search _ _ _ conn (Keeps-search_by_mode c by_name)

  pub search_extension_node-GuardedNode : GuardedNode search_extension_node
  unfolding search_extension_node Searching.search_by_extension
  search_extension_node-GuardedNode =
      guarded_get 3 _ _
        λ k c conn. Keeps-parameter_search _ _ _ conn (Keeps-search_by_mode c by_extension)

  pub search_tag_node-GuardedNode : GuardedNode search_tag_node
  unfolding search_tag_node Searching.search_by_tag
  search_tag_node-GuardedNode =
      guarded_get 3 _ _
        λ k c conn. Keeps-parameter_search _ _ _ conn (Keeps-search_by_mode c by_tag)

  pub search_owner_node-GuardedNode : GuardedNode search_owner_node
  unfolding search_owner_node
  search_owner_node-GuardedNode = guarded_get 3 _ _ λ k c. Keeps-search_owner_get c

  pub profile_node-GuardedNode : GuardedNode profile_node
  unfolding profile_node
  profile_node-GuardedNode = guarded_get 2 _ _ λ k c. Keeps-profile_get c

  pub update_photo_node-GuardedNode : GuardedNode update_photo_node
  unfolding update_photo_node
  update_photo_node-GuardedNode = guarded_put 2 _ _ λ k c. Keeps-update_photo_put

  pub update_userfullname_node-GuardedNode : GuardedNode update_userfullname_node
  unfolding update_userfullname_node
  update_userfullname_node-GuardedNode = guarded_put 2 _ _ λ k c. Keeps-update_userfullname_put c

  pub update_location_node-GuardedNode : GuardedNode update_location_node
  unfolding update_location_node
  update_location_node-GuardedNode = guarded_put 3 _ _ λ k c. Keeps-update_location_put c

  pub delete_trash_node-GuardedNode : GuardedNode delete_trash_node
  unfolding delete_trash_node
  delete_trash_node-GuardedNode = guarded_delete 3 _ _ λ k c. Keeps-delete_trash_delete c

  pub delete_file_trash_node-GuardedNode : GuardedNode delete_file_trash_node
  unfolding delete_file_trash_node
  delete_file_trash_node-GuardedNode = guarded_delete 3 _ _ λ k c. Keeps-delete_file_trash_delete c

  pub restore_trash_node-GuardedNode : GuardedNode restore_trash_node
  unfolding restore_trash_node
  restore_trash_node-GuardedNode = guarded_post 3 _ _ λ k c. Keeps-restore_trash_post c

  pub restore_file_trash_node-GuardedNode : GuardedNode restore_file_trash_node
  unfolding restore_file_trash_node
  restore_file_trash_node-GuardedNode = guarded_post 3 _ _ λ k c. Keeps-restore_file_trash_post c

  pub receive_file_node-GuardedNode : GuardedNode receive_file_node
  unfolding receive_file_node
  receive_file_node-GuardedNode = guarded_post 3 _ _ λ k c. Keeps-receive_file_post c

  pub send_file_node-GuardedNode : GuardedNode send_file_node
  unfolding send_file_node
  send_file_node-GuardedNode = guarded_get 2 _ _ λ k c. Keeps-send_file_get c

  pub send_dir_node-GuardedNode : GuardedNode send_dir_node
  unfolding send_dir_node
  send_dir_node-GuardedNode = guarded_get 2 _ _ λ k c. Keeps-send_dir_get c

  pub delete_file_node-GuardedNode : GuardedNode delete_file_node
  unfolding delete_file_node
  delete_file_node-GuardedNode = guarded_delete 2 _ _ λ k c. Keeps-delete_file_delete c

  pub create_dir_node-GuardedNode : GuardedNode create_dir_node
  unfolding create_dir_node
  create_dir_node-GuardedNode = guarded_post 2 _ _ λ k c. Keeps-create_dir_post c

  pub delete_dir_node-GuardedNode : GuardedNode delete_dir_node
  unfolding delete_dir_node
  delete_dir_node-GuardedNode = guarded_delete 2 _ _ λ k c. Keeps-delete_dir_delete c

  pub modify_name_dir_node-GuardedNode : GuardedNode modify_name_dir_node
  unfolding modify_name_dir_node
  modify_name_dir_node-GuardedNode = guarded_put 3 _ _ λ k c. Keeps-modify_name_dir_put c

  pub list_tags_node-GuardedNode : GuardedNode list_tags_node
  unfolding list_tags_node
  list_tags_node-GuardedNode = guarded_get 3 _ _ λ k c. Keeps-list_tags_get c

  pub list_tags_user_node-GuardedNode : GuardedNode list_tags_user_node
  unfolding list_tags_user_node
  list_tags_user_node-GuardedNode = guarded_get 3 _ _ λ k c. Keeps-list_tags_user_get c

  pub update_tags_node-GuardedNode : GuardedNode update_tags_node
  unfolding update_tags_node
  update_tags_node-GuardedNode = guarded_put 3 _ _ λ k c. Keeps-update_tags_put c

  pub search_users_node-GuardedNode : GuardedNode search_users_node
  unfolding search_users_node
  search_users_node-GuardedNode = guarded_get 2 _ _ λ k c. Keeps-search_users_get c

  pub list_owners_node-GuardedNode : GuardedNode list_owners_node
  unfolding list_owners_node
  list_owners_node-GuardedNode = guarded_get 3 _ _ λ k c. Keeps-list_owners_get c

  pub list_collaborators_node-GuardedNode : GuardedNode list_collaborators_node
  unfolding list_collaborators_node
  list_collaborators_node-GuardedNode = guarded_get 3 _ _ λ k c. Keeps-list_collaborators_get c

  pub update_collaborators_node-GuardedNode : GuardedNode update_collaborators_node
  unfolding update_collaborators_node
  update_collaborators_node-GuardedNode =
      guarded_post 3 _ _ λ k c. Keeps-update_collaborators_post c

  pub list_info_elem_node-GuardedNode : GuardedNode list_info_elem_node
  unfolding list_info_elem_node
  list_info_elem_node-GuardedNode = guarded_get 3 _ _ λ k c. Keeps-list_info_elem_get c
