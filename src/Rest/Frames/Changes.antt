-- ===== src/Rest/Frames/Changes.antt =====
-- The methods that change accounts, files, directories, tags, shares and the trash.
use tp.Common.{List, none, some, ℕ, Bool}
use tp.Text.{Text}
use tp.World.{Platform, M, endless_loop, undefined_behaviour}
use tp.Db.Keeps.{Keeps, Keeps-pure, Keeps-crash, Keeps-bind, Keeps-attempt, keeps_rules}
use tp.Data.Keys.Credentials.{IsCredential}
use tp.Dispatcher.Frames.Views.{
  Keeps-view_user, Keeps-view_file, Keeps-view_directory, Keeps-fill_directory_info,
  Keeps-client_parent,
}
use tp.Dispatcher.Frames.Changes.{
  Keeps-rename_directory, Keeps-rename_file, Keeps-rename_user, Keeps-overwrite_file_sharing,
  Keeps-trash_file, Keeps-trash_directory, Keeps-purge_deleted_files, Keeps-purge_selected_files,
  Keeps-recover_deleted_files, Keeps-recover_selected_files,
}
use tp.Dispatcher.Frames.Transfers.{Keeps-set_user_image, Keeps-new_directory, Keeps-new_file}
use tp.Rest.Connection.{Connection, Sent, read_dangling, set_uri}
use tp.Rest.Users.{update_photo_put, update_userfullname_put, update_location_put}
use tp.Rest.Trash.{
  trash_url, show_trash, delete_trash_delete, delete_file_trash_delete, restore_trash_post,
  restore_file_trash_post,
}
use tp.Rest.Transfers.{
  show_directory, next_part, find_file_part, file_loop, receive_file_post, delete_file_delete,
}
use tp.Rest.Directories.{
  create_dir_post, parent_or_reply, delete_dir_delete, rename_element, modify_name_dir_put,
}
use tp.Rest.Tags.{write_tags, update_tags_put}
use tp.Rest.Sharing.{collaborator_row, update_collaborators_post}
use tp.Rest.Frames.{rest_rules, Keeps-option, Keeps-at}
use tp.Rest.Frames.Queries.{
  Keeps-users_url, Keeps-tags_url, Keeps-collaborators_url, Keeps-info_get, Keeps-info_trash_get,
}

module _ ⦃P : Platform⦄ {k : Text} where
  Keeps-trash_url :
      (test : ℕ → Bool) (response : Text) (conn : Connection) (serve : Text → M (List Sent))
      → ((user : Text) → Keeps k (serve user))
      → Keeps k (trash_url test response conn serve)
  unfolding trash_url
  Keeps-trash_url test response conn serve ks = search (rest_rules, ks) depth 12

  Keeps-find_file_part : (conn : Connection) → Keeps k (find_file_part conn)
  unfolding find_file_part
  Keeps-find_file_part conn =
      let (first, conn') = next_part conn in
      Keeps-option (file_loop 1 conn' first) _ _ (Keeps-crash endless_loop) Keeps-pure

  Keeps-read_dangling : (s : Text) (conn : Connection) → Keeps k (read_dangling s conn)
  unfolding read_dangling
  Keeps-read_dangling s conn =
      Keeps-option (conn.dangling s) _ _ (Keeps-crash undefined_behaviour) Keeps-pure

  Keeps-set_uri : (uri : Text) (conn : Connection) → Keeps k (set_uri uri conn)
  unfolding set_uri
  Keeps-set_uri uri conn = Keeps-bind _ _ (Keeps-read_dangling uri conn) λ _. Keeps-pure _

  pub Keeps-update_photo_put : (conn : Connection) → Keeps k (update_photo_put conn)
  unfolding update_photo_put
  Keeps-update_photo_put conn = search (rest_rules, Keeps-set_user_image) depth 14

module _ ⦃P : Platform⦄ {k : Text} (c : IsCredential k) where
  pub Keeps-update_userfullname_put : (conn : Connection) → Keeps k (update_userfullname_put conn)
  unfolding update_userfullname_put
  Keeps-update_userfullname_put conn =
      search (rest_rules, Keeps-view_user c, Keeps-rename_user c) depth 16

  pub Keeps-update_location_put : (conn : Connection) → Keeps k (update_location_put conn)
  unfolding update_location_put
  Keeps-update_location_put conn =
      search (rest_rules, Keeps-view_user c, Keeps-rename_user c) depth 16

  Keeps-show_trash : (user_id : Text) (conn : Connection) → Keeps k (show_trash user_id conn)
  unfolding show_trash
  Keeps-show_trash user_id conn =
      Keeps-bind _ _ (Keeps-set_uri _ _) λ next. Keeps-info_trash_get c next

  pub Keeps-delete_trash_delete : (conn : Connection) → Keeps k (delete_trash_delete conn)
  unfolding delete_trash_delete
  Keeps-delete_trash_delete conn =
      search (rest_rules, Keeps-trash_url, Keeps-purge_deleted_files c) depth 14

  pub Keeps-delete_file_trash_delete : (conn : Connection) → Keeps k (delete_file_trash_delete conn)
  unfolding delete_file_trash_delete
  Keeps-delete_file_trash_delete conn =
      search (rest_rules, Keeps-trash_url, Keeps-purge_selected_files c, Keeps-show_trash) depth 14

  pub Keeps-restore_trash_post : (conn : Connection) → Keeps k (restore_trash_post conn)
  unfolding restore_trash_post
  Keeps-restore_trash_post conn =
      search (rest_rules, Keeps-trash_url, Keeps-recover_deleted_files c, Keeps-show_trash) depth 14

  pub Keeps-restore_file_trash_post : (conn : Connection) → Keeps k (restore_file_trash_post conn)
  unfolding restore_file_trash_post
  Keeps-restore_file_trash_post conn =
      search (rest_rules, Keeps-trash_url, Keeps-recover_selected_files c, Keeps-show_trash) depth
        14

  Keeps-show_directory :
      (user_id dir_id : Text) (conn : Connection) → Keeps k (show_directory user_id dir_id conn)
  unfolding show_directory
  Keeps-show_directory user_id dir_id conn =
      Keeps-bind _ _ (Keeps-set_uri _ _) λ next. Keeps-info_get c next

  pub Keeps-receive_file_post : (conn : Connection) → Keeps k (receive_file_post conn)
  unfolding receive_file_post
  Keeps-receive_file_post conn =
      search (rest_rules, Keeps-find_file_part, Keeps-at, Keeps-new_file c, Keeps-show_directory)
        depth 18

  pub Keeps-delete_file_delete : (conn : Connection) → Keeps k (delete_file_delete conn)
  unfolding delete_file_delete
  Keeps-delete_file_delete conn =
      search
        (rest_rules, Keeps-users_url, Keeps-view_file c, Keeps-trash_file c, Keeps-show_directory)
        depth 14

  pub Keeps-create_dir_post : (conn : Connection) → Keeps k (create_dir_post conn)
  unfolding create_dir_post
  Keeps-create_dir_post conn =
      search (rest_rules, Keeps-users_url, Keeps-new_directory c, Keeps-view_directory c) depth 14

  Keeps-parent_or_reply : (user_id dir_id : Text) → Keeps k (parent_or_reply user_id dir_id)
  unfolding parent_or_reply
  Keeps-parent_or_reply user_id dir_id =
      Keeps-bind _ _ (Keeps-attempt _ (Keeps-fill_directory_info c user_id dir_id))
        (elim [ none ↦ Keeps-pure _ | some dir_info ↦ search (keeps_rules, Keeps-client_parent c) ])

  pub Keeps-delete_dir_delete : (conn : Connection) → Keeps k (delete_dir_delete conn)
  unfolding delete_dir_delete
  Keeps-delete_dir_delete conn =
      search
        (
          rest_rules,
          Keeps-users_url,
          Keeps-parent_or_reply,
          Keeps-trash_directory c,
          Keeps-show_directory,
        )
        depth 14

  Keeps-rename_element :
      (field user_id id name : Text) → Keeps k (rename_element field user_id id name)
  unfolding rename_element
  Keeps-rename_element field user_id id name =
      search
        (
          rest_rules,
          Keeps-view_file c,
          Keeps-rename_file c,
          Keeps-view_directory c,
          Keeps-rename_directory c,
        )
        depth 12

  pub Keeps-modify_name_dir_put : (conn : Connection) → Keeps k (modify_name_dir_put conn)
  unfolding modify_name_dir_put
  Keeps-modify_name_dir_put conn = search (rest_rules, Keeps-rename_element) depth 16

  Keeps-write_tags : (field user_id id tags : Text) → Keeps k (write_tags field user_id id tags)
  unfolding write_tags
  Keeps-write_tags field user_id id tags =
      search
        (
          rest_rules,
          Keeps-view_file c,
          Keeps-rename_file c,
          Keeps-view_directory c,
          Keeps-rename_directory c,
        )
        depth 12

  pub Keeps-update_tags_put : (conn : Connection) → Keeps k (update_tags_put conn)
  unfolding update_tags_put
  Keeps-update_tags_put conn = search (rest_rules, Keeps-tags_url, Keeps-write_tags) depth 14

  Keeps-collaborator_row : (id : Text) → Keeps k (collaborator_row id)
  unfolding collaborator_row
  Keeps-collaborator_row id = search (rest_rules, Keeps-view_user c)

  pub Keeps-update_collaborators_post :
      (conn : Connection) → Keeps k (update_collaborators_post conn)
  unfolding update_collaborators_post
  Keeps-update_collaborators_post conn =
      search
        (
          rest_rules,
          Keeps-collaborators_url,
          Keeps-overwrite_file_sharing c,
          Keeps-collaborator_row,
        )
        depth 16
