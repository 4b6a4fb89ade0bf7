-- ===== src/Dispatcher/Frames/Changes.antt =====
-- Sharing, deleting, purging and recovering, and the changes of information.
use tp.Common.{ℕ, zero, suc, none, some, List}
use tp.Text.{Text}
use tp.World.{Platform}
use tp.Db.Keeps.{
  Keeps, keeps_rules, Keeps-pure, Keeps-crash, Keeps-bind, Keeps-attempt, Keeps-for_each,
  Keeps-of_conversion,
}
use tp.Data.Keys.Credentials.{IsCredential}
use tp.Data.Users.{UserInfo}
use tp.Data.Files.{FileInfo}
use tp.Data.Frames.{
  Keeps-get_user_info, Keeps-get_directory_info, Keeps-get_file_info, Keeps-modify_file_info,
  Keeps-delete_file, Keeps-modify_directory_info, Keeps-delete_directory,
  Keeps-modify_directory_files_contained, Keeps-modify_directory_dirs_contained,
}
use tp.Data.Profiles.{Keeps-modify_user_info}
use tp.Dispatcher.Accounts
use tp.Dispatcher.Listing
use tp.Dispatcher.Sharing
use tp.Dispatcher.Trash
use tp.Dispatcher.Frames.Views.{
  Keeps-decrease_user_quota_used, Keeps-increase_dir_size_recursive,
  Keeps-decrease_dir_size_recursive,
}
use tp.Dispatcher.Frames.Files.{Keeps-remove_bytes}

module _ ⦃P : Platform⦄ {k : Text} (c : IsCredential k) where
  pub Keeps-rename_directory :
      (user_id dir_id name date tags : Text)
      → Keeps k (Listing.modify_directory_info user_id dir_id name date tags)
  unfolding Listing.modify_directory_info
  Keeps-rename_directory user_id dir_id name date tags =
      search (keeps_rules, Keeps-get_directory_info, Keeps-modify_directory_info) depth 9

  pub Keeps-rename_file :
      (user_id file_id name extension date tags : Text)
      → Keeps k (Listing.modify_file_info user_id file_id name extension date tags)
  unfolding Listing.modify_file_info
  Keeps-rename_file user_id file_id name extension date tags =
      search (keeps_rules, Keeps-get_file_info, Keeps-modify_file_info) depth 9

  pub Keeps-rename_user :
      (user_id email first_name last_name gps_lat gps_lon : Text)
      → Keeps k (Accounts.modify_user_info user_id email first_name last_name gps_lat gps_lon)
  unfolding Accounts.modify_user_info
  Keeps-rename_user user_id email first_name last_name gps_lat gps_lon =
      search (keeps_rules, Keeps-get_user_info, Keeps-modify_user_info)

  pub Keeps-set_file_share :
      (owner_id file_id user_id date : Text)
      → Keeps k (Sharing.set_file_share owner_id file_id user_id date)
  unfolding Sharing.set_file_share Sharing.save_shared_files
  Keeps-set_file_share owner_id file_id user_id date =
      search
        (
          keeps_rules, Keeps-get_file_info, Keeps-get_user_info, Keeps-modify_user_info,
          Keeps-modify_file_info,
        )
        depth 9

  pub Keeps-unset_file_share :
      (owner_id file_id user_id date : Text)
      → Keeps k (Sharing.unset_file_share owner_id file_id user_id date)
  unfolding Sharing.unset_file_share Sharing.save_shared_files
  Keeps-unset_file_share owner_id file_id user_id date =
      search
        (
          keeps_rules, Keeps-get_file_info, Keeps-get_user_info, Keeps-modify_user_info,
          Keeps-modify_file_info,
        )
        depth 9

  pub Keeps-overwrite_file_sharing :
      (owner_id file_id : Text) (ids : List Text) (date : Text)
      → Keeps k (Sharing.overwrite_file_sharing_by_list owner_id file_id ids date)
  unfolding Sharing.overwrite_file_sharing_by_list
  Keeps-overwrite_file_sharing owner_id file_id ids date =
      search (keeps_rules, Keeps-get_file_info, Keeps-set_file_share, Keeps-unset_file_share) depth
        9

  Keeps-save_files_deleted :
      (id : Text) (info : UserInfo) (files : Text)
      → Keeps k (Trash.save_files_deleted id info files)
  unfolding Trash.save_files_deleted
  Keeps-save_files_deleted id info files = Keeps-modify_user_info c _ _ _ _ _ _ _

  Keeps-delete_own_file :
      (user_id file_id : Text) (info : FileInfo)
      → Keeps k (Trash.delete_own_file user_id file_id info)
  unfolding Trash.delete_own_file
  Keeps-delete_own_file user_id file_id info =
      search
        (
          keeps_rules, Keeps-get_user_info, Keeps-save_files_deleted, Keeps-get_directory_info,
          Keeps-modify_directory_files_contained, Keeps-unset_file_share,
          Keeps-decrease_dir_size_recursive,
        )
        depth 9

  pub Keeps-trash_file : (user_id file_id : Text) → Keeps k (Trash.delete_file user_id file_id)
  unfolding Trash.delete_file
  Keeps-trash_file user_id file_id =
      search (keeps_rules, Keeps-get_file_info, Keeps-delete_own_file, Keeps-unset_file_share) depth
        9

  Keeps-delete_dir : (depth : ℕ) (id : Text) → Keeps k (Trash.delete_dir depth id)
  unfolding Trash.delete_dir
  Keeps-delete_dir zero id = Keeps-crash _
  Keeps-delete_dir (suc depth) id = Keeps-bind _ _ (Keeps-get_directory_info c id) λ info.
      Keeps-bind _ _ (Keeps-for_each _ _ (Keeps-delete_dir depth)) λ _.
        search (keeps_rules, Keeps-get_file_info, Keeps-trash_file, Keeps-delete_directory) depth 9

  pub Keeps-trash_directory :
      (user_id dir_id : Text) → Keeps k (Trash.delete_directory user_id dir_id)
  unfolding Trash.delete_directory Trash.delete_dir_recursive
  Keeps-trash_directory user_id dir_id =
      search
        (
          keeps_rules, Keeps-get_directory_info, Keeps-delete_dir,
          Keeps-modify_directory_dirs_contained,
        )
        depth 9

  Keeps-delete_revisions : (name : Text) (n : ℕ) → Keeps k (Trash.delete_revisions name n)
  unfolding Trash.delete_revisions
  Keeps-delete_revisions name zero = Keeps-pure tt
  Keeps-delete_revisions name (suc n) =
      Keeps-bind _ _ (Keeps-remove_bytes _) λ _. Keeps-delete_revisions name n

  Keeps-purge_file : (file_id : Text) → Keeps k (Trash.purge_file file_id)
  unfolding Trash.purge_file
  Keeps-purge_file file_id = Keeps-bind _ _ (Keeps-get_file_info c file_id) λ info.
      Keeps-bind _ _ (Keeps-of_conversion _) λ last.
        Keeps-bind _ _ (Keeps-delete_revisions _ last) λ _.
          Keeps-bind _ _ (Keeps-delete_file c file_id) λ _. Keeps-decrease_user_quota_used c _ _

  Keeps-purge_files : (files : Text) → Keeps k (Trash.purge_deleted_files_from_user_info files)
  unfolding Trash.purge_deleted_files_from_user_info
  Keeps-purge_files files = Keeps-for_each _ _ Keeps-purge_file

  pub Keeps-purge_deleted_files : (user_id : Text) → Keeps k (Trash.purge_deleted_files user_id)
  unfolding Trash.purge_deleted_files
  Keeps-purge_deleted_files user_id =
      search (keeps_rules, Keeps-get_user_info, Keeps-purge_files, Keeps-save_files_deleted) depth 9

  pub Keeps-purge_selected_files :
      (user_id : Text) (ids : List Text) → Keeps k (Trash.purge_selected_files user_id ids)
  unfolding Trash.purge_selected_files
  Keeps-purge_selected_files user_id ids =
      search (keeps_rules, Keeps-get_user_info, Keeps-purge_files, Keeps-save_files_deleted) depth 9

  Keeps-recovery_dir :
      (dir_root file_id : Text) (info : FileInfo)
      → Keeps k (Trash.recovery_dir dir_root file_id info)
  unfolding Trash.recovery_dir
  Keeps-recovery_dir dir_root file_id info =
      Keeps-bind _ _ (Keeps-attempt _ (Keeps-get_directory_info c info.parent_directory)) (elim [
        | some dir_info ↦ Keeps-pure _
        | none ↦
            Keeps-bind _ _ (Keeps-modify_file_info c _ _ _ _ _ _ _ _)
              (λ _. Keeps-bind _ _ (Keeps-get_directory_info c dir_root) (λ dir_info. Keeps-pure _))
      ])

  Keeps-recover_file : (dir_root file_id : Text) → Keeps k (Trash.recover_file dir_root file_id)
  unfolding Trash.recover_file
  Keeps-recover_file dir_root file_id = Keeps-bind _ _ (Keeps-get_file_info c file_id) λ info.
      Keeps-bind _ _ (Keeps-recovery_dir dir_root file_id info) λ dir.
        Keeps-bind _ _ (Keeps-modify_directory_files_contained c _ _)
          λ _. Keeps-increase_dir_size_recursive c _ _

  Keeps-recover_files :
      (dir_root files : Text) → Keeps k (Trash.recover_deleted_files_from_user_info dir_root files)
  unfolding Trash.recover_deleted_files_from_user_info
  Keeps-recover_files dir_root files = Keeps-for_each _ _ (Keeps-recover_file dir_root)

  pub Keeps-recover_deleted_files : (user_id : Text) → Keeps k (Trash.recover_deleted_files user_id)
  unfolding Trash.recover_deleted_files
  Keeps-recover_deleted_files user_id =
      search (keeps_rules, Keeps-get_user_info, Keeps-recover_files, Keeps-save_files_deleted) depth
        9

  pub Keeps-recover_selected_files :
      (user_id : Text) (ids : List Text) → Keeps k (Trash.recover_selected_files user_id ids)
  unfolding Trash.recover_selected_files
  Keeps-recover_selected_files user_id ids =
      search (keeps_rules, Keeps-get_user_info, Keeps-recover_files, Keeps-save_files_deleted) depth
        9
