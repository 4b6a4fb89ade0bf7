-- ===== src/Dispatcher/Trash.antt =====
-- Deleting files and directories, and the files that a user has deleted: purging and recovering.
use tp.Common.{ℕ, zero, suc, not, none, some, List, ◌∷◌, ◌++◌, if◌then◌else◌}
use tp.Text.{Text, text_eq}
use tp.Text.Decimal.{to_string, stoi_count}
use tp.Text.KeyList.{
  delimiter, tokens, contains, add_key_to_string_list, remove_key_from_string_list,
  divide_selected_ids,
}
use tp.Storage.FileHandler
use tp.World.{
  Platform, M, pure, crash, stack_overflow, fail_with, fail_if, attempt, by_value, for_each,
  of_conversion, ◌>>=◌, ◌>>◌,
}
use tp.Data.Constants.{
  label_zero, label_empty_string, status_user_forbidden, status_delete_root_dir_forbidden,
}
use tp.Data.Users
use tp.Data.Users.{UserInfo}
use tp.Data.Directories
use tp.Data.Directories.{DirInfo}
use tp.Data.Files
use tp.Data.Files.{FileInfo}
use tp.Dispatcher.Sizes.{
  decrease_user_quota_used, increase_dir_size_recursive, decrease_dir_size_recursive,
}
use tp.Dispatcher.Sharing.{unset_file_share}

module _ ⦃P : Platform⦄ where
  -- The list of deleted files is written back, the other items of the user as they were read.
  unfoldable pub save_files_deleted : Text → UserInfo → Text → M Unit
  save_files_deleted user_id info files_deleted =
      Users.modify_user_info user_id info.email info.name info.location info.shared_files
        info.user_quota_used files_deleted

  -- The part of `delete_file` for the owner: the file moves to his deleted files, and is unshared.
  unfoldable pub delete_own_file : Text → Text → FileInfo → M Unit
  delete_own_file user_id file_id info = do
    owner_info ← Users.get_user_info user_id
    save_files_deleted user_id owner_info
        (add_key_to_string_list owner_info.files_deleted (delimiter ∷ file_id))
    parent ← Directories.get_directory_info info.parent_directory
    Directories.modify_directory_files_contained info.parent_directory
        (remove_key_from_string_list parent.files_contained file_id)
    for_each (tokens info.users_shared)
        (λ user_shared_id. unset_file_share user_id file_id user_shared_id info.date_last_mod)
    decrease_dir_size_recursive info.parent_directory info.size

  unfoldable pub delete_file : Text → Text → M Unit
  delete_file user_id file_id = do
    info ← Files.get_file_info file_id
    (if text_eq info.owner user_id
        then delete_own_file user_id file_id info
        else (if contains user_id (tokens info.users_shared)
            then unset_file_share info.owner file_id user_id info.date_last_mod
            else fail_with status_user_forbidden))

  -- The first argument is the number of calls that still fit on the stack.
  unfoldable pub delete_dir : ℕ → Text → M Unit
  delete_dir zero dir_id = crash stack_overflow
  delete_dir (suc depth) dir_id = do
    info ← Directories.get_directory_info dir_id
    for_each (tokens info.directories_contained) (delete_dir depth)
    for_each (tokens info.files_contained)
        (λ file_id. do file_info ← Files.get_file_info file_id; delete_file file_info.owner file_id)
    Directories.delete_directory dir_id

  unfoldable pub delete_dir_recursive : Text → M Unit
  delete_dir_recursive = delete_dir P.stack_depth

  unfoldable pub delete_directory : Text → Text → M Unit
  delete_directory user_id dir_id = do
    fail_if (text_eq dir_id label_zero) status_delete_root_dir_forbidden
    info ← Directories.get_directory_info dir_id
    fail_if (not (text_eq user_id info.owner)) status_user_forbidden
    delete_dir_recursive dir_id
    parent ← Directories.get_directory_info info.parent_directory
    Directories.modify_directory_dirs_contained info.parent_directory
        (remove_key_from_string_list parent.directories_contained dir_id)

  -- `for (int i = …; i > 0; --i)`
  unfoldable pub delete_revisions : Text → ℕ → M Unit
  delete_revisions name zero = pure tt
  delete_revisions name (suc i) = do
    FileHandler.delete_file (name ++ to_string (suc i))
    delete_revisions name i

  unfoldable pub purge_file : Text → M Unit
  purge_file file_id = do
    info ← Files.get_file_info file_id
    last ← of_conversion (stoi_count info.revision)
    delete_revisions (info.owner ++ file_id) last
    Files.delete_file file_id
    decrease_user_quota_used info.owner info.size

  -- The status is passed by value: see `by_value` at the calls.
  unfoldable pub purge_deleted_files_from_user_info : Text → M Unit
  purge_deleted_files_from_user_info files_deleted = for_each (tokens files_deleted) purge_file

  unfoldable pub purge_deleted_files : Text → M Unit
  purge_deleted_files user_id = do
    owner_info ← Users.get_user_info user_id
    by_value (purge_deleted_files_from_user_info owner_info.files_deleted)
    owner_info ← Users.get_user_info user_id
    save_files_deleted user_id owner_info label_empty_string

  unfoldable pub purge_selected_files : Text → List Text → M Unit
  purge_selected_files user_id selected_files_id = do
    owner_info ← Users.get_user_info user_id
    let divided = divide_selected_ids owner_info.files_deleted selected_files_id
    by_value (purge_deleted_files_from_user_info divided.0)
    owner_info ← Users.get_user_info user_id
    save_files_deleted user_id owner_info divided.1

  -- The directory that a recovered file goes to: the one it was in, or the root directory if that
  -- one is deleted.
  unfoldable pub recovery_dir : Text → Text → FileInfo → M (Text × DirInfo)
  recovery_dir dir_root file_id info = do
    answer ← attempt (Directories.get_directory_info info.parent_directory)
    elim answer [
      | some dir_info ↦ pure (info.parent_directory, dir_info)
      | none ↦ (do
        Files.modify_file_info file_id info.name info.extension info.date_last_mod info.tags
            info.users_shared info.owner dir_root
        dir_info ← Directories.get_directory_info dir_root
        pure (dir_root, dir_info))
    ]

  unfoldable pub recover_file : Text → Text → M Unit
  recover_file dir_root file_id = do
    info ← Files.get_file_info file_id
    (new_dir_id, dir_info) ← recovery_dir dir_root file_id info
    Directories.modify_directory_files_contained new_dir_id
        (add_key_to_string_list dir_info.files_contained file_id)
    increase_dir_size_recursive new_dir_id info.size

  unfoldable pub recover_deleted_files_from_user_info : Text → Text → M Unit
  recover_deleted_files_from_user_info dir_root files_deleted =
      for_each (tokens files_deleted) (recover_file dir_root)

  unfoldable pub recover_deleted_files : Text → M Unit
  recover_deleted_files user_id = do
    owner_info ← Users.get_user_info user_id
    by_value (recover_deleted_files_from_user_info owner_info.dir_root owner_info.files_deleted)
    save_files_deleted user_id owner_info label_empty_string

  unfoldable pub recover_selected_files : Text → List Text → M Unit
  recover_selected_files user_id selected_files_id = do
    owner_info ← Users.get_user_info user_id
    let divided = divide_selected_ids owner_info.files_deleted selected_files_id
    by_value (recover_deleted_files_from_user_info owner_info.dir_root divided.0)
    save_files_deleted user_id owner_info divided.1

  unfoldable pub delete_user : Text → M Unit
  delete_user user_id = do
    user_info ← Users.get_user_info user_id
    delete_dir_recursive user_info.dir_root
    purge_deleted_files user_id
    Users.delete_user user_id
