-- ===== src/Dispatcher/Sharing.antt =====
-- Sharing a file with other users: the file lists the users, and each user lists the file.
use tp.Common.{not, List}
use tp.Text.{Text, text_eq}
use tp.Text.KeyList.{tokens, add_key_to_string_list, remove_key_from_string_list}
use tp.World.{Platform, M, crash, undefined_behaviour, fail_if, for_each, ◌>>=◌, ◌>>◌}
use tp.Data.Constants.{status_user_forbidden}
use tp.Data.Users
use tp.Data.Users.{UserInfo}
use tp.Data.Files

module _ ⦃P : Platform⦄ where
  -- The list of shared files is written back, the other items of the user as they were read.
  unfoldable pub save_shared_files : Text → UserInfo → Text → M Unit
  save_shared_files user_id info shared_files =
      Users.modify_user_info user_id info.email info.name info.location shared_files
        info.user_quota_used info.files_deleted

  unfoldable pub set_file_share : Text → Text → Text → Text → M Unit
  set_file_share user_owner_id file_id user_shared_id date = do
    info ← Files.get_file_info file_id
    fail_if (not (text_eq info.owner user_owner_id)) status_user_forbidden
    user_info ← Users.get_user_info user_shared_id
    save_shared_files user_shared_id user_info
        (add_key_to_string_list user_info.shared_files file_id)
    Files.modify_file_info file_id info.name info.extension date info.tags
        (add_key_to_string_list info.users_shared user_shared_id) user_owner_id
        info.parent_directory

  unfoldable pub unset_file_share : Text → Text → Text → Text → M Unit
  unset_file_share user_owner_id file_id user_shared_id date = do
    info ← Files.get_file_info file_id
    fail_if (not (text_eq info.owner user_owner_id)) status_user_forbidden
    user_info ← Users.get_user_info user_shared_id
    save_shared_files user_shared_id user_info
        (remove_key_from_string_list user_info.shared_files file_id)
    Files.modify_file_info file_id info.name info.extension date info.tags
        (remove_key_from_string_list info.users_shared user_shared_id) user_owner_id
        info.parent_directory

  -- The function ends with no `return`, which is undefined behaviour.
  unfoldable pub overwrite_file_sharing_by_list : Text → Text → List Text → Text → M Unit
  overwrite_file_sharing_by_list user_owner_id file_id new_user_shared_id_list date = do
    info ← Files.get_file_info file_id
    fail_if (not (text_eq info.owner user_owner_id)) status_user_forbidden
    for_each (tokens info.users_shared)
        (λ user_id. unset_file_share user_owner_id file_id user_id info.date_last_mod)
    for_each new_user_shared_id_list (λ user_id. set_file_share user_owner_id file_id user_id date)
    crash undefined_behaviour
