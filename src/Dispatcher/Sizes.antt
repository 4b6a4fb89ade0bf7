-- ===== src/Dispatcher/Sizes.antt =====
-- The quota of a user, and the dates and sizes of a directory and of those that contain it.
use tp.Common.{ℕ, zero, suc, ◌+◌, ◌-◌, ◌%◌, not, if◌then◌else◌}
use tp.Text.{Text, text_eq}
use tp.Text.Decimal.{to_string, word}
use tp.World.{Platform, M, pure, crash, stack_overflow, ◌>>=◌, ◌>>◌}
use tp.Data.Constants.{label_no_parent_dir, label_zero}
use tp.Data.Users
use tp.Data.Directories
use tp.Dispatcher.Records.{stoul_decimal}

module _ ⦃P : Platform⦄ where
  unfoldable pub get_user_quota_used : Text → M Text
  get_user_quota_used user_id = do
    user_info ← Users.get_user_info user_id
    pure user_info.user_quota_used

  -- The quota is written back, the other items of the user as they were read.
  unfoldable pub save_quota : Text → Users.UserInfo → ℕ → M Unit
  save_quota user_id user_info new_quota =
      Users.modify_user_info user_id user_info.email user_info.name user_info.location
        user_info.shared_files (to_string new_quota) user_info.files_deleted

  unfoldable pub increase_user_quota_used : Text → Text → M Unit
  increase_user_quota_used user_id quota_increased = do
    user_info ← Users.get_user_info user_id
    used ← stoul_decimal user_info.user_quota_used
    increase ← stoul_decimal quota_increased
    save_quota user_id user_info ((used + increase) % word)

  unfoldable pub decrease_user_quota_used : Text → Text → M Unit
  decrease_user_quota_used user_id quota_decreased = do
    user_info ← Users.get_user_info user_id
    used ← stoul_decimal user_info.user_quota_used
    decrease ← stoul_decimal quota_decreased
    save_quota user_id user_info ((used + word - decrease) % word)

  unfoldable pub get_root_dir_id : Text → M Text
  get_root_dir_id user_id = do user_info ← Users.get_user_info user_id; pure user_info.dir_root

  -- `if( dir_id==LABEL_ZERO ){ if( !get_root_dir_id(user_id,dir_id,status) ){ return false; } }`
  unfoldable pub resolve_dir : Text → Text → M Text
  resolve_dir user_id dir_id =
      if text_eq dir_id label_zero then get_root_dir_id user_id else pure dir_id

  -- The first argument is the number of calls that still fit on the stack.
  unfoldable pub change_dir_date : ℕ → Text → Text → M Unit
  change_dir_date zero dir_id new_date = crash stack_overflow
  change_dir_date (suc depth) dir_id new_date = do
    dir_info ← Directories.get_directory_info dir_id
    (if not (text_eq dir_info.parent_directory label_no_parent_dir)
        then change_dir_date depth dir_info.parent_directory new_date
        else pure tt)
    Directories.modify_directory_info dir_id dir_info.name new_date dir_info.tags dir_info.size

  unfoldable pub change_dir_date_recursive : Text → Text → M Unit
  change_dir_date_recursive = change_dir_date P.stack_depth

  unfoldable pub increase_dir_size : ℕ → Text → Text → M Unit
  increase_dir_size zero dir_id size_increased = crash stack_overflow
  increase_dir_size (suc depth) dir_id size_increased = do
    dir_info ← Directories.get_directory_info dir_id
    (if not (text_eq dir_info.parent_directory label_no_parent_dir)
        then increase_dir_size depth dir_info.parent_directory size_increased
        else pure tt)
    size ← stoul_decimal dir_info.size
    increase ← stoul_decimal size_increased
    Directories.modify_directory_info dir_id dir_info.name dir_info.date_last_mod dir_info.tags
        (to_string ((size + increase) % word))

  unfoldable pub increase_dir_size_recursive : Text → Text → M Unit
  increase_dir_size_recursive = increase_dir_size P.stack_depth

  unfoldable pub decrease_dir_size : ℕ → Text → Text → M Unit
  decrease_dir_size zero dir_id size_decreased = crash stack_overflow
  decrease_dir_size (suc depth) dir_id size_decreased = do
    dir_info ← Directories.get_directory_info dir_id
    (if not (text_eq dir_info.parent_directory label_no_parent_dir)
        then decrease_dir_size depth dir_info.parent_directory size_decreased
        else pure tt)
    size ← stoul_decimal dir_info.size
    decrease ← stoul_decimal size_decreased
    Directories.modify_directory_info dir_id dir_info.name dir_info.date_last_mod dir_info.tags
        (to_string ((size + word - decrease) % word))

  unfoldable pub decrease_dir_size_recursive : Text → Text → M Unit
  decrease_dir_size_recursive = decrease_dir_size P.stack_depth
