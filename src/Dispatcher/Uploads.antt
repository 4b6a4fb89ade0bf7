-- ===== src/Dispatcher/Uploads.antt =====
-- New directories, and uploads: a new file, or a new revision of a file with the same name.
use tp.Common.{◌+◌, ◌%◌, ◌&&◌, ltb, ◌==◌, Option, none, some, List, [], ◌∷◌, ◌++◌, if◌then◌else◌}
use tp.Text.{Text, text_eq}
use tp.Text.Decimal.{to_string, word}
use tp.Text.KeyList.{tokens}
use tp.Storage.FileHandler
use tp.World.{Platform, M, pure, fail_with, fail_if, gets, by_value, ◌>>=◌, ◌>>◌}
use tp.Data.Constants.{status_max_quota_exceeded, status_fail_saving_file, label_revision_1}
use tp.Data.Directories
use tp.Data.Files
use tp.Data.Files.{FileInfo}
use tp.Dispatcher.Records.{stoul_decimal}
use tp.Dispatcher.Sizes.{
  get_user_quota_used, increase_user_quota_used, resolve_dir, change_dir_date_recursive,
  increase_dir_size_recursive, decrease_dir_size_recursive,
}

module _ ⦃P : Platform⦄ where
  unfoldable pub new_directory : Text → Text → Text → Text → M Text
  new_directory user_id name date parent_dir_id = do
    parent ← resolve_dir user_id parent_dir_id
    dir_id ← Directories.add_directory user_id name date parent
    change_dir_date_recursive parent date
    pure dir_id

  -- The first file of the list with that name and extension.
  unfoldable pub find_revision : Text → Text → List Text → M (Option (Text × FileInfo))
  find_revision name extension [] = pure none
  find_revision name extension (file_id ∷ file_ids) = do
    info ← Files.get_file_info file_id
    (if text_eq info.name name && text_eq info.extension extension
        then pure (some (file_id, info))
        else find_revision name extension file_ids)

  unfoldable pub search_revision_file : Text → Text → Text → M (Option (Text × FileInfo))
  search_revision_file parent_dir_id name extension = do
    parent ← Directories.get_directory_info parent_dir_id
    find_revision name extension (tokens parent.files_contained)

  unfoldable pub increase_file_revision : Text → M Unit
  increase_file_revision file_id = do
    info ← Files.get_file_info file_id
    revision ← stoul_decimal info.revision
    Files.modify_file_revision file_id (to_string ((revision + 1) % word))

  -- The upload of a new file: its entries, then its bytes.
  unfoldable pub save_new_file : Text → Text → Text → Text → Text → Text → Text → M Text
  save_new_file user_id name extension date stream size parent = do
    file_id ← Files.add_file user_id name extension date size label_revision_1 parent
    n ← stoul_decimal size
    written ← FileHandler.save_file (user_id ++ file_id ++ label_revision_1) stream n
    (if written == 0
        then (do Files.delete_file file_id; fail_with status_fail_saving_file)
        else pure tt)
    pure file_id

  -- The upload of a new revision: its bytes, then the number of the revision.
  unfoldable pub save_revision : Text → Text → Text → Text → FileInfo → M Unit
  save_revision user_id stream size revision_file_id revision_file_info = do
    revision ← stoul_decimal revision_file_info.revision
    n ← stoul_decimal size
    written ←
        FileHandler.save_file (user_id ++ revision_file_id ++ to_string ((revision + 1) % word))
          stream n
    fail_if (written == 0) status_fail_saving_file
    increase_file_revision revision_file_id

  -- `none` where the id of the file is left as it was, at a revision.
  unfoldable pub save_upload :
      Text → Text → Text → Text → Text → Text → Text → Option (Text × FileInfo) → M (Option Text)
  save_upload user_id name extension date stream size parent none = do
    file_id ← save_new_file user_id name extension date stream size parent
    pure (some file_id)
  save_upload user_id name extension date stream size parent (some (revision_file_id, info)) = do
    save_revision user_id stream size revision_file_id info
    pure none

  -- The size of the file that a revision takes the place of.
  unfoldable pub remove_old_size : Text → Option (Text × FileInfo) → M Unit
  remove_old_size parent none = pure tt
  remove_old_size parent (some (_, info)) = decrease_dir_size_recursive parent info.size

  unfoldable pub check_quota : Text → Text → M Unit
  check_quota user_id size = do
    quota_used ← get_user_quota_used user_id
    used ← stoul_decimal quota_used
    n ← stoul_decimal size
    max_user_quota ← gets (λ w. w.max_user_quota)
    fail_if (ltb max_user_quota ((used + n) % word)) status_max_quota_exceeded

  unfoldable pub new_file : Text → Text → Text → Text → Text → Text → Text → M (Option Text)
  new_file user_id name extension date stream size parent_dir_id = do
    check_quota user_id size
    parent ← resolve_dir user_id parent_dir_id
    revision ← by_value (search_revision_file parent name extension)
    file_id ← save_upload user_id name extension date stream size parent revision
    increase_user_quota_used user_id size
    change_dir_date_recursive parent date
    remove_old_size parent revision
    increase_dir_size_recursive parent size
    pure file_id
