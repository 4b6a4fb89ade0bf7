-- ===== src/Data/Directories.antt =====
-- The operations on directories.
use tp.Common.{◌++◌, not, if◌then◌else◌}
use tp.Common.{◌∷◌}
use tp.Text.{Text, text_eq}
use tp.Text.KeyList.{delimiter}
use tp.World.{Platform, M, pure, or_status, require, ◌>>=◌, ◌>>◌}
use tp.Db
use tp.Data.Constants.{
  status_database_error, label_empty_string, label_no_parent_dir, label_zero, suffix_dir_id,
  suffix_name, suffix_date_last_mod, suffix_tags, suffix_owner, suffix_parent_directory,
  suffix_files_contained, suffix_directories_contained, suffix_size,
}
use tp.Data.Keys.{generate_dir_key}
use tp.Data.Access.{dbh_get, create_id, write_batch_or_error}

-- dir_info_st
pub record DirInfo : Type 0 where
  pub name : Text
  pub date_last_mod : Text
  pub tags : Text
  pub owner : Text
  pub parent_directory : Text
  pub files_contained : Text
  pub directories_contained : Text
  pub size : Text

module _ ⦃P : Platform⦄ where
  unfoldable pub put_dir : Text → Text → Text → M Unit
  put_dir dir_id suffix value = Db.put_batch (generate_dir_key dir_id suffix) value

  unfoldable pub get_dir : Text → Text → M Text
  get_dir dir_id suffix = dbh_get (generate_dir_key dir_id suffix)

  -- The subdirectories of the parent with the new one behind them; nothing at the root.
  unfoldable pub directories_with : Text → Text → M Text
  directories_with parent_dir_id dir_id =
      if not (text_eq parent_dir_id label_no_parent_dir)
      then (do
        directories_contained ← get_dir parent_dir_id suffix_directories_contained
        pure (directories_contained ++ delimiter ∷ dir_id))
      else pure label_empty_string

  -- The batch of `add_directory`, which ends with the list of directories of the parent.
  unfoldable pub write_new_dir : Text → Text → Text → Text → Text → Text → M Unit
  write_new_dir user_id name date parent_dir_id dir_id directories_contained = do
    Db.clear_batch
    put_dir dir_id suffix_name name
    put_dir dir_id suffix_date_last_mod date
    put_dir dir_id suffix_tags label_empty_string
    put_dir dir_id suffix_owner user_id
    put_dir dir_id suffix_parent_directory parent_dir_id
    put_dir dir_id suffix_files_contained label_empty_string
    put_dir dir_id suffix_directories_contained label_empty_string
    put_dir dir_id suffix_size label_zero
    (if not (text_eq parent_dir_id label_no_parent_dir)
        then put_dir parent_dir_id suffix_directories_contained directories_contained
        else pure tt)
    write_batch_or_error

  unfoldable pub add_directory : Text → Text → Text → Text → M Text
  add_directory user_id name date parent_dir_id = do
    dir_id ← or_status status_database_error (create_id suffix_dir_id)
    directories_contained ← directories_with parent_dir_id dir_id
    write_new_dir user_id name date parent_dir_id dir_id directories_contained
    pure dir_id

  unfoldable pub get_directory_info : Text → M DirInfo
  get_directory_info dir_id = do
    name ← get_dir dir_id suffix_name
    date_last_mod ← get_dir dir_id suffix_date_last_mod
    tags ← get_dir dir_id suffix_tags
    owner ← get_dir dir_id suffix_owner
    parent_directory ← get_dir dir_id suffix_parent_directory
    files_contained ← get_dir dir_id suffix_files_contained
    directories_contained ← get_dir dir_id suffix_directories_contained
    size ← get_dir dir_id suffix_size
    pure (record {
      name = name;
      date_last_mod = date_last_mod;
      tags = tags;
      owner = owner;
      parent_directory = parent_directory;
      files_contained = files_contained;
      directories_contained = directories_contained;
      size = size;
    })

  unfoldable pub erase_dir : Text → Text → M Unit
  erase_dir dir_id suffix = Db.erase_batch (generate_dir_key dir_id suffix)

  unfoldable pub delete_directory : Text → M Unit
  delete_directory dir_id = do
    Db.clear_batch
    erase_dir dir_id suffix_name
    erase_dir dir_id suffix_date_last_mod
    erase_dir dir_id suffix_tags
    erase_dir dir_id suffix_owner
    erase_dir dir_id suffix_parent_directory
    erase_dir dir_id suffix_files_contained
    erase_dir dir_id suffix_directories_contained
    erase_dir dir_id suffix_size
    write_batch_or_error

  unfoldable pub modify_directory_info : Text → Text → Text → Text → Text → M Unit
  modify_directory_info dir_id name date tags size = do
    Db.clear_batch
    put_dir dir_id suffix_name name
    put_dir dir_id suffix_date_last_mod date
    put_dir dir_id suffix_tags tags
    put_dir dir_id suffix_size size
    write_batch_or_error

  unfoldable pub modify_directory_files_contained : Text → Text → M Unit
  modify_directory_files_contained dir_id files_contained =
      require (Db.put (generate_dir_key dir_id suffix_files_contained) files_contained)

  unfoldable pub modify_directory_dirs_contained : Text → Text → M Unit
  modify_directory_dirs_contained dir_id directories_contained =
      require (Db.put (generate_dir_key dir_id suffix_directories_contained) directories_contained)
