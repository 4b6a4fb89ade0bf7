-- ===== src/Data/Files.antt =====
-- The operations on the information of files.
use tp.Common.{◌++◌, ◌∷◌}
use tp.Text.{Text}
use tp.Text.KeyList.{delimiter}
use tp.World.{Platform, M, pure, or_status, ◌>>=◌, ◌>>◌}
use tp.Db
use tp.Data.Constants.{
  status_database_error, label_empty_string, suffix_file_id, suffix_name, suffix_extension,
  suffix_date_last_mod, suffix_user_last_mod, suffix_tags, suffix_owner, suffix_size,
  suffix_users_shared, suffix_file_revision, suffix_parent_directory, suffix_files_contained,
}
use tp.Data.Keys.{generate_file_key}
use tp.Data.Access.{dbh_get, create_id, write_batch_or_error}
use tp.Data.Directories.{get_dir, put_dir}

-- file_info_st
pub record FileInfo : Type 0 where
  pub name : Text
  pub extension : Text
  pub date_last_mod : Text
  pub user_last_mod : Text
  pub tags : Text
  pub owner : Text
  pub size : Text
  pub users_shared : Text
  pub revision : Text
  pub parent_directory : Text

module _ ⦃P : Platform⦄ where
  unfoldable pub put_file : Text → Text → Text → M Unit
  put_file file_id suffix value = Db.put_batch (generate_file_key file_id suffix) value

  unfoldable pub get_file : Text → Text → M Text
  get_file file_id suffix = dbh_get (generate_file_key file_id suffix)

  unfoldable pub erase_file : Text → Text → M Unit
  erase_file file_id suffix = Db.erase_batch (generate_file_key file_id suffix)

  -- The batch of `add_file`, which ends with the list of files of the directory.
  unfoldable pub write_new_file :
      Text → Text → Text → Text → Text → Text → Text → Text → Text → M Unit
  write_new_file user_id name extension date size revision parent_dir_id file_id files_contained =
      do
        Db.clear_batch
        put_file file_id suffix_name name
        put_file file_id suffix_extension extension
        put_file file_id suffix_date_last_mod date
        put_file file_id suffix_user_last_mod user_id
        put_file file_id suffix_tags label_empty_string
        put_file file_id suffix_owner user_id
        put_file file_id suffix_size size
        put_file file_id suffix_users_shared label_empty_string
        put_file file_id suffix_file_revision revision
        put_file file_id suffix_parent_directory parent_dir_id
        put_dir parent_dir_id suffix_files_contained files_contained
        write_batch_or_error

  unfoldable pub add_file : Text → Text → Text → Text → Text → Text → Text → M Text
  add_file user_id name extension date size revision parent_dir_id = do
    dir_files_contained ← get_dir parent_dir_id suffix_files_contained
    file_id ← or_status status_database_error (create_id suffix_file_id)
    write_new_file user_id name extension date size revision parent_dir_id file_id
        (dir_files_contained ++ delimiter ∷ file_id)
    pure file_id

  unfoldable pub get_file_info : Text → M FileInfo
  get_file_info file_id = do
    name ← get_file file_id suffix_name
    extension ← get_file file_id suffix_extension
    date_last_mod ← get_file file_id suffix_date_last_mod
    user_last_mod ← get_file file_id suffix_user_last_mod
    tags ← get_file file_id suffix_tags
    owner ← get_file file_id suffix_owner
    size ← get_file file_id suffix_size
    users_shared ← get_file file_id suffix_users_shared
    revision ← get_file file_id suffix_file_revision
    parent_directory ← get_file file_id suffix_parent_directory
    pure (record {
      name = name;
      extension = extension;
      date_last_mod = date_last_mod;
      user_last_mod = user_last_mod;
      tags = tags;
      owner = owner;
      size = size;
      users_shared = users_shared;
      revision = revision;
      parent_directory = parent_directory;
    })

  unfoldable pub delete_file : Text → M Unit
  delete_file file_id = do
    Db.clear_batch
    erase_file file_id suffix_name
    erase_file file_id suffix_extension
    erase_file file_id suffix_date_last_mod
    erase_file file_id suffix_user_last_mod
    erase_file file_id suffix_tags
    erase_file file_id suffix_owner
    erase_file file_id suffix_size
    erase_file file_id suffix_users_shared
    erase_file file_id suffix_file_revision
    erase_file file_id suffix_parent_directory
    erase_file file_id suffix_files_contained
    write_batch_or_error

  unfoldable pub modify_file_info : Text → Text → Text → Text → Text → Text → Text → Text → M Unit
  modify_file_info file_id name extension date tags users_shared user_id_modifier parent_dir = do
    Db.clear_batch
    put_file file_id suffix_name name
    put_file file_id suffix_extension extension
    put_file file_id suffix_date_last_mod date
    put_file file_id suffix_user_last_mod user_id_modifier
    put_file file_id suffix_tags tags
    put_file file_id suffix_users_shared users_shared
    put_file file_id suffix_parent_directory parent_dir
    write_batch_or_error

  unfoldable pub modify_file_revision : Text → Text → M Unit
  modify_file_revision file_id revision = do
    Db.clear_batch
    put_file file_id suffix_file_revision revision
    write_batch_or_error
