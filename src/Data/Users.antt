-- ===== src/Data/Users.antt =====
-- The operations on users: their items, the index from emails to ids, and the list of emails.
use tp.Common.{none, some, not, ◌==◌, if◌then◌else◌}
use tp.Text.{Text, text_eq}
use tp.World.{
  Platform, M, pure, return_false, fail_with, gets, attempt, or_status, by_value, require, ◌>>=◌,
  ◌>>◌,
}
use tp.Db
use tp.Data.Constants.{
  status_user_already_exists, status_database_error, label_empty_string, label_zero, label_root,
  label_no_parent_dir, label_shared_files, suffix_user_id, suffix_email, suffix_password,
  suffix_token, suffix_name, suffix_location, suffix_dir_root, suffix_shared_files,
  suffix_quota_used, suffix_files_deleted,
}
use tp.Data.Keys.{generate_user_key, email_index_key}
use tp.Data.Access.{
  dbh_get, dbh_put, create_id, write_batch_or_error, get_email_user_id_index,
  add_email_user_id_index,
}
use tp.Data.Emails.{add_email_to_list, remove_email_from_list}
use tp.Data.Directories.{add_directory, delete_directory}

-- user_info_st
pub record UserInfo : Type 0 where
  pub email : Text
  pub name : Text
  pub location : Text
  pub dir_root : Text
  pub shared_files : Text
  pub user_quota_used : Text
  pub files_deleted : Text

module _ ⦃P : Platform⦄ where
  unfoldable pub put_user : Text → Text → Text → M Unit
  put_user user_id suffix value = Db.put_batch (generate_user_key user_id suffix) value

  unfoldable pub get_user : Text → Text → M Text
  get_user user_id suffix = dbh_get (generate_user_key user_id suffix)

  unfoldable pub erase_user : Text → Text → M Unit
  erase_user user_id suffix = Db.erase_batch (generate_user_key user_id suffix)

  -- The test of `add_user`; an email that is not found leaves that in the status.
  unfoldable pub require_new_email : Text → M Unit
  require_new_email email = do
    existing ← attempt (get_email_user_id_index email)
    status ← gets (λ w. w.status)
    elim existing [
      | some _ ↦ fail_with status_user_already_exists
      | none ↦ if status == status_database_error then return_false else pure tt
    ]

  unfoldable pub put_new_user : Text → Text → Text → Text → Text → Text → Text → M Unit
  put_new_user user_id email password token name location id_dir_root = do
    Db.clear_batch
    put_user user_id suffix_email email
    put_user user_id suffix_password password
    put_user user_id suffix_token token
    put_user user_id suffix_name name
    put_user user_id suffix_location location
    put_user user_id suffix_dir_root id_dir_root
    put_user user_id suffix_shared_files label_empty_string
    put_user user_id suffix_quota_used label_zero
    put_user user_id suffix_files_deleted label_empty_string

  unfoldable pub add_user : Text → Text → Text → Text → Text → Text → M Text
  add_user email password name location token date = do
    require_new_email email
    user_id ← or_status status_database_error (create_id suffix_user_id)
    id_dir_root ← add_directory user_id label_root date label_no_parent_dir
    put_new_user user_id email password token name location id_dir_root
    written ← Db.write_batch
    (if written
        then (do
          or_status status_database_error (add_email_user_id_index email user_id)
          by_value (add_email_to_list email))
        else (do _ ← attempt (delete_directory id_dir_root); fail_with status_database_error))
    _ ← add_directory user_id label_shared_files date id_dir_root
    pure user_id

  unfoldable pub add_user_token : Text → Text → M Text
  add_user_token email token = do
    user_id ← get_email_user_id_index email
    dbh_put (generate_user_key user_id suffix_token) token
    pure user_id

  unfoldable pub get_user_password : Text → M Text
  get_user_password email = do
    user_id ← get_email_user_id_index email
    get_user user_id suffix_password

  unfoldable pub get_user_token : Text → M Text
  get_user_token user_id = get_user user_id suffix_token

  unfoldable pub get_user_info : Text → M UserInfo
  get_user_info user_id = do
    email ← get_user user_id suffix_email
    name ← get_user user_id suffix_name
    location ← get_user user_id suffix_location
    dir_root ← get_user user_id suffix_dir_root
    shared_files ← get_user user_id suffix_shared_files
    user_quota_used ← get_user user_id suffix_quota_used
    files_deleted ← get_user user_id suffix_files_deleted
    pure (record {
      email = email;
      name = name;
      location = location;
      dir_root = dir_root;
      shared_files = shared_files;
      user_quota_used = user_quota_used;
      files_deleted = files_deleted;
    })

  unfoldable pub delete_user : Text → M Unit
  delete_user user_id = do
    email ← get_user user_id suffix_email
    Db.clear_batch
    erase_user user_id suffix_email
    erase_user user_id suffix_password
    erase_user user_id suffix_token
    erase_user user_id suffix_name
    erase_user user_id suffix_location
    erase_user user_id suffix_dir_root
    erase_user user_id suffix_shared_files
    erase_user user_id suffix_quota_used
    Db.erase_batch (email_index_key email)
    write_batch_or_error
    by_value (remove_email_from_list email)

  unfoldable pub modify_user_password : Text → Text → M Unit
  modify_user_password user_id password =
      require (Db.put (generate_user_key user_id suffix_password) password)

  -- The part of `modify_user_info` for a new email.
  unfoldable pub change_email : Text → Text → Text → M Unit
  change_email user_id old_email email = do
    Db.erase_batch (email_index_key old_email)
    Db.put_batch (email_index_key email) user_id
    or_status status_database_error (by_value (remove_email_from_list old_email))
    or_status status_database_error (by_value (add_email_to_list email))

  unfoldable pub modify_user_info : Text → Text → Text → Text → Text → Text → Text → M Unit
  modify_user_info user_id email name location files_shared quota files_deleted = do
    old_email ← get_user user_id suffix_email
    Db.clear_batch
    put_user user_id suffix_email email
    put_user user_id suffix_name name
    put_user user_id suffix_location location
    put_user user_id suffix_shared_files files_shared
    put_user user_id suffix_quota_used quota
    put_user user_id suffix_files_deleted files_deleted
    (if not (text_eq email old_email) then change_email user_id old_email email else pure tt)
    write_batch_or_error
