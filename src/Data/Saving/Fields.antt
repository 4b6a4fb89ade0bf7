-- ===== src/Data/Saving/Fields.antt =====
-- The batches of the operations, as items of a file or a directory with their values.
use tp.Common.{not, some, none, List, [], ◌∷◌, ◌++◌, if◌then◌else◌}
use tp.Text.{Text, text_eq}
use tp.World.{Update, put_update}
use tp.Db.Laws.{Field, entries}
use tp.Data.Constants.{
  suffix_name, suffix_extension, suffix_date_last_mod, suffix_user_last_mod, suffix_tags,
  suffix_owner, suffix_size, suffix_users_shared, suffix_file_revision, suffix_parent_directory,
  suffix_files_contained, suffix_directories_contained, label_empty_string, label_zero,
  label_no_parent_dir,
}
use tp.Data.Keys.{generate_dir_key, generate_file_key}

abbrev pub info_fields : Text → Text → Text → Text → Text → Text → Text → List Field
info_fields name extension date modifier tags users_shared parent =
    (suffix_name, some name)
    ∷ (suffix_extension, some extension)
    ∷ (suffix_date_last_mod, some date)
    ∷ (suffix_user_last_mod, some modifier)
    ∷ (suffix_tags, some tags)
    ∷ (suffix_users_shared, some users_shared)
    ∷ (suffix_parent_directory, some parent)
    ∷ []

abbrev pub new_file_fields : Text → Text → Text → Text → Text → Text → Text → List Field
new_file_fields user_id name extension date size revision parent =
    (suffix_name, some name)
    ∷ (suffix_extension, some extension)
    ∷ (suffix_date_last_mod, some date)
    ∷ (suffix_user_last_mod, some user_id)
    ∷ (suffix_tags, some label_empty_string)
    ∷ (suffix_owner, some user_id)
    ∷ (suffix_size, some size)
    ∷ (suffix_users_shared, some label_empty_string)
    ∷ (suffix_file_revision, some revision)
    ∷ (suffix_parent_directory, some parent)
    ∷ []

abbrev pub new_file_batch :
    Text → Text → Text → Text → Text → Text → Text → Text → Text → List Update
new_file_batch user_id name extension date size revision parent id files_contained =
    entries (generate_file_key id)
      (new_file_fields user_id name extension date size revision parent)
    ++ put_update (generate_dir_key parent suffix_files_contained) files_contained ∷ []

abbrev pub deleted_file_fields : List Field
deleted_file_fields =
    (suffix_name, none)
    ∷ (suffix_extension, none)
    ∷ (suffix_date_last_mod, none)
    ∷ (suffix_user_last_mod, none)
    ∷ (suffix_tags, none)
    ∷ (suffix_owner, none)
    ∷ (suffix_size, none)
    ∷ (suffix_users_shared, none)
    ∷ (suffix_file_revision, none)
    ∷ (suffix_parent_directory, none)
    ∷ (suffix_files_contained, none)
    ∷ []

abbrev pub dir_fields : Text → Text → Text → Text → List Field
dir_fields name date tags size =
    (suffix_name, some name)
    ∷ (suffix_date_last_mod, some date)
    ∷ (suffix_tags, some tags)
    ∷ (suffix_size, some size)
    ∷ []

abbrev pub new_dir_fields : Text → Text → Text → Text → List Field
new_dir_fields user_id name date parent =
    (suffix_name, some name)
    ∷ (suffix_date_last_mod, some date)
    ∷ (suffix_tags, some label_empty_string)
    ∷ (suffix_owner, some user_id)
    ∷ (suffix_parent_directory, some parent)
    ∷ (suffix_files_contained, some label_empty_string)
    ∷ (suffix_directories_contained, some label_empty_string)
    ∷ (suffix_size, some label_zero)
    ∷ []

abbrev pub new_dir_batch : Text → Text → Text → Text → Text → Text → List Update
new_dir_batch user_id name date parent id directories_contained =
    entries (generate_dir_key id) (new_dir_fields user_id name date parent)
    ++ (if not (text_eq parent label_no_parent_dir)
        then put_update (generate_dir_key parent suffix_directories_contained) directories_contained
          ∷ []
        else [])

abbrev pub deleted_dir_fields : List Field
deleted_dir_fields =
    (suffix_name, none)
    ∷ (suffix_date_last_mod, none)
    ∷ (suffix_tags, none)
    ∷ (suffix_owner, none)
    ∷ (suffix_parent_directory, none)
    ∷ (suffix_files_contained, none)
    ∷ (suffix_directories_contained, none)
    ∷ (suffix_size, none)
    ∷ []
