-- ===== src/Data/Stored.antt =====
-- What the database holds of a file, a directory or a user: a value for each item.
pub mod Readers
pub mod Batches
pub mod Writers
pub mod Creation
pub mod Total
pub mod Apart
use tp.Common.{◌≡◌, some, List, [], ◌∷◌}
use tp.Text.{Text}
use tp.World.{Content}
use tp.Data.Constants.{
  suffix_name, suffix_extension, suffix_date_last_mod, suffix_user_last_mod, suffix_tags,
  suffix_owner, suffix_size, suffix_users_shared, suffix_file_revision, suffix_parent_directory,
  suffix_files_contained, suffix_directories_contained, suffix_email, suffix_location,
  suffix_dir_root, suffix_shared_files, suffix_quota_used, suffix_files_deleted,
}
use tp.Data.Keys.{generate_user_key, generate_dir_key, generate_file_key}
use tp.Data.Users.{UserInfo}
use tp.Data.Directories.{DirInfo}
use tp.Data.Files.{FileInfo}

-- The items of a file, and of a directory.
abbrev pub file_items : List Text
file_items =
    suffix_name ∷ suffix_extension ∷ suffix_date_last_mod ∷ suffix_user_last_mod ∷ suffix_tags
    ∷ suffix_owner ∷ suffix_size ∷ suffix_users_shared ∷ suffix_file_revision
    ∷ suffix_parent_directory ∷ []

abbrev pub dir_items : List Text
dir_items =
    suffix_name ∷ suffix_date_last_mod ∷ suffix_tags ∷ suffix_owner ∷ suffix_parent_directory
    ∷ suffix_files_contained ∷ suffix_directories_contained ∷ suffix_size ∷ []

pub record FileStored (c : Content) (id : Text) (i : FileInfo) : Type 0 where
  pub name : c (generate_file_key id suffix_name) ≡ some i.name
  pub extension : c (generate_file_key id suffix_extension) ≡ some i.extension
  pub date_last_mod : c (generate_file_key id suffix_date_last_mod) ≡ some i.date_last_mod
  pub user_last_mod : c (generate_file_key id suffix_user_last_mod) ≡ some i.user_last_mod
  pub tags : c (generate_file_key id suffix_tags) ≡ some i.tags
  pub owner : c (generate_file_key id suffix_owner) ≡ some i.owner
  pub size : c (generate_file_key id suffix_size) ≡ some i.size
  pub users_shared : c (generate_file_key id suffix_users_shared) ≡ some i.users_shared
  pub revision : c (generate_file_key id suffix_file_revision) ≡ some i.revision
  pub parent_directory : c (generate_file_key id suffix_parent_directory) ≡ some i.parent_directory

pub record DirStored (c : Content) (id : Text) (i : DirInfo) : Type 0 where
  pub name : c (generate_dir_key id suffix_name) ≡ some i.name
  pub date_last_mod : c (generate_dir_key id suffix_date_last_mod) ≡ some i.date_last_mod
  pub tags : c (generate_dir_key id suffix_tags) ≡ some i.tags
  pub owner : c (generate_dir_key id suffix_owner) ≡ some i.owner
  pub parent_directory : c (generate_dir_key id suffix_parent_directory) ≡ some i.parent_directory
  pub files_contained : c (generate_dir_key id suffix_files_contained) ≡ some i.files_contained
  pub directories_contained :
      c (generate_dir_key id suffix_directories_contained) ≡ some i.directories_contained
  pub size : c (generate_dir_key id suffix_size) ≡ some i.size

pub record UserStored (c : Content) (id : Text) (i : UserInfo) : Type 0 where
  pub email : c (generate_user_key id suffix_email) ≡ some i.email
  pub name : c (generate_user_key id suffix_name) ≡ some i.name
  pub location : c (generate_user_key id suffix_location) ≡ some i.location
  pub dir_root : c (generate_user_key id suffix_dir_root) ≡ some i.dir_root
  pub shared_files : c (generate_user_key id suffix_shared_files) ≡ some i.shared_files
  pub user_quota_used : c (generate_user_key id suffix_quota_used) ≡ some i.user_quota_used
  pub files_deleted : c (generate_user_key id suffix_files_deleted) ≡ some i.files_deleted
