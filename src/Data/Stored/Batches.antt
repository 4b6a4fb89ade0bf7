-- ===== src/Data/Stored/Batches.antt =====
-- What a batch of items makes of what is stored.
use tp.Common.{◌≡◌, ◌∙◌, some, List}
use tp.Text.{Text}
use tp.World.{Content, apply_batch}
use tp.Db.Laws.{Field, entries, value_after, apply_batch-entries}
use tp.Data.Constants.{
  suffix_name, suffix_extension, suffix_date_last_mod, suffix_user_last_mod, suffix_tags,
  suffix_owner, suffix_size, suffix_users_shared, suffix_file_revision, suffix_parent_directory,
  suffix_files_contained, suffix_directories_contained, suffix_email, suffix_location,
  suffix_dir_root, suffix_shared_files, suffix_quota_used, suffix_files_deleted,
}
use tp.Data.Keys.{generate_user_key, generate_dir_key, generate_file_key}
use tp.Data.Keys.Laws.{user_key_eq, dir_key_eq, file_key_eq}
use tp.Data.Users.{UserInfo}
use tp.Data.Directories.{DirInfo}
use tp.Data.Files.{FileInfo}
use tp.Data.Stored.{FileStored, DirStored, UserStored}

-- The items that a batch gives a file, whatever was stored of it before.
pub record FileInfoAfter (c : Content) (id : Text) (fields : List Field) (j : FileInfo)
    : Type 0 where
  pub name : value_after fields suffix_name (c (generate_file_key id suffix_name)) ≡ some j.name
  pub extension :
      value_after fields suffix_extension (c (generate_file_key id suffix_extension))
      ≡ some j.extension
  pub date_last_mod :
      value_after fields suffix_date_last_mod (c (generate_file_key id suffix_date_last_mod))
      ≡ some j.date_last_mod
  pub user_last_mod :
      value_after fields suffix_user_last_mod (c (generate_file_key id suffix_user_last_mod))
      ≡ some j.user_last_mod
  pub tags : value_after fields suffix_tags (c (generate_file_key id suffix_tags)) ≡ some j.tags
  pub owner : value_after fields suffix_owner (c (generate_file_key id suffix_owner)) ≡ some j.owner
  pub size : value_after fields suffix_size (c (generate_file_key id suffix_size)) ≡ some j.size
  pub users_shared :
      value_after fields suffix_users_shared (c (generate_file_key id suffix_users_shared))
      ≡ some j.users_shared
  pub revision :
      value_after fields suffix_file_revision (c (generate_file_key id suffix_file_revision))
      ≡ some j.revision
  pub parent_directory :
      value_after fields suffix_parent_directory (c (generate_file_key id suffix_parent_directory))
      ≡ some j.parent_directory

pub FileStored-FileInfoAfter :
    (c : Content) (id : Text) (fields : List Field) (j : FileInfo)
    → FileInfoAfter c id fields j
    → FileStored (apply_batch (entries (generate_file_key id) fields) c) id j
FileStored-FileInfoAfter c id fields j a = record {
  name = apply_batch-entries (generate_file_key id) (file_key_eq id) fields suffix_name c ∙ a.name;
  extension =
      apply_batch-entries (generate_file_key id) (file_key_eq id) fields suffix_extension c
      ∙ a.extension;
  date_last_mod =
      apply_batch-entries (generate_file_key id) (file_key_eq id) fields suffix_date_last_mod c
      ∙ a.date_last_mod;
  user_last_mod =
      apply_batch-entries (generate_file_key id) (file_key_eq id) fields suffix_user_last_mod c
      ∙ a.user_last_mod;
  tags = apply_batch-entries (generate_file_key id) (file_key_eq id) fields suffix_tags c ∙ a.tags;
  owner =
      apply_batch-entries (generate_file_key id) (file_key_eq id) fields suffix_owner c ∙ a.owner;
  size = apply_batch-entries (generate_file_key id) (file_key_eq id) fields suffix_size c ∙ a.size;
  users_shared =
      apply_batch-entries (generate_file_key id) (file_key_eq id) fields suffix_users_shared c
      ∙ a.users_shared;
  revision =
      apply_batch-entries (generate_file_key id) (file_key_eq id) fields suffix_file_revision c
      ∙ a.revision;
  parent_directory =
      apply_batch-entries (generate_file_key id) (file_key_eq id) fields suffix_parent_directory c
      ∙ a.parent_directory;
}

-- The items that a batch gives a dir, whatever was stored of it before.
pub record DirInfoAfter (c : Content) (id : Text) (fields : List Field) (j : DirInfo) : Type 0 where
  pub name : value_after fields suffix_name (c (generate_dir_key id suffix_name)) ≡ some j.name
  pub date_last_mod :
      value_after fields suffix_date_last_mod (c (generate_dir_key id suffix_date_last_mod))
      ≡ some j.date_last_mod
  pub tags : value_after fields suffix_tags (c (generate_dir_key id suffix_tags)) ≡ some j.tags
  pub owner : value_after fields suffix_owner (c (generate_dir_key id suffix_owner)) ≡ some j.owner
  pub parent_directory :
      value_after fields suffix_parent_directory (c (generate_dir_key id suffix_parent_directory))
      ≡ some j.parent_directory
  pub files_contained :
      value_after fields suffix_files_contained (c (generate_dir_key id suffix_files_contained))
      ≡ some j.files_contained
  pub directories_contained :
      value_after fields suffix_directories_contained
        (c (generate_dir_key id suffix_directories_contained))
      ≡ some j.directories_contained
  pub size : value_after fields suffix_size (c (generate_dir_key id suffix_size)) ≡ some j.size

pub DirStored-DirInfoAfter :
    (c : Content) (id : Text) (fields : List Field) (j : DirInfo)
    → DirInfoAfter c id fields j
    → DirStored (apply_batch (entries (generate_dir_key id) fields) c) id j
DirStored-DirInfoAfter c id fields j a = record {
  name = apply_batch-entries (generate_dir_key id) (dir_key_eq id) fields suffix_name c ∙ a.name;
  date_last_mod =
      apply_batch-entries (generate_dir_key id) (dir_key_eq id) fields suffix_date_last_mod c
      ∙ a.date_last_mod;
  tags = apply_batch-entries (generate_dir_key id) (dir_key_eq id) fields suffix_tags c ∙ a.tags;
  owner = apply_batch-entries (generate_dir_key id) (dir_key_eq id) fields suffix_owner c ∙ a.owner;
  parent_directory =
      apply_batch-entries (generate_dir_key id) (dir_key_eq id) fields suffix_parent_directory c
      ∙ a.parent_directory;
  files_contained =
      apply_batch-entries (generate_dir_key id) (dir_key_eq id) fields suffix_files_contained c
      ∙ a.files_contained;
  directories_contained =
      apply_batch-entries (generate_dir_key id) (dir_key_eq id) fields suffix_directories_contained
        c
      ∙ a.directories_contained;
  size = apply_batch-entries (generate_dir_key id) (dir_key_eq id) fields suffix_size c ∙ a.size;
}

-- The items that a batch gives a user, whatever was stored of it before.
pub record UserInfoAfter (c : Content) (id : Text) (fields : List Field) (j : UserInfo)
    : Type 0 where
  pub email : value_after fields suffix_email (c (generate_user_key id suffix_email)) ≡ some j.email
  pub name : value_after fields suffix_name (c (generate_user_key id suffix_name)) ≡ some j.name
  pub location :
      value_after fields suffix_location (c (generate_user_key id suffix_location))
      ≡ some j.location
  pub dir_root :
      value_after fields suffix_dir_root (c (generate_user_key id suffix_dir_root))
      ≡ some j.dir_root
  pub shared_files :
      value_after fields suffix_shared_files (c (generate_user_key id suffix_shared_files))
      ≡ some j.shared_files
  pub user_quota_used :
      value_after fields suffix_quota_used (c (generate_user_key id suffix_quota_used))
      ≡ some j.user_quota_used
  pub files_deleted :
      value_after fields suffix_files_deleted (c (generate_user_key id suffix_files_deleted))
      ≡ some j.files_deleted

pub UserStored-UserInfoAfter :
    (c : Content) (id : Text) (fields : List Field) (j : UserInfo)
    → UserInfoAfter c id fields j
    → UserStored (apply_batch (entries (generate_user_key id) fields) c) id j
UserStored-UserInfoAfter c id fields j a = record {
  email =
      apply_batch-entries (generate_user_key id) (user_key_eq id) fields suffix_email c ∙ a.email;
  name = apply_batch-entries (generate_user_key id) (user_key_eq id) fields suffix_name c ∙ a.name;
  location =
      apply_batch-entries (generate_user_key id) (user_key_eq id) fields suffix_location c
      ∙ a.location;
  dir_root =
      apply_batch-entries (generate_user_key id) (user_key_eq id) fields suffix_dir_root c
      ∙ a.dir_root;
  shared_files =
      apply_batch-entries (generate_user_key id) (user_key_eq id) fields suffix_shared_files c
      ∙ a.shared_files;
  user_quota_used =
      apply_batch-entries (generate_user_key id) (user_key_eq id) fields suffix_quota_used c
      ∙ a.user_quota_used;
  files_deleted =
      apply_batch-entries (generate_user_key id) (user_key_eq id) fields suffix_files_deleted c
      ∙ a.files_deleted;
}
