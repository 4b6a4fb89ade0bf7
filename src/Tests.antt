-- ===== src/Tests.antt =====
-- A small server in memory, and its runs: one user with a file in the root directory.
pub mod Runs
pub mod Values
pub mod Web
pub mod Nodes
use tp.Common.{
  ℕ, ◌≡◌, ◌≢◌, refl, Bool, true, false, Option, none, some, List, [], ◌∷◌, ◌++◌, ◌⊎◌, inl, inr,
  if◌then◌else◌, ◌<◌, arith,
}
use tp.Text.{Text, codes, text_eq}
use tp.Text.Decimal.{stoul, to_string, value}
use tp.Text.Split.{IsToken, split_string}
use tp.World.{
  Content, put_content, World, Outcome, done, failed, pure, fail_with, return_false, gets, ◌>>=◌,
}
use tp.Db
use tp.Db.Laws.{stored}
use tp.Db.Memory.{memory}
use tp.Data.Constants.{
  suffix_email, suffix_password, suffix_token, suffix_name, suffix_location, suffix_dir_root,
  suffix_shared_files, suffix_quota_used, suffix_files_deleted, suffix_extension,
  suffix_date_last_mod, suffix_user_last_mod, suffix_tags, suffix_owner, suffix_size,
  suffix_users_shared, suffix_file_revision, suffix_parent_directory, suffix_files_contained,
  suffix_directories_contained, suffix_file_id, label_no_parent_dir, status_user_forbidden,
  status_max_quota_exceeded,
}
use tp.Data.Keys.{
  generate_user_key, generate_dir_key, generate_file_key, generate_ticket_key, email_index_key,
}
use tp.Data.Access
use tp.Data.Access.Reading.{Reliable}
use tp.Data.Users
use tp.Data.Users.{UserInfo}
use tp.Data.Directories
use tp.Data.Directories.{DirInfo}
use tp.Data.Files
use tp.Data.Files.{FileInfo}
use tp.Data.Stored.{FileStored, DirStored, UserStored}
use tp.Dispatcher.Accounts

abbrev pub fill : List (Text × Text) → Content
fill [] = λ k. none
fill ((k, v) ∷ entries) = put_content k v (fill entries)

abbrev pub user_entries : List (Text × Text)
user_entries =
    (generate_user_key (codes "1") suffix_email, codes "ana@mail")
    ∷ (generate_user_key (codes "1") suffix_password, codes "secret")
    ∷ (generate_user_key (codes "1") suffix_token, codes "old")
    ∷ (generate_user_key (codes "1") suffix_name, codes "Ana;Paz")
    ∷ (generate_user_key (codes "1") suffix_location, codes "0;0")
    ∷ (generate_user_key (codes "1") suffix_dir_root, codes "1")
    ∷ (generate_user_key (codes "1") suffix_shared_files, [])
    ∷ (generate_user_key (codes "1") suffix_quota_used, codes "5")
    ∷ (generate_user_key (codes "1") suffix_files_deleted, [])
    ∷ (email_index_key (codes "ana@mail"), codes "1")
    ∷ []

abbrev pub tree_entries : List (Text × Text)
tree_entries =
    (generate_file_key (codes "1") suffix_name, codes "notes")
    ∷ (generate_file_key (codes "1") suffix_extension, codes "txt")
    ∷ (generate_file_key (codes "1") suffix_date_last_mod, codes "d1")
    ∷ (generate_file_key (codes "1") suffix_user_last_mod, codes "1")
    ∷ (generate_file_key (codes "1") suffix_tags, [])
    ∷ (generate_file_key (codes "1") suffix_owner, codes "1")
    ∷ (generate_file_key (codes "1") suffix_size, codes "5")
    ∷ (generate_file_key (codes "1") suffix_users_shared, [])
    ∷ (generate_file_key (codes "1") suffix_file_revision, codes "1")
    ∷ (generate_file_key (codes "1") suffix_parent_directory, codes "1")
    ∷ (generate_dir_key (codes "1") suffix_name, codes "root")
    ∷ (generate_dir_key (codes "1") suffix_date_last_mod, codes "d1")
    ∷ (generate_dir_key (codes "1") suffix_tags, [])
    ∷ (generate_dir_key (codes "1") suffix_owner, codes "1")
    ∷ (generate_dir_key (codes "1") suffix_parent_directory, label_no_parent_dir)
    ∷ (generate_dir_key (codes "1") suffix_files_contained, codes ";1")
    ∷ (generate_dir_key (codes "1") suffix_directories_contained, [])
    ∷ (generate_dir_key (codes "1") suffix_size, codes "5")
    ∷ (generate_ticket_key suffix_file_id, codes "2")
    ∷ []

-- Before any log in.
abbrev pub start : World
start = record {
  db = some (fill (user_entries ++ tree_entries));
  batch = [];
  status = 1;
  disk = λ name. none;
  max_user_quota = 20;
}

abbrev pub notes : FileInfo
notes = record {
  name = codes "notes";
  extension = codes "txt";
  date_last_mod = codes "d1";
  user_last_mod = codes "1";
  tags = [];
  owner = codes "1";
  size = codes "5";
  users_shared = [];
  revision = codes "1";
  parent_directory = codes "1";
}

abbrev pub root : DirInfo
root = record {
  name = codes "root";
  date_last_mod = codes "d1";
  tags = [];
  owner = codes "1";
  parent_directory = label_no_parent_dir;
  files_contained = codes ";1";
  directories_contained = [];
  size = codes "5";
}

abbrev pub ana : UserInfo
ana = record {
  email = codes "ana@mail";
  name = codes "Ana;Paz";
  location = codes "0;0";
  dir_root = codes "1";
  shared_files = [];
  user_quota_used = codes "5";
  files_deleted = [];
}

pub notes-FileStored : FileStored (stored start) (codes "1") notes
unfolding generate_user_key generate_dir_key generate_file_key generate_ticket_key email_index_key
    text_eq
notes-FileStored = record {
  name = refl;
  extension = refl;
  date_last_mod = refl;
  user_last_mod = refl;
  tags = refl;
  owner = refl;
  size = refl;
  users_shared = refl;
  revision = refl;
  parent_directory = refl;
}

pub root-DirStored : DirStored (stored start) (codes "1") root
unfolding generate_user_key generate_dir_key generate_file_key generate_ticket_key email_index_key
    text_eq
root-DirStored = record {
  name = refl;
  date_last_mod = refl;
  tags = refl;
  owner = refl;
  parent_directory = refl;
  files_contained = refl;
  directories_contained = refl;
  size = refl;
}

pub ana-UserStored : UserStored (stored start) (codes "1") ana
unfolding generate_user_key generate_dir_key generate_file_key generate_ticket_key email_index_key
    text_eq
ana-UserStored = record {
  email = refl;
  name = refl;
  location = refl;
  dir_root = refl;
  shared_files = refl;
  user_quota_used = refl;
  files_deleted = refl;
}

pub start-Reliable : Reliable start
unfolding Db.get
start-Reliable k = refl
