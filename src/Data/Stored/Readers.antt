-- ===== src/Data/Stored/Readers.antt =====
-- `get_file_info`, `get_directory_info` and `get_user_info` against what is stored.
use tp.Common.{◌≡◌}
use tp.Text.{Text}
use tp.World.{Platform, World, done, ◌>>=◌}
use tp.Db.Laws.{stored}
use tp.Data.Access.Reading.{Reliable, reading, returning, dbh_get-stored}
use tp.Data.Users
use tp.Data.Users.{UserInfo}
use tp.Data.Directories
use tp.Data.Directories.{DirInfo}
use tp.Data.Files
use tp.Data.Files.{FileInfo}
use tp.Data.Stored.{FileStored, DirStored, UserStored}

module _ ⦃P : Platform⦄ where
  -- What the information of a user is read as is what is stored, and reading changes nothing.
  pub get_user_info-UserStored :
      (id : Text) (i : UserInfo) (w : World) {w' : World}
      → Users.get_user_info id w ≡ (done i, w')
      → (w' ≡ w) × UserStored (stored w) id i
  unfolding Users.get_user_info Users.get_user
  get_user_info-UserStored id i w h0 = reading _ _ w h0 λ v0 e0 h1. reading _ _ w h1 λ v1 e1 h2.
      reading _ _ w h2 λ v2 e2 h3. reading _ _ w h3 λ v3 e3 h4. reading _ _ w h4 λ v4 e4 h5.
        reading _ _ w h5 λ v5 e5 h6. reading _ _ w h6 λ v6 e6 h7.
          returning (UserStored (stored w) id) _ w h7 (record {
            email = e0;
            name = e1;
            location = e2;
            dir_root = e3;
            shared_files = e4;
            user_quota_used = e5;
            files_deleted = e6;
          })

  -- In a state whose reads succeed, a user that is stored is read as such.
  pub UserStored-get_user_info :
      (id : Text) (i : UserInfo) (w : World)
      → Reliable w
      → UserStored (stored w) id i
      → Users.get_user_info id w ≡ (done i, w)
  unfolding Users.get_user_info Users.get_user ◌>>=◌
  UserStored-get_user_info id i w r s = rw (
    dbh_get-stored _ _ w r s.email,
    dbh_get-stored _ _ w r s.name,
    dbh_get-stored _ _ w r s.location,
    dbh_get-stored _ _ w r s.dir_root,
    dbh_get-stored _ _ w r s.shared_files,
    dbh_get-stored _ _ w r s.user_quota_used,
    dbh_get-stored _ _ w r s.files_deleted,
  )

  -- What the information of a directory is read as is what is stored, and reading changes nothing.
  pub get_directory_info-DirStored :
      (id : Text) (i : DirInfo) (w : World) {w' : World}
      → Directories.get_directory_info id w ≡ (done i, w')
      → (w' ≡ w) × DirStored (stored w) id i
  unfolding Directories.get_directory_info Directories.get_dir
  get_directory_info-DirStored id i w h0 = reading _ _ w h0 λ v0 e0 h1. reading _ _ w h1 λ v1 e1 h2.
      reading _ _ w h2 λ v2 e2 h3. reading _ _ w h3 λ v3 e3 h4. reading _ _ w h4 λ v4 e4 h5.
        reading _ _ w h5 λ v5 e5 h6. reading _ _ w h6 λ v6 e6 h7. reading _ _ w h7 λ v7 e7 h8.
          returning (DirStored (stored w) id) _ w h8 (record {
            name = e0;
            date_last_mod = e1;
            tags = e2;
            owner = e3;
            parent_directory = e4;
            files_contained = e5;
            directories_contained = e6;
            size = e7;
          })

  -- In a state whose reads succeed, a directory that is stored is read as such.
  pub DirStored-get_directory_info :
      (id : Text) (i : DirInfo) (w : World)
      → Reliable w
      → DirStored (stored w) id i
      → Directories.get_directory_info id w ≡ (done i, w)
  unfolding Directories.get_directory_info Directories.get_dir ◌>>=◌
  DirStored-get_directory_info id i w r s = rw (
    dbh_get-stored _ _ w r s.name,
    dbh_get-stored _ _ w r s.date_last_mod,
    dbh_get-stored _ _ w r s.tags,
    dbh_get-stored _ _ w r s.owner,
    dbh_get-stored _ _ w r s.parent_directory,
    dbh_get-stored _ _ w r s.files_contained,
    dbh_get-stored _ _ w r s.directories_contained,
    dbh_get-stored _ _ w r s.size,
  )

  -- What the information of a file is read as is what is stored, and reading changes nothing.
  pub get_file_info-FileStored :
      (id : Text) (i : FileInfo) (w : World) {w' : World}
      → Files.get_file_info id w ≡ (done i, w')
      → (w' ≡ w) × FileStored (stored w) id i
  unfolding Files.get_file_info Files.get_file
  get_file_info-FileStored id i w h0 = reading _ _ w h0 λ v0 e0 h1. reading _ _ w h1 λ v1 e1 h2.
      reading _ _ w h2 λ v2 e2 h3. reading _ _ w h3 λ v3 e3 h4. reading _ _ w h4 λ v4 e4 h5.
        reading _ _ w h5 λ v5 e5 h6. reading _ _ w h6 λ v6 e6 h7. reading _ _ w h7 λ v7 e7 h8.
          reading _ _ w h8 λ v8 e8 h9. reading _ _ w h9 λ v9 e9 h10.
            returning (FileStored (stored w) id) _ w h10 (record {
              name = e0;
              extension = e1;
              date_last_mod = e2;
              user_last_mod = e3;
              tags = e4;
              owner = e5;
              size = e6;
              users_shared = e7;
              revision = e8;
              parent_directory = e9;
            })

  -- In a state whose reads succeed, a file that is stored is read as such.
  pub FileStored-get_file_info :
      (id : Text) (i : FileInfo) (w : World)
      → Reliable w
      → FileStored (stored w) id i
      → Files.get_file_info id w ≡ (done i, w)
  unfolding Files.get_file_info Files.get_file ◌>>=◌
  FileStored-get_file_info id i w r s = rw (
    dbh_get-stored _ _ w r s.name,
    dbh_get-stored _ _ w r s.extension,
    dbh_get-stored _ _ w r s.date_last_mod,
    dbh_get-stored _ _ w r s.user_last_mod,
    dbh_get-stored _ _ w r s.tags,
    dbh_get-stored _ _ w r s.owner,
    dbh_get-stored _ _ w r s.size,
    dbh_get-stored _ _ w r s.users_shared,
    dbh_get-stored _ _ w r s.revision,
    dbh_get-stored _ _ w r s.parent_directory,
  )
