-- ===== src/Dispatcher/Records.antt =====
-- The structs of server/src/request_dispatcher.h, and the functions that fill them.
use tp.Common.{ℕ, ◌+◌, List, [], ◌∷◌, ◌++◌, length, ltb, if◌then◌else◌}
use tp.Text.{Text, text_eq, codes}
use tp.Text.Decimal.{stoul, to_string}
use tp.Text.KeyList.{tokens}
use tp.World.{Platform, M, pure, crash, undefined_behaviour, gets, of_conversion, collect, ◌>>=◌}
use tp.Data.Constants.{label_a, label_d, label_true, label_false, label_zero, label_no_parent_dir}
use tp.Data.Users
use tp.Data.Users.{UserInfo}
use tp.Data.Directories
use tp.Data.Directories.{DirInfo}
use tp.Data.Files.{FileInfo}

-- info_element_st
pub record InfoElement : Type 0 where
  pub id : ℕ
  pub name : Text
  pub size : ℕ
  pub kind : Text
  pub number_of_items : ℕ
  pub shared : Text
  pub last_mod_date : Text
  pub owner : Text

-- RequestDispatcher::user_info_st
pub record UserProfile : Type 0 where
  pub id : Text
  pub email : Text
  pub first_name : Text
  pub last_name : Text
  pub gps_lat : Text
  pub gps_lon : Text
  pub user_quota_used : Text
  pub user_quota_used_percentage : Text
  pub user_quota_total : Text

-- RequestDispatcher::dir_info_st
pub record DirectoryView : Type 0 where
  pub name : Text
  pub date_last_mod : Text
  pub tags : Text
  pub owner : Text
  pub parent_directory : Text
  pub size : Text
  pub directory_element_info : List InfoElement

-- RequestDispatcher::file_info_st
pub record FileView : Type 0 where
  pub owner : Text
  pub name : Text
  pub extension : Text
  pub date_last_mod : Text
  pub user_last_mod : Text
  pub tags : Text
  pub size : Text
  pub revision : Text
  pub parent_directory : Text
  pub shared_users : List UserProfile

-- The last of `x ∷ xs`.
abbrev last_of : Text → List Text → Text
last_of x [] = x
last_of x (y ∷ ys) = last_of y ys

module _ ⦃P : Platform⦄ where
  unfoldable pub stoul_decimal : Text → M ℕ
  stoul_decimal str = of_conversion (stoul str)

  -- `v.front()` and `v.back()`, which are undefined on an empty vector
  unfoldable pub front_back : List Text → M (Text × Text)
  front_back [] = crash undefined_behaviour
  front_back (x ∷ xs) = pure (x, last_of x xs)

  unfoldable pub fill_info_elem_to_dir_info : Text → DirInfo → M InfoElement
  fill_info_elem_to_dir_info dir_id dir_info = do
    id ← stoul_decimal dir_id
    size ← stoul_decimal dir_info.size
    pure (record {
      id = id;
      name = dir_info.name;
      size = size;
      kind = label_d;
      number_of_items =
          length (tokens dir_info.directories_contained) + length (tokens dir_info.files_contained);
      shared = label_false;
      last_mod_date = dir_info.date_last_mod;
      owner = dir_info.owner;
    })

  unfoldable pub fill_info_elem_to_file_info : Text → FileInfo → M InfoElement
  fill_info_elem_to_file_info file_id file_info = do
    id ← stoul_decimal file_id
    size ← stoul_decimal file_info.size
    pure (record {
      id = id;
      name = file_info.name;
      size = size;
      kind = label_a;
      number_of_items = 0;
      shared = (if ltb 0 (length (tokens file_info.users_shared)) then label_true else label_false);
      last_mod_date = file_info.date_last_mod;
      owner = file_info.owner;
    })

  unfoldable pub fill_user_info_st : Text → UserInfo → M UserProfile
  fill_user_info_st user_id info = do
    (first_name, last_name) ← front_back (tokens info.name)
    (gps_lat, gps_lon) ← front_back (tokens info.location)
    max_user_quota ← gets (λ w. w.max_user_quota)
    used ← stoul_decimal info.user_quota_used
    pure (record {
      id = user_id;
      email = info.email;
      first_name = first_name;
      last_name = last_name;
      gps_lat = gps_lat;
      gps_lon = gps_lon;
      user_quota_used = info.user_quota_used;
      user_quota_used_percentage = P.percentage used max_user_quota ++ codes "%";
      user_quota_total = to_string max_user_quota;
    })

  -- The id of the parent is filled in only where the parent is a root directory; otherwise the
  -- field keeps what the caller's struct holds, the empty text.
  unfoldable pub dh_file_info_to_rd_file_info : FileInfo → M FileView
  dh_file_info_to_rd_file_info info = do
    shared_users ← collect (tokens info.users_shared) (λ user_shared_id. do
      user_info ← Users.get_user_info user_shared_id
      fill_user_info_st user_shared_id user_info)
    parent ← Directories.get_directory_info info.parent_directory
    pure (record {
      owner = info.owner;
      name = info.name;
      extension = info.extension;
      date_last_mod = info.date_last_mod;
      user_last_mod = info.user_last_mod;
      tags = info.tags;
      size = info.size;
      revision = info.revision;
      parent_directory =
          (if text_eq parent.parent_directory label_no_parent_dir then label_zero else []);
      shared_users = shared_users;
    })
