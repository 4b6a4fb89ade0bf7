-- ===== src/Dispatcher/Listing.antt =====
-- What a user sees of a directory or a file, and of the lists of ids: the elements, their tags.
use tp.Common.{
  ℕ, Bool, true, false, not, ◌&&◌, ◌||◌, ◌+◌, leb, List, [], ◌∷◌, ◌++◌, map, if◌then◌else◌,
}
use tp.Text.{Text, text_eq}
use tp.Text.KeyList.{tokens, contains}
use tp.World.{Platform, M, pure, fail_if, collect, ◌>>=◌, ◌>>◌}
use tp.Data.Constants.{
  SearchMode, off, by_name, by_extension, by_tag, by_user, label_zero, label_no_parent_dir,
  label_shared_files, label_empty_string, status_user_forbidden, status_delete_root_dir_forbidden,
}
use tp.Data.Users
use tp.Data.Directories
use tp.Data.Directories.{DirInfo}
use tp.Data.Files
use tp.Data.Files.{FileInfo}
use tp.Dispatcher.Records.{
  InfoElement, DirectoryView, FileView, fill_info_elem_to_dir_info, fill_info_elem_to_file_info,
  dh_file_info_to_rd_file_info,
}
use tp.Dispatcher.Sizes.{resolve_dir}

-- `::tolower` on a byte, in the C locale
abbrev pub to_lower : ℕ → ℕ
to_lower c = if leb b'A' c && leb c b'Z' then c + 32 else c

-- Whether a text begins with another.
unfoldable pub starts_with : Text → Text → Bool
starts_with [] s = true
starts_with (c ∷ p) [] = false
starts_with (c ∷ p) (d ∷ s) = text_eq (c ∷ []) (d ∷ []) && starts_with p s

-- `source.find(search)!=string::npos`
unfoldable pub is_included : Text → Text → Bool
is_included [] search = starts_with search []
is_included (c ∷ source) search = starts_with search (c ∷ source) || is_included source search

unfoldable pub is_str_included_to_lower : Text → Text → Bool
is_str_included_to_lower str_source str_to_search =
    is_included (map to_lower str_source) (map to_lower str_to_search)

-- The test of `add_info_files_from_id_list` in each mode.
unfoldable pub file_matches : SearchMode → Text → FileInfo → Bool
file_matches off text info = true
file_matches by_name text info = is_str_included_to_lower info.name text
file_matches by_extension text info = is_str_included_to_lower info.extension text
file_matches by_tag text info = is_str_included_to_lower info.tags text
file_matches by_user text info = text_eq info.owner text

-- Who may read a file and change its information: the owner, and those it is shared with.
unfoldable pub is_authorized : Text → FileInfo → Bool
is_authorized user_id info =
    text_eq info.owner user_id || contains user_id (tokens info.users_shared)

module _ ⦃P : Platform⦄ where
  -- The elements that the loop pushes, in order.
  unfoldable pub add_info_files : List Text → SearchMode → Text → M (List InfoElement)
  add_info_files [] mode text = pure []
  add_info_files (file_id ∷ file_ids) mode text = do
    file_info ← Files.get_file_info file_id
    pushed ←
        (if file_matches mode text file_info
          then (do element ← fill_info_elem_to_file_info file_id file_info; pure (element ∷ []))
          else pure [])
    rest ← add_info_files file_ids mode text
    pure (pushed ++ rest)

  unfoldable pub add_info_files_from_id_list : Text → SearchMode → Text → M (List InfoElement)
  add_info_files_from_id_list file_id_list mode text =
      add_info_files (tokens file_id_list) mode text

  unfoldable pub add_info_dirs_from_id_list : Text → M (List InfoElement)
  add_info_dirs_from_id_list dir_id_list = collect (tokens dir_id_list) (λ dir_id. do
    dir_info ← Directories.get_directory_info dir_id
    fill_info_elem_to_dir_info dir_id dir_info)

  unfoldable pub get_directory_element_info_from_dir_info : DirInfo → M (List InfoElement)
  get_directory_element_info_from_dir_info dir_info = do
    dirs ← add_info_dirs_from_id_list dir_info.directories_contained
    files ← add_info_files_from_id_list dir_info.files_contained off label_empty_string
    pure (dirs ++ files)

  unfoldable pub get_shared_files : Text → M (List InfoElement)
  get_shared_files user_id = do
    user_info ← Users.get_user_info user_id
    add_info_files_from_id_list user_info.shared_files off label_empty_string

  unfoldable pub get_deleted_files : Text → M (List InfoElement)
  get_deleted_files user_id = do
    user_info ← Users.get_user_info user_id
    add_info_files_from_id_list user_info.files_deleted off label_empty_string

  -- The id of the parent as the client writes it: 0 for the root directory.
  unfoldable pub client_parent : Text → Text → M Text
  client_parent dir_id parent_directory =
      if text_eq dir_id label_zero then pure parent_directory else (do
        parent ← Directories.get_directory_info parent_directory
        pure (
            if text_eq parent.parent_directory label_no_parent_dir
            then label_zero
            else parent_directory))

  -- `get_directory_info` up to where it changes the parent directory that it has filled in.
  unfoldable pub fill_directory_info : Text → Text → M DirectoryView
  fill_directory_info user_id dir_id = do
    real_id ← resolve_dir user_id dir_id
    info ← Directories.get_directory_info real_id
    fail_if (not (text_eq user_id info.owner)) status_user_forbidden
    elements ← get_directory_element_info_from_dir_info info
    shared ← (if text_eq info.name label_shared_files then get_shared_files user_id else pure [])
    pure (record {
      name = info.name;
      date_last_mod = info.date_last_mod;
      tags = info.tags;
      owner = info.owner;
      parent_directory = info.parent_directory;
      size = info.size;
      directory_element_info = elements ++ shared;
    })

  unfoldable pub get_directory_info : Text → Text → M DirectoryView
  get_directory_info user_id dir_id = do
    dir_info ← fill_directory_info user_id dir_id
    parent_directory ← client_parent dir_id dir_info.parent_directory
    pure (record dir_info { parent_directory = parent_directory })

  unfoldable pub get_file_info : Text → Text → M FileView
  get_file_info user_id file_id = do
    info ← Files.get_file_info file_id
    fail_if (not (is_authorized user_id info)) status_user_forbidden
    dh_file_info_to_rd_file_info info

  unfoldable pub modify_directory_info : Text → Text → Text → Text → Text → M Unit
  modify_directory_info user_id dir_id name date tags = do
    fail_if (text_eq dir_id label_zero) status_delete_root_dir_forbidden
    info ← Directories.get_directory_info dir_id
    fail_if (not (text_eq user_id info.owner)) status_user_forbidden
    Directories.modify_directory_info dir_id name date tags info.size

  unfoldable pub modify_file_info : Text → Text → Text → Text → Text → Text → M Unit
  modify_file_info user_id file_id name extension date tags = do
    info ← Files.get_file_info file_id
    fail_if (not (is_authorized user_id info)) status_user_forbidden
    Files.modify_file_info file_id name extension date tags info.users_shared user_id
        info.parent_directory
