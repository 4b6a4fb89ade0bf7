-- ===== src/Dispatcher/Searching.antt =====
-- Searches over the files that a user owns and those that are shared with him, and their tags.
use tp.Common.{ℕ, zero, suc, Bool, false, List, [], ◌∷◌, ◌++◌, if◌then◌else◌, filter}
use tp.Text.{Text}
use tp.Text.KeyList.{tokens, add_key_to_string_list}
use tp.World.{Platform, M, pure, crash, stack_overflow, collect, ◌>>=◌}
use tp.Data.Constants.{SearchMode, by_name, by_extension, by_tag, by_user}
use tp.Data.Users
use tp.Data.Directories
use tp.Data.Directories.{DirInfo}
use tp.Data.Files
use tp.Dispatcher.Records.{InfoElement, UserProfile, fill_info_elem_to_dir_info}
use tp.Dispatcher.Accounts.{get_user_info, get_user_email_list_full}
use tp.Dispatcher.Listing.{is_included, is_str_included_to_lower, add_info_files_from_id_list}

-- The test of a directory in each mode.
unfoldable pub dir_matches : SearchMode → Text → DirInfo → Bool
dir_matches by_name text info = is_str_included_to_lower info.name text
dir_matches by_tag text info = is_str_included_to_lower info.tags text
dir_matches _ text info = false

module _ ⦃P : Platform⦄ where
  -- What successive calls append to one vector, in their order.
  unfoldable pub gather : {A : Type 0} → List Text → (Text → M (List A)) → M (List A)
  gather [] body = pure []
  gather (x ∷ xs) body = do first ← body x; rest ← gather xs body; pure (first ++ rest)

  -- The first argument is the number of calls that still fit on the stack.
  unfoldable pub search_dir : ℕ → Text → SearchMode → Text → M (List InfoElement)
  search_dir zero dir_id mode text = crash stack_overflow
  search_dir (suc depth) dir_id mode text = do
    info ← Directories.get_directory_info dir_id
    own ←
        (if dir_matches mode text info
          then (do element ← fill_info_elem_to_dir_info dir_id info; pure (element ∷ []))
          else pure [])
    files ← add_info_files_from_id_list info.files_contained mode text
    below ← gather (tokens info.directories_contained) (λ sub. search_dir depth sub mode text)
    pure (own ++ files ++ below)

  unfoldable pub search_by_mode_recursive : Text → SearchMode → Text → M (List InfoElement)
  search_by_mode_recursive = search_dir P.stack_depth

  -- `search_by_name`, `search_by_extension` and `search_by_tag` differ in the mode alone.
  unfoldable pub search_by_mode : SearchMode → Text → Text → M (List InfoElement)
  search_by_mode mode user_id text = do
    owner_info ← Users.get_user_info user_id
    owned ← search_by_mode_recursive owner_info.dir_root mode text
    shared ← add_info_files_from_id_list owner_info.shared_files mode text
    pure (owned ++ shared)

  unfoldable pub search_by_name : Text → Text → M (List InfoElement)
  search_by_name = search_by_mode by_name

  unfoldable pub search_by_extension : Text → Text → M (List InfoElement)
  search_by_extension = search_by_mode by_extension

  unfoldable pub search_by_tag : Text → Text → M (List InfoElement)
  search_by_tag = search_by_mode by_tag

  unfoldable pub search_by_user : Text → Text → M (List InfoElement)
  search_by_user user_id user_id_to_search = do
    owner_info ← Users.get_user_info user_id
    add_info_files_from_id_list owner_info.shared_files by_user user_id_to_search

  unfoldable pub add_tags_from_id_list : Text → M (List Text)
  add_tags_from_id_list file_ids =
      gather (tokens file_ids)
        (λ file_id. do info ← Files.get_file_info file_id; pure (tokens info.tags))

  unfoldable pub add_tags_of_dir : ℕ → Text → M (List Text)
  add_tags_of_dir zero dir_id = crash stack_overflow
  add_tags_of_dir (suc depth) dir_id = do
    info ← Directories.get_directory_info dir_id
    of_files ← add_tags_from_id_list info.files_contained
    below ← gather (tokens info.directories_contained) (add_tags_of_dir depth)
    pure (tokens info.tags ++ of_files ++ below)

  unfoldable pub add_tags_recursive : Text → M (List Text)
  add_tags_recursive = add_tags_of_dir P.stack_depth

  unfoldable pub get_tags : Text → M (List Text)
  get_tags user_id = do
    user_info ← Users.get_user_info user_id
    owned ← add_tags_recursive user_info.dir_root
    shared ← add_tags_from_id_list user_info.shared_files
    pure (owned ++ shared)

  unfoldable pub get_user_email_list_by_pattern : Text → M (List UserProfile)
  get_user_email_list_by_pattern pattern_text = do
    full_list ← get_user_email_list_full
    pure (filter (λ u. is_included u.email pattern_text) full_list)

  -- The loop over the shared files: each owner once.
  unfoldable pub owners_of : Text → List Text → M Text
  owners_of ids [] = pure ids
  owners_of ids (file_id ∷ file_ids) = do
    info ← Files.get_file_info file_id
    owners_of (add_key_to_string_list ids info.owner) file_ids

  unfoldable pub get_owners_of_shared_files : Text → M (List UserProfile)
  get_owners_of_shared_files user_id = do
    owner_info ← Users.get_user_info user_id
    ids ← owners_of [] (tokens owner_info.shared_files)
    collect (tokens ids) get_user_info
