-- ===== src/Dispatcher/Downloads.antt =====
-- The bytes of a file revision, and of a directory as a zip archive.
use tp.Common.{
  ℕ, zero, suc, Bool, true, false, not, ltb, ◌==◌, length, none, some, List, [], ◌∷◌, ◌++◌,
  if◌then◌else◌,
}
use tp.Text.{Text, text_eq, codes}
use tp.Text.KeyList.{tokens}
use tp.Storage.FileHandler
use tp.Storage.ZipHandler
use tp.Storage.ZipHandler.{ZipFile, DirTree, node, SubDirs, no_dirs, sub_dir}
use tp.World.{Platform, M, pure, crash, stack_overflow, fail_if, attempt, gets, ◌>>=◌, ◌>>◌}
use tp.Data.Constants.{
  label_shared_files, status_user_forbidden, status_revision_not_exists, status_fail_loading_file,
}
use tp.Data.Users
use tp.Data.Directories
use tp.Data.Directories.{DirInfo}
use tp.Data.Files
use tp.Dispatcher.Records.{stoul_decimal}
use tp.Dispatcher.Sizes.{resolve_dir}
use tp.Dispatcher.Listing.{is_authorized}

module _ ⦃P : Platform⦄ where
  unfoldable pub get_file_stream : Text → Text → Text → M Text
  get_file_stream user_id file_id revision = do
    info ← Files.get_file_info file_id
    fail_if (not (is_authorized user_id info)) status_user_forbidden
    last ← stoul_decimal info.revision
    asked ← stoul_decimal revision
    fail_if (ltb last asked) status_revision_not_exists
    stream ← gets (FileHandler.load_file (info.owner ++ file_id ++ revision))
    fail_if (length stream == 0) status_fail_loading_file
    pure stream

  -- The files up to the first whose information is not found, and whether all were.
  unfoldable pub zip_files : List Text → M (Bool × List ZipFile)
  zip_files [] = pure (true, [])
  zip_files (file_id ∷ file_ids) = do
    answer ← attempt (Files.get_file_info file_id)
    elim answer [
      | none ↦ pure (false, [])
      | some info ↦ (do
        (all, rest) ← zip_files file_ids
        pure (
          all,
          record {
            file_id = info.owner ++ file_id ++ info.revision;
            file_real_name = info.name ++ codes "." ++ info.extension;
          }
              ∷ rest,
        ))
    ]

  -- In the directory of shared files, those that are shared with its owner.
  unfoldable pub zip_shared : DirInfo → M (Bool × List ZipFile)
  zip_shared dir_info =
      if text_eq dir_info.name label_shared_files
      then (do
        answer ← attempt (Users.get_user_info dir_info.owner)
        elim answer [
          | none ↦ pure (false, [])
          | some user_info ↦ zip_files (tokens user_info.shared_files)
        ])
      else pure (true, [])

  unfoldable pub collect_dirs : List Text → (Text → M DirTree) → M SubDirs
  collect_dirs [] body = pure no_dirs
  collect_dirs (dir_id ∷ dir_ids) body = do
    tree ← body dir_id
    rest ← collect_dirs dir_ids body
    pure (sub_dir tree rest)

  -- Never `false`: where some information is not found, the tree is what there is up to there. The
  -- first argument is the number of calls that still fit on the stack.
  unfoldable pub dir_structure : ℕ → Text → M DirTree
  dir_structure zero dir_id = crash stack_overflow
  dir_structure (suc depth) dir_id = do
    answer ← attempt (Directories.get_directory_info dir_id)
    elim answer [
      | none ↦ pure (node [] [] no_dirs)
      | some info ↦ (do
        (all, own) ← zip_files (tokens info.files_contained)
        (if not all then pure (node info.name own no_dirs) else (do
          (all_shared, shared) ← zip_shared info
          (if not all_shared then pure (node info.name (own ++ shared) no_dirs) else (do
            sub_dirs ← collect_dirs (tokens info.directories_contained) (dir_structure depth)
            pure (node info.name (own ++ shared) sub_dirs))))))
    ]

  unfoldable pub get_dir_structure_recursive : Text → M DirTree
  get_dir_structure_recursive = dir_structure P.stack_depth

  unfoldable pub get_dir_stream : Text → Text → M Text
  get_dir_stream user_id dir_id = do
    real_id ← resolve_dir user_id dir_id
    info ← Directories.get_directory_info real_id
    fail_if (not (text_eq user_id info.owner)) status_user_forbidden
    structure ← get_dir_structure_recursive real_id
    ZipHandler.create_zip (codes "zipfile_" ++ user_id ++ codes ".zip") structure
    stream ← gets (FileHandler.load_file (codes "zipfile_" ++ user_id ++ codes ".zip"))
    fail_if (length stream == 0) status_fail_loading_file
    FileHandler.delete_file (codes "zipfile_" ++ user_id ++ codes ".zip")
    pure stream
