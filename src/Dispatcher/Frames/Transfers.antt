-- ===== src/Dispatcher/Frames/Transfers.antt =====
-- Downloads and uploads, and what they do to the files of the server.
use tp.Common.{ℕ, zero, suc, true, Option, none, some, List, [], ◌∷◌}
use tp.Text.{Text}
use tp.World.{Platform, M}
use tp.Db.Keeps.{
  Keeps, keeps_rules, Keeps-pure, Keeps-crash, Keeps-bind, Keeps-if, Keeps-attempt, Keeps-by_value,
}
use tp.Data.Keys.Credentials.{IsCredential}
use tp.Data.Directories.{DirInfo}
use tp.Data.Files.{FileInfo}
use tp.Data.Frames.{
  Keeps-get_user_info, Keeps-get_directory_info, Keeps-get_file_info, Keeps-modify_file_revision,
  Keeps-delete_file, Keeps-add_file, Keeps-add_directory,
}
use tp.Storage.ZipHandler.{DirTree, no_dirs}
use tp.Dispatcher.Accounts
use tp.Dispatcher.Frames.Files.{Keeps-remove_bytes, Keeps-save_bytes, Keeps-create_zip}
use tp.Dispatcher.Downloads
use tp.Dispatcher.Uploads
use tp.Dispatcher.Frames.Views.{
  Keeps-stoul_decimal, Keeps-get_user_quota_used, Keeps-increase_user_quota_used, Keeps-resolve_dir,
  Keeps-change_dir_date_recursive, Keeps-increase_dir_size_recursive,
  Keeps-decrease_dir_size_recursive,
}

module _ ⦃P : Platform⦄ {k : Text} where
  pub Keeps-get_user_image : (user_id : Text) → Keeps k (Accounts.get_user_image user_id)
  unfolding Accounts.get_user_image
  Keeps-get_user_image user_id = search keeps_rules

  pub Keeps-set_user_image :
      (user_id stream size : Text) → Keeps k (Accounts.set_user_image user_id stream size)
  unfolding Accounts.set_user_image
  Keeps-set_user_image user_id stream size =
      search (keeps_rules, Keeps-stoul_decimal, Keeps-save_bytes)

  module _ (c : IsCredential k) where
    pub Keeps-get_file_stream :
        (user_id file_id revision : Text)
        → Keeps k (Downloads.get_file_stream user_id file_id revision)
    unfolding Downloads.get_file_stream
    Keeps-get_file_stream user_id file_id revision =
        search (keeps_rules, Keeps-get_file_info, Keeps-stoul_decimal) depth 12

    Keeps-zip_files : (ids : List Text) → Keeps k (Downloads.zip_files ids)
    unfolding Downloads.zip_files
    Keeps-zip_files [] = Keeps-pure (true, [])
    Keeps-zip_files (id ∷ ids) = Keeps-bind _ _ (Keeps-attempt _ (Keeps-get_file_info c id)) (elim [
      | none ↦ Keeps-pure _
      | some info ↦ Keeps-bind _ _ (Keeps-zip_files ids) (λ r. Keeps-pure _)
    ])

    Keeps-zip_shared : (info : DirInfo) → Keeps k (Downloads.zip_shared info)
    unfolding Downloads.zip_shared
    Keeps-zip_shared info =
        Keeps-if _ _ _
          (Keeps-bind _ _ (Keeps-attempt _ (Keeps-get_user_info c info.owner))
            (elim [ none ↦ Keeps-pure _ | some u ↦ Keeps-zip_files _ ]))
          (Keeps-pure _)

    Keeps-collect_dirs :
        (ids : List Text) (body : Text → M DirTree)
        → ((id : Text) → Keeps k (body id))
        → Keeps k (Downloads.collect_dirs ids body)
    unfolding Downloads.collect_dirs
    Keeps-collect_dirs [] body kb = Keeps-pure no_dirs
    Keeps-collect_dirs (id ∷ ids) body kb =
        Keeps-bind _ _ (kb id)
          λ tree. Keeps-bind _ _ (Keeps-collect_dirs ids body kb) λ rest. Keeps-pure _

    Keeps-dir_structure : (depth : ℕ) (id : Text) → Keeps k (Downloads.dir_structure depth id)
    unfolding Downloads.dir_structure
    Keeps-dir_structure zero id = Keeps-crash _
    Keeps-dir_structure (suc depth) id =
        Keeps-bind _ _ (Keeps-attempt _ (Keeps-get_directory_info c id)) (elim [
          | none ↦ Keeps-pure _
          | some info ↦ Keeps-bind _ _ (Keeps-zip_files _) (λ own. Keeps-if _ _ _ (Keeps-pure _) (
              Keeps-bind _ _ (Keeps-zip_shared info) (λ shared. Keeps-if _ _ _ (Keeps-pure _) (
                Keeps-bind _ _ (Keeps-collect_dirs _ _ (Keeps-dir_structure depth))
                  (λ sub. Keeps-pure _)))))
        ])

    pub Keeps-get_dir_stream :
        (user_id dir_id : Text) → Keeps k (Downloads.get_dir_stream user_id dir_id)
    unfolding Downloads.get_dir_stream Downloads.get_dir_structure_recursive
    Keeps-get_dir_stream user_id dir_id =
        search
          (
            keeps_rules, Keeps-resolve_dir, Keeps-get_directory_info, Keeps-dir_structure,
            Keeps-create_zip, Keeps-remove_bytes,
          )
          depth 12

    pub Keeps-new_directory :
        (user_id name date parent : Text) → Keeps k (Uploads.new_directory user_id name date parent)
    unfolding Uploads.new_directory
    Keeps-new_directory user_id name date parent =
        search
          (keeps_rules, Keeps-resolve_dir, Keeps-add_directory, Keeps-change_dir_date_recursive)

    Keeps-find_revision :
        (name extension : Text) (ids : List Text)
        → Keeps k (Uploads.find_revision name extension ids)
    unfolding Uploads.find_revision
    Keeps-find_revision name extension [] = Keeps-pure _
    Keeps-find_revision name extension (id ∷ ids) =
        Keeps-bind _ _ (Keeps-get_file_info c id)
          λ info. Keeps-if _ _ _ (Keeps-pure _) (Keeps-find_revision name extension ids)

    Keeps-search_revision_file :
        (parent name extension : Text)
        → Keeps k (Uploads.search_revision_file parent name extension)
    unfolding Uploads.search_revision_file
    Keeps-search_revision_file parent name extension =
        Keeps-bind _ _ (Keeps-get_directory_info c parent) λ info. Keeps-find_revision _ _ _

    Keeps-save_new_file :
        (user_id name extension date stream size parent : Text)
        → Keeps k (Uploads.save_new_file user_id name extension date stream size parent)
    unfolding Uploads.save_new_file
    Keeps-save_new_file user_id name extension date stream size parent =
        search
          (keeps_rules, Keeps-add_file, Keeps-stoul_decimal, Keeps-save_bytes, Keeps-delete_file)
          depth 9

    Keeps-save_revision :
        (user_id stream size id : Text) (info : FileInfo)
        → Keeps k (Uploads.save_revision user_id stream size id info)
    unfolding Uploads.save_revision Uploads.increase_file_revision
    Keeps-save_revision user_id stream size id info =
        search
          (
            keeps_rules, Keeps-stoul_decimal, Keeps-save_bytes, Keeps-get_file_info,
            Keeps-modify_file_revision,
          )
          depth 9

    Keeps-save_upload :
        (user_id name extension date stream size parent : Text) (r : Option (Text × FileInfo))
        → Keeps k (Uploads.save_upload user_id name extension date stream size parent r)
    unfolding Uploads.save_upload
    Keeps-save_upload user_id name extension date stream size parent none =
        Keeps-bind _ _ (Keeps-save_new_file user_id name extension date stream size parent)
          λ id. Keeps-pure _
    Keeps-save_upload user_id name extension date stream size parent (some (id, info)) =
        Keeps-bind _ _ (Keeps-save_revision user_id stream size id info) λ _. Keeps-pure _

    Keeps-remove_old_size :
        (parent : Text) (r : Option (Text × FileInfo)) → Keeps k (Uploads.remove_old_size parent r)
    unfolding Uploads.remove_old_size
    Keeps-remove_old_size parent none = Keeps-pure tt
    Keeps-remove_old_size parent (some (id, info)) =
        Keeps-decrease_dir_size_recursive c parent info.size

    Keeps-check_quota : (user_id size : Text) → Keeps k (Uploads.check_quota user_id size)
    unfolding Uploads.check_quota
    Keeps-check_quota user_id size =
        search (keeps_rules, Keeps-get_user_quota_used, Keeps-stoul_decimal) depth 9

    pub Keeps-new_file :
        (user_id name extension date stream size parent : Text)
        → Keeps k (Uploads.new_file user_id name extension date stream size parent)
    unfolding Uploads.new_file
    Keeps-new_file user_id name extension date stream size parent_dir_id =
        Keeps-bind _ _ (Keeps-check_quota user_id size) λ _.
          Keeps-bind _ _ (Keeps-resolve_dir c user_id parent_dir_id) λ parent.
            Keeps-bind _ _ (Keeps-by_value _ (Keeps-search_revision_file parent name extension))
              λ r.
                Keeps-bind _ _ (Keeps-save_upload user_id name extension date stream size parent r)
                  λ id. Keeps-bind _ _ (Keeps-increase_user_quota_used c user_id size) λ _.
                    Keeps-bind _ _ (Keeps-change_dir_date_recursive c parent date) λ _.
                      Keeps-bind _ _ (Keeps-remove_old_size parent r) λ _.
                        Keeps-bind _ _ (Keeps-increase_dir_size_recursive c parent size)
                          λ _. Keeps-pure _
