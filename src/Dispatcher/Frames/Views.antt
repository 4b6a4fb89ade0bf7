-- ===== src/Dispatcher/Frames/Views.antt =====
-- What a user sees: quotas, sizes, elements and lists, searches and tags.
use tp.Common.{ℕ, zero, suc, List, [], ◌∷◌}
use tp.Text.{Text}
use tp.World.{Platform}
use tp.Db.Keeps.{Keeps, keeps_rules, Keeps-pure, Keeps-crash, Keeps-bind, Keeps-if}
use tp.Data.Constants.{SearchMode}
use tp.Data.Keys.Credentials.{IsCredential}
use tp.Data.Emails
use tp.Data.Users
use tp.Data.Users.{UserInfo}
use tp.Data.Directories.{DirInfo}
use tp.Data.Files.{FileInfo}
use tp.Data.Frames.{
  Keeps-dbh_get, Keeps-get_user_info, Keeps-get_directory_info, Keeps-get_file_info,
  Keeps-get_email_user_id_index, Keeps-modify_directory_info,
}
use tp.Data.Profiles.{Keeps-modify_user_info}
use tp.Dispatcher.Records
use tp.Dispatcher.Records.{stoul_decimal, front_back}
use tp.Dispatcher.Sizes
use tp.Dispatcher.Accounts
use tp.Dispatcher.Listing

module _ ⦃P : Platform⦄ {k : Text} where
  pub Keeps-stoul_decimal : (str : Text) → Keeps k (stoul_decimal str)
  unfolding stoul_decimal
  Keeps-stoul_decimal str = search keeps_rules

  Keeps-front_back : (v : List Text) → Keeps k (front_back v)
  unfolding front_back
  Keeps-front_back [] = Keeps-crash _
  Keeps-front_back (x ∷ xs) = Keeps-pure _

  module _ (c : IsCredential k) where
    pub Keeps-element_of_dir :
        (dir_id : Text) (info : DirInfo) → Keeps k (Records.fill_info_elem_to_dir_info dir_id info)
    unfolding Records.fill_info_elem_to_dir_info
    Keeps-element_of_dir dir_id info = search (keeps_rules, Keeps-stoul_decimal)

    Keeps-element_of_file :
        (file_id : Text) (info : FileInfo)
        → Keeps k (Records.fill_info_elem_to_file_info file_id info)
    unfolding Records.fill_info_elem_to_file_info
    Keeps-element_of_file file_id info = search (keeps_rules, Keeps-stoul_decimal)

    Keeps-fill_user_info_st :
        (user_id : Text) (info : UserInfo) → Keeps k (Records.fill_user_info_st user_id info)
    unfolding Records.fill_user_info_st
    Keeps-fill_user_info_st user_id info = Keeps-bind _ _ (Keeps-front_back _) λ names.
        Keeps-bind _ _ (Keeps-front_back _) λ gps. search (keeps_rules, Keeps-stoul_decimal)

    Keeps-shared_user : (id : Text) → Keeps k (Accounts.get_user_info id)
    unfolding Accounts.get_user_info
    Keeps-shared_user id = search (keeps_rules, Keeps-get_user_info, Keeps-fill_user_info_st)

    Keeps-file_view : (info : FileInfo) → Keeps k (Records.dh_file_info_to_rd_file_info info)
    unfolding Records.dh_file_info_to_rd_file_info
    Keeps-file_view info =
        search (keeps_rules, Keeps-get_user_info, Keeps-get_directory_info, Keeps-fill_user_info_st)

    pub Keeps-get_user_quota_used : (id : Text) → Keeps k (Sizes.get_user_quota_used id)
    unfolding Sizes.get_user_quota_used
    Keeps-get_user_quota_used id = search (keeps_rules, Keeps-get_user_info)

    pub Keeps-increase_user_quota_used :
        (id n : Text) → Keeps k (Sizes.increase_user_quota_used id n)
    unfolding Sizes.increase_user_quota_used Sizes.save_quota
    Keeps-increase_user_quota_used id n =
        search (keeps_rules, Keeps-get_user_info, Keeps-stoul_decimal, Keeps-modify_user_info)

    pub Keeps-decrease_user_quota_used :
        (id n : Text) → Keeps k (Sizes.decrease_user_quota_used id n)
    unfolding Sizes.decrease_user_quota_used Sizes.save_quota
    Keeps-decrease_user_quota_used id n =
        search (keeps_rules, Keeps-get_user_info, Keeps-stoul_decimal, Keeps-modify_user_info)

    pub Keeps-resolve_dir : (user_id dir_id : Text) → Keeps k (Sizes.resolve_dir user_id dir_id)
    unfolding Sizes.resolve_dir Sizes.get_root_dir_id
    Keeps-resolve_dir user_id dir_id = search (keeps_rules, Keeps-get_user_info)

    Keeps-change_dir_date :
        (depth : ℕ) (dir_id date : Text) → Keeps k (Sizes.change_dir_date depth dir_id date)
    unfolding Sizes.change_dir_date
    Keeps-change_dir_date zero dir_id date = Keeps-crash _
    Keeps-change_dir_date (suc depth) dir_id date =
        Keeps-bind _ _ (Keeps-get_directory_info c dir_id) λ info.
          Keeps-bind _ _
            (Keeps-if _ _ _ (Keeps-change_dir_date depth info.parent_directory date)
              (Keeps-pure tt))
            λ _. Keeps-modify_directory_info c _ _ _ _ _

    pub Keeps-change_dir_date_recursive :
        (dir_id date : Text) → Keeps k (Sizes.change_dir_date_recursive dir_id date)
    unfolding Sizes.change_dir_date_recursive
    Keeps-change_dir_date_recursive = Keeps-change_dir_date P.stack_depth

    Keeps-increase_dir_size :
        (depth : ℕ) (dir_id n : Text) → Keeps k (Sizes.increase_dir_size depth dir_id n)
    unfolding Sizes.increase_dir_size
    Keeps-increase_dir_size zero dir_id n = Keeps-crash _
    Keeps-increase_dir_size (suc depth) dir_id n =
        Keeps-bind _ _ (Keeps-get_directory_info c dir_id) λ info.
          Keeps-bind _ _
            (Keeps-if _ _ _ (Keeps-increase_dir_size depth info.parent_directory n) (Keeps-pure tt))
            λ _. search (keeps_rules, Keeps-stoul_decimal, Keeps-modify_directory_info)

    pub Keeps-increase_dir_size_recursive :
        (dir_id n : Text) → Keeps k (Sizes.increase_dir_size_recursive dir_id n)
    unfolding Sizes.increase_dir_size_recursive
    Keeps-increase_dir_size_recursive = Keeps-increase_dir_size P.stack_depth

    Keeps-decrease_dir_size :
        (depth : ℕ) (dir_id n : Text) → Keeps k (Sizes.decrease_dir_size depth dir_id n)
    unfolding Sizes.decrease_dir_size
    Keeps-decrease_dir_size zero dir_id n = Keeps-crash _
    Keeps-decrease_dir_size (suc depth) dir_id n =
        Keeps-bind _ _ (Keeps-get_directory_info c dir_id) λ info.
          Keeps-bind _ _
            (Keeps-if _ _ _ (Keeps-decrease_dir_size depth info.parent_directory n) (Keeps-pure tt))
            λ _. search (keeps_rules, Keeps-stoul_decimal, Keeps-modify_directory_info)

    pub Keeps-decrease_dir_size_recursive :
        (dir_id n : Text) → Keeps k (Sizes.decrease_dir_size_recursive dir_id n)
    unfolding Sizes.decrease_dir_size_recursive
    Keeps-decrease_dir_size_recursive = Keeps-decrease_dir_size P.stack_depth

    Keeps-add_info_files :
        (ids : List Text) (mode : SearchMode) (text : Text)
        → Keeps k (Listing.add_info_files ids mode text)
    unfolding Listing.add_info_files
    Keeps-add_info_files [] mode text = Keeps-pure []
    Keeps-add_info_files (id ∷ ids) mode text = Keeps-bind _ _ (Keeps-get_file_info c id) λ info.
        Keeps-bind _ _
          (Keeps-if _ _ _ (Keeps-bind _ _ (Keeps-element_of_file id info) (λ element. Keeps-pure _))
            (Keeps-pure _))
          λ pushed. Keeps-bind _ _ (Keeps-add_info_files ids mode text) λ rest. Keeps-pure _

    pub Keeps-add_info_files_from_id_list :
        (ids : Text) (mode : SearchMode) (text : Text)
        → Keeps k (Listing.add_info_files_from_id_list ids mode text)
    unfolding Listing.add_info_files_from_id_list
    Keeps-add_info_files_from_id_list ids mode text = Keeps-add_info_files _ mode text

    Keeps-elements :
        (info : DirInfo) → Keeps k (Listing.get_directory_element_info_from_dir_info info)
    unfolding Listing.get_directory_element_info_from_dir_info Listing.add_info_dirs_from_id_list
    Keeps-elements info =
        search
          (
            keeps_rules, Keeps-get_directory_info, Keeps-element_of_dir,
            Keeps-add_info_files_from_id_list,
          )
          depth 9

    pub Keeps-get_shared_files : (id : Text) → Keeps k (Listing.get_shared_files id)
    unfolding Listing.get_shared_files
    Keeps-get_shared_files id =
        search (keeps_rules, Keeps-get_user_info, Keeps-add_info_files_from_id_list)

    pub Keeps-get_deleted_files : (id : Text) → Keeps k (Listing.get_deleted_files id)
    unfolding Listing.get_deleted_files
    Keeps-get_deleted_files id =
        search (keeps_rules, Keeps-get_user_info, Keeps-add_info_files_from_id_list)

    pub Keeps-fill_directory_info :
        (user_id dir_id : Text) → Keeps k (Listing.fill_directory_info user_id dir_id)
    unfolding Listing.fill_directory_info
    Keeps-fill_directory_info user_id dir_id =
        search
          (
            keeps_rules, Keeps-resolve_dir, Keeps-get_directory_info, Keeps-elements,
            Keeps-get_shared_files,
          )
          depth 12

    pub Keeps-client_parent : (dir_id parent : Text) → Keeps k (Listing.client_parent dir_id parent)
    unfolding Listing.client_parent
    Keeps-client_parent dir_id parent = search (keeps_rules, Keeps-get_directory_info) depth 12

    pub Keeps-view_directory :
        (user_id dir_id : Text) → Keeps k (Listing.get_directory_info user_id dir_id)
    unfolding Listing.get_directory_info
    Keeps-view_directory user_id dir_id =
        search (keeps_rules, Keeps-fill_directory_info, Keeps-client_parent)

    pub Keeps-view_file : (user_id file_id : Text) → Keeps k (Listing.get_file_info user_id file_id)
    unfolding Listing.get_file_info
    Keeps-view_file user_id file_id = search (keeps_rules, Keeps-get_file_info, Keeps-file_view)

    pub Keeps-view_users : Keeps k Accounts.get_user_email_list_full
    unfolding Accounts.get_user_email_list_full Emails.get_user_mail_list
    Keeps-view_users =
        search
          (
            keeps_rules, Keeps-dbh_get, Keeps-get_email_user_id_index, Keeps-get_user_info,
            Keeps-fill_user_info_st,
          )
          depth 9

    pub Keeps-view_user : (id : Text) → Keeps k (Accounts.get_user_info id)
    Keeps-view_user = Keeps-shared_user

    pub Keeps-check_token : (id token : Text) → Keeps k (Accounts.check_token id token)
    unfolding Accounts.check_token Users.get_user_token Users.get_user
    Keeps-check_token id token = search (keeps_rules, Keeps-dbh_get)
