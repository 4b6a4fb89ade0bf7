-- ===== src/Dispatcher/Frames/Searches.antt =====
-- Searches, tags, and lists of users.
use tp.Common.{ℕ, zero, suc, List, [], ◌∷◌}
use tp.Text.{Text}
use tp.Text.KeyList.{add_key_to_string_list}
use tp.World.{Platform, M}
use tp.Db.Keeps.{Keeps, keeps_rules, Keeps-pure, Keeps-crash, Keeps-bind, Keeps-if, Keeps-collect}
use tp.Data.Constants.{SearchMode}
use tp.Data.Keys.Credentials.{IsCredential}
use tp.Data.Frames.{Keeps-get_user_info, Keeps-get_directory_info, Keeps-get_file_info}
use tp.Dispatcher.Searching
use tp.Dispatcher.Frames.Views.{
  Keeps-element_of_dir, Keeps-add_info_files_from_id_list, Keeps-view_users, Keeps-view_user,
}

module _ ⦃P : Platform⦄ {k : Text} where
  Keeps-gather :
      {A : Type 0} (ids : List Text) (body : Text → M (List A))
      → ((id : Text) → Keeps k (body id))
      → Keeps k (Searching.gather ids body)
  unfolding Searching.gather
  Keeps-gather [] body kb = Keeps-pure []
  Keeps-gather (id ∷ ids) body kb =
      Keeps-bind _ _ (kb id) λ first. Keeps-bind _ _ (Keeps-gather ids body kb) λ rest. Keeps-pure _

  module _ (c : IsCredential k) where
    Keeps-search_dir :
        (depth : ℕ) (id : Text) (mode : SearchMode) (text : Text)
        → Keeps k (Searching.search_dir depth id mode text)
    unfolding Searching.search_dir
    Keeps-search_dir zero id mode text = Keeps-crash _
    Keeps-search_dir (suc depth) id mode text =
        Keeps-bind _ _ (Keeps-get_directory_info c id) λ info.
          Keeps-bind _ _
            (Keeps-if _ _ _
              (Keeps-bind _ _ (Keeps-element_of_dir c id info) (λ element. Keeps-pure _))
              (Keeps-pure _))
            λ own. Keeps-bind _ _ (Keeps-add_info_files_from_id_list c _ mode text) λ files.
              Keeps-bind _ _ (Keeps-gather _ _ (λ sub. Keeps-search_dir depth sub mode text))
                λ below. Keeps-pure _

    pub Keeps-search_by_mode :
        (mode : SearchMode) (user_id text : Text)
        → Keeps k (Searching.search_by_mode mode user_id text)
    unfolding Searching.search_by_mode Searching.search_by_mode_recursive
    Keeps-search_by_mode mode user_id text = Keeps-bind _ _ (Keeps-get_user_info c user_id) λ info.
        Keeps-bind _ _ (Keeps-search_dir P.stack_depth info.dir_root mode text) λ owned.
          Keeps-bind _ _ (Keeps-add_info_files_from_id_list c info.shared_files mode text)
            λ shared. Keeps-pure _

    pub Keeps-search_by_user :
        (user_id owner : Text) → Keeps k (Searching.search_by_user user_id owner)
    unfolding Searching.search_by_user
    Keeps-search_by_user user_id owner =
        search (keeps_rules, Keeps-get_user_info, Keeps-add_info_files_from_id_list)

    Keeps-add_tags : (ids : Text) → Keeps k (Searching.add_tags_from_id_list ids)
    unfolding Searching.add_tags_from_id_list
    Keeps-add_tags ids =
        Keeps-gather _ _ (λ id. Keeps-bind _ _ (Keeps-get_file_info c id) (λ info. Keeps-pure _))

    Keeps-add_tags_of_dir : (depth : ℕ) (id : Text) → Keeps k (Searching.add_tags_of_dir depth id)
    unfolding Searching.add_tags_of_dir
    Keeps-add_tags_of_dir zero id = Keeps-crash _
    Keeps-add_tags_of_dir (suc depth) id = Keeps-bind _ _ (Keeps-get_directory_info c id) λ info.
        Keeps-bind _ _ (Keeps-add_tags info.files_contained) λ of_files.
          Keeps-bind _ _ (Keeps-gather _ _ (Keeps-add_tags_of_dir depth)) λ below. Keeps-pure _

    pub Keeps-get_tags : (user_id : Text) → Keeps k (Searching.get_tags user_id)
    unfolding Searching.get_tags Searching.add_tags_recursive
    Keeps-get_tags user_id = Keeps-bind _ _ (Keeps-get_user_info c user_id) λ info.
        Keeps-bind _ _ (Keeps-add_tags_of_dir P.stack_depth info.dir_root)
          λ owned. Keeps-bind _ _ (Keeps-add_tags info.shared_files) λ shared. Keeps-pure _

    pub Keeps-search_emails :
        (text : Text) → Keeps k (Searching.get_user_email_list_by_pattern text)
    unfolding Searching.get_user_email_list_by_pattern
    Keeps-search_emails text = Keeps-bind _ _ (Keeps-view_users c) λ list. Keeps-pure _

    Keeps-owners_of : (ids : Text) (files : List Text) → Keeps k (Searching.owners_of ids files)
    unfolding Searching.owners_of
    Keeps-owners_of ids [] = Keeps-pure ids
    Keeps-owners_of ids (file ∷ files) =
        Keeps-bind _ _ (Keeps-get_file_info c file)
          λ info. Keeps-owners_of (add_key_to_string_list ids info.owner) files

    pub Keeps-get_owners : (user_id : Text) → Keeps k (Searching.get_owners_of_shared_files user_id)
    unfolding Searching.get_owners_of_shared_files
    Keeps-get_owners user_id =
        Keeps-bind _ _ (Keeps-get_user_info c user_id)
          λ info. Keeps-bind _ _ (Keeps-owners_of [] _) λ ids. Keeps-collect _ _ (Keeps-view_user c)
