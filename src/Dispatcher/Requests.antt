-- ===== src/Dispatcher/Requests.antt =====
-- The requests of RequestDispatcher as data: those that have no business with a password or a token.
-- The others are `init`, `sign_up`, `log_in`, `modify_user_password` and `delete_user`.
use tp.Common.{◌≡◌, List}
use tp.Text.{Text}
use tp.World.{Platform, World, M, pure, ◌>>=◌}
use tp.Db.Laws.{stored}
use tp.Db.Keeps.{Keeps, Keeps-pure, Keeps-bind}
use tp.Data.Constants.{SearchMode, suffix_password, suffix_token}
use tp.Data.Keys.{generate_user_key}
use tp.Data.Keys.Credentials.{IsCredential, password-IsCredential, token-IsCredential}
use tp.Dispatcher.Accounts
use tp.Dispatcher.Listing
use tp.Dispatcher.Downloads
use tp.Dispatcher.Uploads
use tp.Dispatcher.Sharing
use tp.Dispatcher.Trash
use tp.Dispatcher.Searching
use tp.Dispatcher.Frames.Views.{
  Keeps-check_token, Keeps-view_directory, Keeps-view_file, Keeps-view_users, Keeps-view_user,
  Keeps-get_shared_files, Keeps-get_deleted_files,
}
use tp.Dispatcher.Frames.Searches.{
  Keeps-search_by_mode, Keeps-search_by_user, Keeps-get_tags, Keeps-search_emails, Keeps-get_owners,
}
use tp.Dispatcher.Frames.Transfers.{
  Keeps-get_file_stream, Keeps-get_dir_stream, Keeps-new_directory, Keeps-new_file,
  Keeps-get_user_image, Keeps-set_user_image,
}
use tp.Dispatcher.Frames.Changes.{
  Keeps-rename_directory, Keeps-rename_file, Keeps-rename_user, Keeps-set_file_share,
  Keeps-unset_file_share, Keeps-overwrite_file_sharing, Keeps-trash_file, Keeps-trash_directory,
  Keeps-purge_deleted_files, Keeps-purge_selected_files, Keeps-recover_deleted_files,
  Keeps-recover_selected_files,
}

pub data Request : Type 0 where
  see_user see_shared see_deleted see_tags see_owners see_image : Text → Request
  see_users : Request
  check_session : Text → Text → Request
  see_emails : Text → Request
  see_directory see_file : Text → Text → Request
  search_files : SearchMode → Text → Text → Request
  search_owner : Text → Text → Request
  download_file : Text → Text → Text → Request
  download_directory : Text → Text → Request
  make_directory : Text → Text → Text → Text → Request
  upload_file : Text → Text → Text → Text → Text → Text → Text → Request
  store_image : Text → Text → Text → Request
  change_user : Text → Text → Text → Text → Text → Text → Request
  change_directory : Text → Text → Text → Text → Text → Request
  change_file : Text → Text → Text → Text → Text → Text → Request
  share_file unshare_file : Text → Text → Text → Text → Request
  share_file_with : Text → Text → List Text → Text → Request
  remove_file remove_directory : Text → Text → Request
  purge_all recover_all : Text → Request
  purge_some recover_some : Text → List Text → Request

module _ ⦃P : Platform⦄ where
  -- The result is of no interest here.
  abbrev finish : {A : Type 0} → M A → M Unit
  finish m = m >>= λ _. pure tt

  unfoldable pub perform : Request → M Unit
  perform (see_user user) = finish (Accounts.get_user_info user)
  perform (see_shared user) = finish (Listing.get_shared_files user)
  perform (see_deleted user) = finish (Listing.get_deleted_files user)
  perform (see_tags user) = finish (Searching.get_tags user)
  perform (see_owners user) = finish (Searching.get_owners_of_shared_files user)
  perform (see_image user) = finish (Accounts.get_user_image user)
  perform see_users = finish Accounts.get_user_email_list_full
  perform (check_session user token) = Accounts.check_token user token
  perform (see_emails text) = finish (Searching.get_user_email_list_by_pattern text)
  perform (see_directory user dir) = finish (Listing.get_directory_info user dir)
  perform (see_file user file) = finish (Listing.get_file_info user file)
  perform (search_files mode user text) = finish (Searching.search_by_mode mode user text)
  perform (search_owner user owner) = finish (Searching.search_by_user user owner)
  perform (download_file user file revision) = finish (Downloads.get_file_stream user file revision)
  perform (download_directory user dir) = finish (Downloads.get_dir_stream user dir)
  perform (make_directory user name date parent) =
      finish (Uploads.new_directory user name date parent)
  perform (upload_file user name extension date stream size parent) =
      finish (Uploads.new_file user name extension date stream size parent)
  perform (store_image user stream size) = Accounts.set_user_image user stream size
  perform (change_user user email first last lat lon) =
      Accounts.modify_user_info user email first last lat lon
  perform (change_directory user dir name date tags) =
      Listing.modify_directory_info user dir name date tags
  perform (change_file user file name extension date tags) =
      Listing.modify_file_info user file name extension date tags
  perform (share_file owner file user date) = Sharing.set_file_share owner file user date
  perform (unshare_file owner file user date) = Sharing.unset_file_share owner file user date
  perform (share_file_with owner file users date) =
      Sharing.overwrite_file_sharing_by_list owner file users date
  perform (remove_file user file) = Trash.delete_file user file
  perform (remove_directory user dir) = Trash.delete_directory user dir
  perform (purge_all user) = Trash.purge_deleted_files user
  perform (recover_all user) = Trash.recover_deleted_files user
  perform (purge_some user files) = Trash.purge_selected_files user files
  perform (recover_some user files) = Trash.recover_selected_files user files

  finishing : {A : Type 0} {k : Text} (m : M A) → Keeps k m → Keeps k (finish m)
  finishing m km = Keeps-bind m _ km (λ _. Keeps-pure tt)

  Keeps-perform : {k : Text} (c : IsCredential k) (r : Request) → Keeps k (perform r)
  unfolding perform
  Keeps-perform c (see_user u) = finishing _ (Keeps-view_user c u)
  Keeps-perform c (see_shared u) = finishing _ (Keeps-get_shared_files c u)
  Keeps-perform c (see_deleted u) = finishing _ (Keeps-get_deleted_files c u)
  Keeps-perform c (see_tags u) = finishing _ (Keeps-get_tags c u)
  Keeps-perform c (see_owners u) = finishing _ (Keeps-get_owners c u)
  Keeps-perform c (see_image u) = finishing _ (Keeps-get_user_image u)
  Keeps-perform c see_users = finishing _ (Keeps-view_users c)
  Keeps-perform c (check_session u t) = Keeps-check_token c u t
  Keeps-perform c (see_emails t) = finishing _ (Keeps-search_emails c t)
  Keeps-perform c (see_directory u d) = finishing _ (Keeps-view_directory c u d)
  Keeps-perform c (see_file u f) = finishing _ (Keeps-view_file c u f)
  Keeps-perform c (search_files m u t) = finishing _ (Keeps-search_by_mode c m u t)
  Keeps-perform c (search_owner u o) = finishing _ (Keeps-search_by_user c u o)
  Keeps-perform c (download_file u f r) = finishing _ (Keeps-get_file_stream c u f r)
  Keeps-perform c (download_directory u d) = finishing _ (Keeps-get_dir_stream c u d)
  Keeps-perform c (make_directory u n d p) = finishing _ (Keeps-new_directory c u n d p)
  Keeps-perform c (upload_file u n e d t s p) = finishing _ (Keeps-new_file c u n e d t s p)
  Keeps-perform c (store_image u t s) = Keeps-set_user_image u t s
  Keeps-perform c (change_user u e f l a o) = Keeps-rename_user c u e f l a o
  Keeps-perform c (change_directory u d n t g) = Keeps-rename_directory c u d n t g
  Keeps-perform c (change_file u f n e d t) = Keeps-rename_file c u f n e d t
  Keeps-perform c (share_file o f u d) = Keeps-set_file_share c o f u d
  Keeps-perform c (unshare_file o f u d) = Keeps-unset_file_share c o f u d
  Keeps-perform c (share_file_with o f us d) = Keeps-overwrite_file_sharing c o f us d
  Keeps-perform c (remove_file u f) = Keeps-trash_file c u f
  Keeps-perform c (remove_directory u d) = Keeps-trash_directory c u d
  Keeps-perform c (purge_all u) = Keeps-purge_deleted_files c u
  Keeps-perform c (recover_all u) = Keeps-recover_deleted_files c u
  Keeps-perform c (purge_some u fs) = Keeps-purge_selected_files c u fs
  Keeps-perform c (recover_some u fs) = Keeps-recover_selected_files c u fs

  -- A request other than `init`, `sign_up`, `log_in`, `modify_user_password` and `delete_user`
  -- leaves every password and every token as they are, however it ends and whatever the database
  -- and the files answer, where no command of the shell reaches the files of the database.
  pub perform_keeps_credentials :
      (r : Request) (id : Text) (w : World)
      → let w' = (perform r w).1 in
        (stored w' (generate_user_key id suffix_password)
          ≡ stored w (generate_user_key id suffix_password))
        × (stored w' (generate_user_key id suffix_token)
            ≡ stored w (generate_user_key id suffix_token))
  perform_keeps_credentials r id w = (
    (Keeps-perform (password-IsCredential id) r).at w,
    (Keeps-perform (token-IsCredential id) r).at w,
  )
