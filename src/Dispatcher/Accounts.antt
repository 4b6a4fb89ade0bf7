-- ===== src/Dispatcher/Accounts.antt =====
-- Accounts and sessions: signing up, logging in, the token of a session, the profile of a user.
use tp.Common.{ℕ, ◌+◌, ◌-◌, ◌%◌, not, List, ◌∷◌, ◌++◌, length, ◌==◌}
use tp.Text.{Text, text_eq}
use tp.Text.KeyList.{delimiter, tokens}
use tp.Text.Decimal.{to_string, word}
use tp.Storage.FileHandler
use tp.World.{Platform, M, pure, gets, fail_if, collect, ◌>>=◌, ◌>>◌}
use tp.Data.Access
use tp.Data.Constants.{
  status_wrong_password, status_wrong_token, status_fail_saving_file, status_fail_loading_file,
  label_user_image,
}
use tp.Data.Emails
use tp.Data.Users
use tp.Dispatcher.Records.{UserProfile, stoul_decimal, fill_user_info_st}

-- Two parts in one text, as a name and a location are kept.
abbrev pub join_pair : Text → Text → Text
join_pair a b = a ++ delimiter ∷ b

module _ ⦃P : Platform⦄ where
  unfoldable pub init : Text → ℕ → M Unit
  init database_path max_user_quota w =
      Access.init database_path (record w { max_user_quota = max_user_quota })

  unfoldable pub sign_up : Text → Text → Text → Text → Text → Text → Text → Text → M Text
  sign_up email password first_name last_name gps_lat gps_lon new_token date =
      Users.add_user email password (join_pair first_name last_name) (join_pair gps_lat gps_lon)
        new_token date

  -- The id of the user and the quota that is left.
  unfoldable pub log_in : Text → Text → Text → M (Text × Text)
  log_in email password new_token = do
    saved_password ← Users.get_user_password email
    fail_if (not (text_eq password saved_password)) status_wrong_password
    user_id ← Users.add_user_token email new_token
    user_info ← Users.get_user_info user_id
    max_user_quota ← gets (λ w. w.max_user_quota)
    used ← stoul_decimal user_info.user_quota_used
    pure (user_id, to_string ((max_user_quota + word - used) % word))

  unfoldable pub check_token : Text → Text → M Unit
  check_token user_id user_token = do
    saved_token ← Users.get_user_token user_id
    fail_if (not (text_eq user_token saved_token)) status_wrong_token

  unfoldable pub get_user_info : Text → M UserProfile
  get_user_info user_id = do info ← Users.get_user_info user_id; fill_user_info_st user_id info

  unfoldable pub modify_user_info : Text → Text → Text → Text → Text → Text → M Unit
  modify_user_info user_id email first_name last_name gps_lat gps_lon = do
    user_info ← Users.get_user_info user_id
    Users.modify_user_info user_id email (join_pair first_name last_name)
        (join_pair gps_lat gps_lon) user_info.shared_files user_info.user_quota_used
        user_info.files_deleted

  unfoldable pub modify_user_password : Text → Text → M Unit
  modify_user_password user_id password = Users.modify_user_password user_id password

  unfoldable pub get_user_image : Text → M Text
  get_user_image user_id = do
    stream ← gets (FileHandler.load_file (label_user_image ++ user_id))
    fail_if (length stream == 0) status_fail_loading_file
    pure stream

  unfoldable pub set_user_image : Text → Text → Text → M Unit
  set_user_image user_id stream size = do
    n ← stoul_decimal size
    written ← FileHandler.save_file (label_user_image ++ user_id) stream n
    fail_if (written == 0) status_fail_saving_file

  unfoldable pub get_user_email_list_full : M (List UserProfile)
  get_user_email_list_full = do
    list ← Emails.get_user_mail_list
    collect (tokens list) (λ email. do
      user_id ← Access.get_email_user_id_index email
      info ← Users.get_user_info user_id
      fill_user_info_st user_id info)
