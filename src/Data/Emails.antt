-- ===== src/Data/Emails.antt =====
-- The list of the users' emails, one text of one entry.
use tp.Common.{◌++◌, [], ◌∷◌, if◌then◌else◌}
use tp.Text.{Text}
use tp.Text.KeyList.{delimiter, tokens, contains, append_others}
use tp.World.{Platform, M, pure, ◌>>=◌}
use tp.Data.Constants.{prefix_user_email_list}
use tp.Data.Access.{dbh_get, dbh_put}

module _ ⦃P : Platform⦄ where
  unfoldable pub get_user_mail_list : M Text
  get_user_mail_list = dbh_get prefix_user_email_list

  -- The status is passed by value: see `by_value` at the calls.
  unfoldable pub add_email_to_list : Text → M Unit
  add_email_to_list email = do
    list ← dbh_get prefix_user_email_list
    (if contains email (tokens list)
        then pure tt
        else dbh_put prefix_user_email_list (list ++ delimiter ∷ email))

  unfoldable pub remove_email_from_list : Text → M Unit
  remove_email_from_list email = do
    list ← dbh_get prefix_user_email_list
    dbh_put prefix_user_email_list (append_others [] email (tokens list))
