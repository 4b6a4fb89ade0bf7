-- ===== src/Data/Profiles.antt =====
-- `modify_user_info` of DataHandler, which may change the email of a user, leaves passwords and
-- tokens alone.
use tp.Text.{Text}
use tp.World.{Platform}
use tp.Data.Keys.Credentials.{IsCredential}
use tp.Data.Access
use tp.Data.Emails
use tp.Data.Users
use tp.Data.Frames.Staging.{Stages, stages_rules, Keeps-clear_batch}
use tp.Db.Keeps.{Keeps, Keeps-bind}
use tp.Data.Frames.{Keeps-dbh_get}

module _ ⦃P : Platform⦄ {k : Text} (c : IsCredential k) where
  Stages-add_email_to_list : (email : Text) → Stages k (Emails.add_email_to_list email)
  unfolding Emails.add_email_to_list Access.dbh_put
  Stages-add_email_to_list email = search (stages_rules, c.not_list) depth 9

  Stages-remove_email_from_list : (email : Text) → Stages k (Emails.remove_email_from_list email)
  unfolding Emails.remove_email_from_list Access.dbh_put
  Stages-remove_email_from_list email = search (stages_rules, c.not_list) depth 9

  Stages-change_email :
      (id old_email email : Text) → Stages k (Users.change_email id old_email email)
  unfolding Users.change_email
  Stages-change_email id old_email email =
      search (stages_rules, c.not_index, Stages-add_email_to_list, Stages-remove_email_from_list)
        depth 9

  Stages-write_batch_or_error : Stages k Access.write_batch_or_error
  unfolding Access.write_batch_or_error
  Stages-write_batch_or_error = search stages_rules

  pub Keeps-modify_user_info :
      (id email name location shared quota deleted : Text)
      → Keeps k (Users.modify_user_info id email name location shared quota deleted)
  unfolding Users.modify_user_info Users.get_user Users.put_user
  Keeps-modify_user_info id email name location shared quota deleted =
      Keeps-bind _ _ (Keeps-dbh_get _) λ old_email. Keeps-clear_batch _ (
        search
          (
            stages_rules, c.not_email, c.not_name, c.not_location, c.not_shared_files,
            c.not_quota_used, c.not_files_deleted, Stages-change_email, Stages-write_batch_or_error,
          )
          depth 12)
