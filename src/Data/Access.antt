-- ===== src/Data/Access.antt =====
-- Reading and writing single entries, the tickets that new ids are taken from, and `init`.
pub mod Reading
pub mod Tickets
use tp.Common.{
  ℕ, ◌+◌, ◌%◌, Bool, true, false, Option, none, some, List, [], ◌∷◌, not, if◌then◌else◌,
}
use tp.Text.{Text}
use tp.Text.Decimal.{stoul, to_string, word}
use tp.World.{
  Platform, Reply, found, not_found, get_error, World, M, pure, return_false, fail_with, fail_if,
  require, attempt, of_conversion, ◌>>=◌, ◌>>◌,
}
use tp.Db
use tp.Data.Constants.{
  status_database_error, status_key_not_found, suffix_user_id, suffix_dir_id, suffix_file_id,
  prefix_user_email_list, label_empty_string,
}
use tp.Data.Keys.{generate_ticket_key, email_index_key}

module _ ⦃P : Platform⦄ where
  -- The two errors of `dbh_get`.
  unfoldable pub answer_read : Reply → M Text
  answer_read (found value) = pure value
  answer_read not_found = fail_with status_key_not_found
  answer_read get_error = fail_with status_database_error

  unfoldable pub dbh_get : Text → M Text
  dbh_get key w = answer_read (Db.get key w) w

  unfoldable pub dbh_put : Text → Text → M Unit
  dbh_put key value = do ok ← Db.put key value; fail_if (not ok) status_database_error

  -- `if(!dbh_.write_batch()){ status = STATUS_DATABASE_ERROR; return false; }`
  unfoldable pub write_batch_or_error : M Unit
  write_batch_or_error = do ok ← Db.write_batch; fail_if (not ok) status_database_error

  -- The id is the ticket, and the ticket is incremented. The status is the caller's to set.
  unfoldable pub take_ticket : Text → Reply → M Text
  take_ticket type_of_id (found id) = do
    n ← of_conversion (stoul id)
    require (Db.put (generate_ticket_key type_of_id) (to_string ((n + 1) % word)))
    pure id
  take_ticket type_of_id not_found = return_false
  take_ticket type_of_id get_error = return_false

  unfoldable pub create_id : Text → M Text
  create_id type_of_id w = take_ticket type_of_id (Db.get (generate_ticket_key type_of_id) w) w

  -- An entry that is not there yet; a failure is printed only.
  unfoldable pub init_if_missing : Text → Text → Reply → M Unit
  init_if_missing key value (found _) = pure tt
  init_if_missing key value not_found = do _ ← Db.put key value; pure tt
  init_if_missing key value get_error = pure tt

  unfoldable pub init_entry : Text → Text → M Unit
  init_entry key value w = init_if_missing key value (Db.get key w) w

  unfoldable pub init_id_ticket : Text → M Unit
  init_id_ticket type_of_id = init_entry (generate_ticket_key type_of_id) (to_string 1)

  unfoldable pub init_user_list : M Unit
  init_user_list = init_entry prefix_user_email_list label_empty_string

  unfoldable pub init : Text → M Unit
  init database_path = do
    require (Db.open_db database_path)
    init_id_ticket suffix_user_id
    init_id_ticket suffix_dir_id
    init_id_ticket suffix_file_id
    init_user_list

  unfoldable pub get_email_user_id_index : Text → M Text
  get_email_user_id_index email = dbh_get (email_index_key email)

  unfoldable pub add_email_user_id_index : Text → Text → M Unit
  add_email_user_id_index email user_id = require (Db.put (email_index_key email) user_id)
