-- ===== src/Data/Keys.antt =====
-- The keys of the entries: `generate_user_key`, `generate_dir_key`, `generate_file_key`,
-- `generate_ticket_key` and the keys of the index of emails.
pub mod Laws
pub mod Credentials
use tp.Common.{◌++◌}
use tp.Text.{Text}
use tp.Data.Constants.{
  prefix_user, prefix_dir, prefix_file, prefix_ticket_last, prefix_index_user_id_from_user_email,
}

unfoldable pub generate_user_key : Text → Text → Text
generate_user_key user_id item_selected = prefix_user ++ (user_id ++ item_selected)

unfoldable pub generate_dir_key : Text → Text → Text
generate_dir_key dir_id item_selected = prefix_dir ++ (dir_id ++ item_selected)

unfoldable pub generate_file_key : Text → Text → Text
generate_file_key file_id item_selected = prefix_file ++ (file_id ++ item_selected)

unfoldable pub generate_ticket_key : Text → Text
generate_ticket_key ticket_type = prefix_ticket_last ++ ticket_type

-- PREFIX_INDEX_USER_ID_FROM_USER_EMAIL+email
unfoldable pub email_index_key : Text → Text
email_index_key email = prefix_index_user_id_from_user_email ++ email
