-- ===== src/Data/Constants.antt =====
-- server/src/db_constants.h
use tp.Common.{ℕ}
use tp.Text.{Text, codes}

abbrev pub status_ok : ℕ
status_ok = 1

abbrev pub status_user_already_exists : ℕ
status_user_already_exists = 2

abbrev pub status_database_error : ℕ
status_database_error = 3

abbrev pub status_key_not_found : ℕ
status_key_not_found = 4

abbrev pub status_wrong_password : ℕ
status_wrong_password = 5

abbrev pub status_wrong_token : ℕ
status_wrong_token = 6

abbrev pub status_fail_saving_file : ℕ
status_fail_saving_file = 7

abbrev pub status_fail_loading_file : ℕ
status_fail_loading_file = 8

abbrev pub status_user_forbidden : ℕ
status_user_forbidden = 9

abbrev pub status_max_quota_exceeded : ℕ
status_max_quota_exceeded = 10

abbrev pub status_delete_root_dir_forbidden : ℕ
status_delete_root_dir_forbidden = 11

abbrev pub status_revision_not_exists : ℕ
status_revision_not_exists = 12

abbrev pub prefix_user : Text
prefix_user = codes "user_"

abbrev pub prefix_dir : Text
prefix_dir = codes "dir_"

abbrev pub prefix_file : Text
prefix_file = codes "file_"

abbrev pub prefix_index_user_id_from_user_email : Text
prefix_index_user_id_from_user_email = codes "index_user_id_from_user_email_"

abbrev pub prefix_ticket_last : Text
prefix_ticket_last = codes "ticket_last_"

abbrev pub prefix_user_email_list : Text
prefix_user_email_list = codes "user_email_list_"

abbrev pub suffix_email : Text
suffix_email = codes "_email"

abbrev pub suffix_password : Text
suffix_password = codes "_password"

abbrev pub suffix_token : Text
suffix_token = codes "_token"

abbrev pub suffix_name : Text
suffix_name = codes "_name"

abbrev pub suffix_location : Text
suffix_location = codes "_location"

abbrev pub suffix_quota_used : Text
suffix_quota_used = codes "_quota_used"

abbrev pub suffix_dir_root : Text
suffix_dir_root = codes "_dir_root"

abbrev pub suffix_shared_files : Text
suffix_shared_files = codes "_shared_files"

abbrev pub suffix_date_last_mod : Text
suffix_date_last_mod = codes "_date_last_mod"

abbrev pub suffix_user_last_mod : Text
suffix_user_last_mod = codes "_user_last_mod"

abbrev pub suffix_tags : Text
suffix_tags = codes "_tags"

abbrev pub suffix_owner : Text
suffix_owner = codes "_owner"

abbrev pub suffix_parent_directory : Text
suffix_parent_directory = codes "_parent_directory"

abbrev pub suffix_files_contained : Text
suffix_files_contained = codes "_files_contained"

abbrev pub suffix_directories_contained : Text
suffix_directories_contained = codes "_directories_contained"

abbrev pub suffix_extension : Text
suffix_extension = codes "_extension"

abbrev pub suffix_size : Text
suffix_size = codes "_size"

abbrev pub suffix_deleted_status : Text
suffix_deleted_status = codes "_deleted_status"

abbrev pub suffix_file_revision : Text
suffix_file_revision = codes "_file_revision"

abbrev pub suffix_users_shared : Text
suffix_users_shared = codes "_users_shared"

abbrev pub suffix_user_id : Text
suffix_user_id = codes "user_id"

abbrev pub suffix_dir_id : Text
suffix_dir_id = codes "dir_id"

abbrev pub suffix_file_id : Text
suffix_file_id = codes "file_id"

abbrev pub suffix_files_deleted : Text
suffix_files_deleted = codes "_files_deleted"

abbrev pub label_root : Text
label_root = codes "root"

abbrev pub label_empty_string : Text
label_empty_string = codes ""

abbrev pub label_space_string : Text
label_space_string = codes " "

abbrev pub label_no_parent_dir : Text
label_no_parent_dir = codes "no_parent"

abbrev pub label_revision_1 : Text
label_revision_1 = codes "1"

abbrev pub label_zero : Text
label_zero = codes "0"

abbrev pub label_a : Text
label_a = codes "a"

abbrev pub label_d : Text
label_d = codes "d"

abbrev pub label_true : Text
label_true = codes "true"

abbrev pub label_false : Text
label_false = codes "false"

abbrev pub label_user_image : Text
label_user_image = codes "user_image"

abbrev pub label_shared_files : Text
label_shared_files = codes "Archivos Compartidos"

-- SEARCH_MODE_OFF and the other search modes
pub data SearchMode : Type 0 where
  off by_name by_extension by_tag by_user : SearchMode
