-- ===== src/Data/Keys/Credentials.antt =====
-- The keys of passwords and tokens: no other key of the server is equal to one of them, whatever the
-- ids are.
use tp.Common.{◌≡◌, refl, ◌∙◌, false, true, [], ◌++◌}
use tp.Text.{Text, text_eq, text_eq-append_left}
use tp.Text.Endings.{apart, backwards, apart_ends}
use tp.Data.Constants.{
  prefix_user, prefix_user_email_list, suffix_email, suffix_name, suffix_location,
  suffix_shared_files, suffix_quota_used, suffix_files_deleted, suffix_password, suffix_token,
}
use tp.Data.Keys.{
  generate_user_key, generate_dir_key, generate_file_key, generate_ticket_key, email_index_key,
}

-- A key that none of the keys which the other operations write is equal to.
pub record IsCredential (k : Text) : Type 0 where
  pub not_dir : (id s : Text) → text_eq (generate_dir_key id s) k ≡ false
  pub not_file : (id s : Text) → text_eq (generate_file_key id s) k ≡ false
  pub not_ticket : (kind : Text) → text_eq (generate_ticket_key kind) k ≡ false
  pub not_index : (email : Text) → text_eq (email_index_key email) k ≡ false
  pub not_list : text_eq prefix_user_email_list k ≡ false
  pub not_email : (id : Text) → text_eq (generate_user_key id suffix_email) k ≡ false
  pub not_name : (id : Text) → text_eq (generate_user_key id suffix_name) k ≡ false
  pub not_location : (id : Text) → text_eq (generate_user_key id suffix_location) k ≡ false
  pub not_shared_files : (id : Text) → text_eq (generate_user_key id suffix_shared_files) k ≡ false
  pub not_quota_used : (id : Text) → text_eq (generate_user_key id suffix_quota_used) k ≡ false
  pub not_files_deleted :
      (id : Text) → text_eq (generate_user_key id suffix_files_deleted) k ≡ false

user_keys_apart :
    (a s b t : Text)
    → apart (backwards s) (backwards t) ≡ true
    → text_eq (generate_user_key a s) (generate_user_key b t) ≡ false
unfolding generate_user_key
user_keys_apart a s b t h = text_eq-append_left prefix_user (a ++ s) (b ++ t) ∙ apart_ends a s b t h

credential :
    (id t : Text)
    → (apart (backwards suffix_email) (backwards t) ≡ true)
    → (apart (backwards suffix_name) (backwards t) ≡ true)
    → (apart (backwards suffix_location) (backwards t) ≡ true)
    → (apart (backwards suffix_shared_files) (backwards t) ≡ true)
    → (apart (backwards suffix_quota_used) (backwards t) ≡ true)
    → (apart (backwards suffix_files_deleted) (backwards t) ≡ true)
    → text_eq prefix_user_email_list (generate_user_key id t) ≡ false
    → IsCredential (generate_user_key id t)
unfolding generate_user_key generate_dir_key generate_file_key generate_ticket_key email_index_key
    text_eq
credential id t e n l s q f list = record {
  not_dir = λ a s. refl;
  not_file = λ a s. refl;
  not_ticket = λ kind. refl;
  not_index = λ email. refl;
  not_list = list;
  not_email = λ a. user_keys_apart a suffix_email id t e;
  not_name = λ a. user_keys_apart a suffix_name id t n;
  not_location = λ a. user_keys_apart a suffix_location id t l;
  not_shared_files = λ a. user_keys_apart a suffix_shared_files id t s;
  not_quota_used = λ a. user_keys_apart a suffix_quota_used id t q;
  not_files_deleted = λ a. user_keys_apart a suffix_files_deleted id t f;
}

pub password-IsCredential : (id : Text) → IsCredential (generate_user_key id suffix_password)
unfolding generate_user_key
password-IsCredential id =
    credential id suffix_password refl refl refl refl refl refl
      (apart_ends [] prefix_user_email_list (prefix_user ++ id) suffix_password refl)

pub token-IsCredential : (id : Text) → IsCredential (generate_user_key id suffix_token)
unfolding generate_user_key
token-IsCredential id =
    credential id suffix_token refl refl refl refl refl refl
      (apart_ends [] prefix_user_email_list (prefix_user ++ id) suffix_token refl)
