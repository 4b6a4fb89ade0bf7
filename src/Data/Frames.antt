-- ===== src/Data/Frames.antt =====
-- The operations of DataHandler that leave passwords and tokens alone.
pub mod Staging
use tp.Common.{
  ℕ, ◌≡◌, refl, sym, ap, ◌∙◌, Bool, true, false, not, Option, none, some, List, [], ◌∷◌, ◌++◌,
  if◌then◌else◌, inl, inr, All-append,
}
use mathlib.Core.Path.{subst}
use tp.Text.{Text, text_eq}
use tp.Text.Decimal.{stoul}
use tp.World.{
  Platform, Reply, found, not_found, get_error, Update, put_update, Content, World, M, Outcome,
  apply_batch, ◌>>=◌, ◌>>◌,
}
use tp.Db
use tp.Db.Laws.{stored, Field, entries, Avoids, key_of, entries-Avoids, apply_batch-Avoids}
use tp.Db.Keeps.{
  Keeps, keeps_rules, Keeps-put, Keeps-pure, Keeps-return_false, Keeps-fail_with, Keeps-bind,
  Keeps-if,
}
use tp.Data.Constants.{
  suffix_file_revision, suffix_files_contained, suffix_directories_contained, label_no_parent_dir,
}
use tp.Data.Keys.{
  generate_user_key, generate_dir_key, generate_file_key, generate_ticket_key, email_index_key,
}
use tp.Data.Keys.Credentials.{IsCredential}
use tp.Data.Access
use tp.Data.Access.{dbh_get, answer_read, take_ticket, create_id, get_email_user_id_index}
use tp.Data.Emails
use tp.Data.Users
use tp.Data.Directories
use tp.Data.Files
use tp.Data.Saving.{save, Saved, save-Saved}
use tp.Data.Saving.Specs.{
  modify_file_info-save, modify_file_revision-save, delete_file-save, write_new_file-save,
  modify_directory_info-save, delete_directory-save, write_new_dir-save, info_fields,
  deleted_file_fields, new_file_batch, new_file_fields, new_dir_fields, dir_fields,
  deleted_dir_fields, new_dir_batch,
}

module _ ⦃P : Platform⦄ where
  stored-Saved :
      (k : Text) (us : List Update) (w : World) (o : Outcome (Unit {0}) × World)
      → Avoids k us
      → Saved us w o
      → stored o.1 k ≡ stored w k
  stored-Saved k us w o h (inl (_, c, _)) =
      ap (λ (c : Content). c k) c ∙ apply_batch-Avoids us (stored w) k h
  stored-Saved k us w o h (inr (_, c, _)) = ap (λ (c : Content). c k) c

module _ ⦃P : Platform⦄ {k : Text} where
  -- An operation that is a write of a batch which avoids the key.
  saving :
      (us : List Update) (m : M (Unit {0}))
      → ((w : World) → m w ≡ save us w)
      → Avoids k us
      → Keeps k m
  saving us m e h = record {
    at = λ w.
        subst (λ (o : Outcome (Unit {0}) × World). stored o.1 k ≡ stored w k) (sym (e w))
          (stored-Saved k us w (save us w) h (save-Saved us w));
  }

  Keeps-answer_read : (r : Reply) → Keeps k (answer_read r)
  unfolding answer_read
  Keeps-answer_read (found v) = Keeps-pure v
  Keeps-answer_read not_found = Keeps-fail_with _
  Keeps-answer_read get_error = Keeps-fail_with _

  pub Keeps-dbh_get : (key : Text) → Keeps k (dbh_get key)
  unfolding dbh_get
  Keeps-dbh_get key = record { at = λ w. (Keeps-answer_read (Db.get key w)).at w }

  module _ (c : IsCredential k) where
    Keeps-take_ticket : (kind : Text) (r : Reply) → Keeps k (take_ticket kind r)
    unfolding take_ticket
    Keeps-take_ticket kind (found id) = search (keeps_rules, Keeps-put, c.not_ticket)
    Keeps-take_ticket kind not_found = Keeps-return_false
    Keeps-take_ticket kind get_error = Keeps-return_false

    pub Keeps-create_id : (kind : Text) → Keeps k (create_id kind)
    unfolding create_id
    Keeps-create_id kind = record {
      at = λ w. (Keeps-take_ticket kind (Db.get (generate_ticket_key kind) w)).at w;
    }

    pub Keeps-get_email_user_id_index : (email : Text) → Keeps k (get_email_user_id_index email)
    unfolding get_email_user_id_index
    Keeps-get_email_user_id_index email = Keeps-dbh_get _

    pub Keeps-get_user_info : (id : Text) → Keeps k (Users.get_user_info id)
    unfolding Users.get_user_info Users.get_user
    Keeps-get_user_info id = search (Keeps-bind, Keeps-pure, Keeps-dbh_get) depth 20

    pub Keeps-get_directory_info : (id : Text) → Keeps k (Directories.get_directory_info id)
    unfolding Directories.get_directory_info Directories.get_dir
    Keeps-get_directory_info id = search (Keeps-bind, Keeps-pure, Keeps-dbh_get) depth 20

    pub Keeps-get_file_info : (id : Text) → Keeps k (Files.get_file_info id)
    unfolding Files.get_file_info Files.get_file
    Keeps-get_file_info id = search (Keeps-bind, Keeps-pure, Keeps-dbh_get) depth 20

    pub Keeps-modify_file_info :
        (id name extension date tags users_shared modifier parent : Text)
        → Keeps k (Files.modify_file_info id name extension date tags users_shared modifier parent)
    Keeps-modify_file_info id name extension date tags users_shared modifier parent =
        saving _ _ (modify_file_info-save id name extension date tags users_shared modifier parent)
          (entries-Avoids (generate_file_key id)
            (info_fields name extension date modifier tags users_shared parent) k (c.not_file id))

    pub Keeps-modify_file_revision :
        (id revision : Text) → Keeps k (Files.modify_file_revision id revision)
    Keeps-modify_file_revision id revision =
        saving _ _ (modify_file_revision-save id revision) (c.not_file id suffix_file_revision, tt)

    pub Keeps-delete_file : (id : Text) → Keeps k (Files.delete_file id)
    Keeps-delete_file id =
        saving _ _ (delete_file-save id)
          (entries-Avoids (generate_file_key id) deleted_file_fields k (c.not_file id))

    pub Keeps-modify_directory_info :
        (id name date tags size : Text)
        → Keeps k (Directories.modify_directory_info id name date tags size)
    Keeps-modify_directory_info id name date tags size =
        saving _ _ (modify_directory_info-save id name date tags size)
          (entries-Avoids (generate_dir_key id) (dir_fields name date tags size) k (c.not_dir id))

    pub Keeps-delete_directory : (id : Text) → Keeps k (Directories.delete_directory id)
    Keeps-delete_directory id =
        saving _ _ (delete_directory-save id)
          (entries-Avoids (generate_dir_key id) deleted_dir_fields k (c.not_dir id))

    pub Keeps-modify_directory_files_contained :
        (id files : Text) → Keeps k (Directories.modify_directory_files_contained id files)
    unfolding Directories.modify_directory_files_contained
    Keeps-modify_directory_files_contained id files = search (keeps_rules, Keeps-put, c.not_dir)

    pub Keeps-modify_directory_dirs_contained :
        (id dirs : Text) → Keeps k (Directories.modify_directory_dirs_contained id dirs)
    unfolding Directories.modify_directory_dirs_contained
    Keeps-modify_directory_dirs_contained id dirs = search (keeps_rules, Keeps-put, c.not_dir)

    Keeps-write_new_file :
        (user_id name extension date size revision parent id files : Text)
        → Keeps k (Files.write_new_file user_id name extension date size revision parent id files)
    Keeps-write_new_file user_id name extension date size revision parent id files =
        saving (new_file_batch user_id name extension date size revision parent id files) _
          (write_new_file-save user_id name extension date size revision parent id files)
          (All-append (λ u. text_eq (key_of u) k ≡ false)
            (entries (generate_file_key id)
              (new_file_fields user_id name extension date size revision parent))
            (put_update (generate_dir_key parent suffix_files_contained) files ∷ [])
            (entries-Avoids (generate_file_key id)
              (new_file_fields user_id name extension date size revision parent) k (c.not_file id))
            (c.not_dir parent suffix_files_contained, tt))

    pub Keeps-add_file :
        (user_id name extension date size revision parent : Text)
        → Keeps k (Files.add_file user_id name extension date size revision parent)
    unfolding Files.add_file Directories.get_dir
    Keeps-add_file user_id name extension date size revision parent =
        search (keeps_rules, Keeps-dbh_get, Keeps-create_id, Keeps-write_new_file) depth 9

    parent-Avoids :
        (parent dirs : Text) (b : Bool)
        → Avoids k (
            if b
            then put_update (generate_dir_key parent suffix_directories_contained) dirs ∷ []
            else [])
    parent-Avoids parent dirs true = (c.not_dir parent suffix_directories_contained, tt)
    parent-Avoids parent dirs false = tt

    Keeps-write_new_dir :
        (user_id name date parent id dirs : Text)
        → Keeps k (Directories.write_new_dir user_id name date parent id dirs)
    Keeps-write_new_dir user_id name date parent id dirs =
        saving (new_dir_batch user_id name date parent id dirs) _
          (write_new_dir-save user_id name date parent id dirs)
          (All-append (λ u. text_eq (key_of u) k ≡ false)
            (entries (generate_dir_key id) (new_dir_fields user_id name date parent)) _
            (entries-Avoids (generate_dir_key id) (new_dir_fields user_id name date parent) k
              (c.not_dir id))
            (parent-Avoids parent dirs (not (text_eq parent label_no_parent_dir))))

    pub Keeps-add_directory :
        (user_id name date parent : Text)
        → Keeps k (Directories.add_directory user_id name date parent)
    unfolding Directories.add_directory Directories.directories_with Directories.get_dir
    Keeps-add_directory user_id name date parent =
        search (keeps_rules, Keeps-dbh_get, Keeps-create_id, Keeps-write_new_dir) depth 9

    pub Keeps-add_email_to_list : (email : Text) → Keeps k (Emails.add_email_to_list email)
    unfolding Emails.add_email_to_list Access.dbh_put
    Keeps-add_email_to_list email =
        search (keeps_rules, Keeps-dbh_get, Keeps-put, c.not_list) depth 9

    pub Keeps-remove_email_from_list :
        (email : Text) → Keeps k (Emails.remove_email_from_list email)
    unfolding Emails.remove_email_from_list Access.dbh_put
    Keeps-remove_email_from_list email =
        search (keeps_rules, Keeps-dbh_get, Keeps-put, c.not_list) depth 9
