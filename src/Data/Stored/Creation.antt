-- ===== src/Data/Stored/Creation.antt =====
-- `add_file` and `add_directory`: what is created, where it is listed, and what stays as it was.
use mathlib.Core.Path.{subst}
use tp.Common.{◌≡◌, refl, sym, ap, ◌∙◌, some, [], ◌∷◌, ◌++◌, inl, inr, false}
use tp.Text.{Text, text_eq, text_eq_refl}
use tp.Text.KeyList.{delimiter}
use tp.World.{
  Platform, World, Content, Outcome, done, put_content, put_update, apply_batch, or_status,
}
use tp.World.Inversion.{binding, pure-done, or_status-done}
use tp.Db.Laws.{
  stored, entries, value_after, NoKey, entries-NoKey, apply_batch-Avoids, apply_batch-append,
}
use tp.Data.Constants.{
  status_database_error, suffix_file_id, suffix_files_contained, label_empty_string,
}
use tp.Data.Keys.{generate_dir_key, generate_file_key, generate_ticket_key}
use tp.Data.Keys.Laws.{file_key-dir_key}
use tp.Data.Access.{create_id}
use tp.Data.Access.Reading.{reading}
use tp.Data.Access.Tickets.{Taken, create_id-Taken}
use tp.Data.Directories
use tp.Data.Files
use tp.Data.Files.{FileInfo}
use tp.Data.Saving.{Saved, save-Saved}
use tp.Data.Saving.Specs.{new_file_fields, new_file_batch, write_new_file-save}
use tp.Data.Stored.{FileStored, file_items}
use tp.Data.Stored.Batches.{FileStored-FileInfoAfter}

-- What is stored of a file just created.
abbrev pub new_info : Text → Text → Text → Text → Text → Text → Text → FileInfo
new_info user_id name extension date size revision parent = record {
  name = name;
  extension = extension;
  date_last_mod = date;
  user_last_mod = user_id;
  tags = label_empty_string;
  owner = user_id;
  size = size;
  users_shared = label_empty_string;
  revision = revision;
  parent_directory = parent;
}

-- The content after a batch of `write_new_file`.
module _ (user_id name extension date size revision parent id files : Text) (c : Content) where
  abbrev written : Content
  written = apply_batch (new_file_batch user_id name extension date size revision parent id files) c

  fields_then_list :
      written
      ≡ put_content (generate_dir_key parent suffix_files_contained) files (
          apply_batch
            (entries
              (generate_file_key id)
              (new_file_fields user_id name extension date size revision parent))
            c)
  unfolding apply_batch
  fields_then_list =
      apply_batch-append
        (entries (generate_file_key id)
          (new_file_fields user_id name extension date size revision parent))
        (put_update (generate_dir_key parent suffix_files_contained) files ∷ []) c

  fields_stored :
      FileStored
        (apply_batch
          (entries
            (generate_file_key id)
            (new_file_fields user_id name extension date size revision parent))
          c)
        id
        (new_info user_id name extension date size revision parent)
  unfolding value_after text_eq
  fields_stored =
      FileStored-FileInfoAfter c id
        (new_file_fields user_id name extension date size revision parent) _
        (record {
          name = refl;
          extension = refl;
          date_last_mod = refl;
          user_last_mod = refl;
          tags = refl;
          owner = refl;
          size = refl;
          users_shared = refl;
          revision = refl;
          parent_directory = refl;
        })

-- A write to a key of a directory leaves what is stored of files alone.
pub FileStored-put_dir :
    (dir suffix value id : Text) (i : FileInfo) (c : Content)
    → FileStored c id i
    → FileStored (put_content (generate_dir_key dir suffix) value c) id i
FileStored-put_dir dir suffix value id i c s = record {
  name = rw (file_key-dir_key dir suffix id _) s.name;
  extension = rw (file_key-dir_key dir suffix id _) s.extension;
  date_last_mod = rw (file_key-dir_key dir suffix id _) s.date_last_mod;
  user_last_mod = rw (file_key-dir_key dir suffix id _) s.user_last_mod;
  tags = rw (file_key-dir_key dir suffix id _) s.tags;
  owner = rw (file_key-dir_key dir suffix id _) s.owner;
  size = rw (file_key-dir_key dir suffix id _) s.size;
  users_shared = rw (file_key-dir_key dir suffix id _) s.users_shared;
  revision = rw (file_key-dir_key dir suffix id _) s.revision;
  parent_directory = rw (file_key-dir_key dir suffix id _) s.parent_directory;
}

module _ ⦃P : Platform⦄ where
  -- What `add_file` leaves: `files` is the list of the directory before.
  pub record FileCreated (user_id name extension date size revision parent id : Text) (w w' : World)
      : Type 0 where
    pub files : Text
    pub listed_before : stored w (generate_dir_key parent suffix_files_contained) ≡ some files
    pub id_before : stored w (generate_ticket_key suffix_file_id) ≡ some id
    pub file : FileStored (stored w') id (new_info user_id name extension date size revision parent)
    pub listed :
        stored w' (generate_dir_key parent suffix_files_contained) ≡ some (files ++ delimiter ∷ id)
    pub others :
        (k : Text)
        → text_eq (generate_ticket_key suffix_file_id) k ≡ false
        → NoKey (generate_file_key id) file_items k
        → text_eq (generate_dir_key parent suffix_files_contained) k ≡ false
        → stored w' k ≡ stored w k

  saved_done :
      (user_id name extension date size revision parent id files : Text) (w : World) {w' : World}
      → Files.write_new_file user_id name extension date size revision parent id files w
        ≡ (done tt, w')
      → stored w' ≡ written user_id name extension date size revision parent id files (stored w)
  saved_done user_id name extension date size revision parent id files w h =
      go _
        (sym (write_new_file-save user_id name extension date size revision parent id files w) ∙ h)
        (save-Saved (new_file_batch user_id name extension date size revision parent id files) w)
    where
      go :
          {w' : World} (o : Outcome (Unit {0}) × World)
          → o ≡ (done tt, w')
          → Saved (new_file_batch user_id name extension date size revision parent id files) w o
          → stored w' ≡ written user_id name extension date size revision parent id files (stored w)
      go o e (inl (_, c, _)) = rw (ap (λ (p : Outcome (Unit {0}) × World). p.1) e) at c
      go o e (inr (f, _, _)) = cc

  created :
      (user_id name extension date size revision parent id files : Text) (w w1 w' : World)
      → stored w (generate_dir_key parent suffix_files_contained) ≡ some files
      → Taken suffix_file_id id w w1
      → stored w'
        ≡ written user_id name extension date size revision parent id
            (files ++ delimiter ∷ id)
            (stored w1)
      → FileCreated user_id name extension date size revision parent id w w'
  created user_id name extension date size revision parent id files w w1 w' held t e =
      let list = files ++ delimiter ∷ id in
      let whole =
        e ∙ fields_then_list user_id name extension date size revision parent id list (stored w1) in
      record {
        files = files;
        listed_before = held;
        id_before = t.before;
        file =
            subst (λ c. FileStored c id (new_info user_id name extension date size revision parent))
              (sym whole)
              (FileStored-put_dir parent suffix_files_contained list id _ _ (
                fields_stored user_id name extension date size revision parent id list
                  (stored w1)));
        listed =
            ap (λ (c : Content). c (generate_dir_key parent suffix_files_contained)) whole
            ∙ rw (text_eq_refl (generate_dir_key parent suffix_files_contained));
        others = λ k ticket other list_key.
            ap (λ (c : Content). c k) whole
            ∙ rw list_key (
                apply_batch-Avoids _ (stored w1) k (
                  entries-NoKey (generate_file_key id)
                    (new_file_fields user_id name extension date size revision parent) k other)
                ∙ ap (λ (c : Content). c k) t.after
                ∙ rw ticket);
      }

  -- A file that is added is stored with the given values under an id taken from the ticket, and
  -- listed last in its directory; every key but the ten of the file, the list of the directory and
  -- the ticket keeps its value.
  pub add_file-FileCreated :
      (user_id name extension date size revision parent id : Text) (w w' : World)
      → Files.add_file user_id name extension date size revision parent w ≡ (done id, w')
      → FileCreated user_id name extension date size revision parent id w w'
  unfolding Files.add_file Directories.get_dir
  add_file-FileCreated user_id name extension date size revision parent id w w' h =
      reading _ _ w h λ files held h1.
        binding (or_status status_database_error (create_id suffix_file_id)) _ w h1
          λ new_id w1 taken h2.
            binding
              (Files.write_new_file user_id name extension date size revision parent new_id
                (files ++ delimiter ∷ new_id))
              _ w1 h2
              λ _ w2 saved h3.
                let (same, end) = pure-done new_id w2 h3 in
                subst (λ i. FileCreated user_id name extension date size revision parent i w w')
                  same
                  (created user_id name extension date size revision parent new_id files w w1 w'
                    held
                    (create_id-Taken suffix_file_id new_id w
                      (or_status-done status_database_error (create_id suffix_file_id) w taken))
                    (ap stored end
                      ∙ saved_done user_id name extension date size revision parent new_id
                          (files ++ delimiter ∷ new_id) w1 saved))
