-- ===== src/Data/Stored/Writers.antt =====
-- The operations that write the information of a file or a directory: as a whole or not at all.
use tp.Common.{◌≡◌, refl, sym, ap, ◌∙◌, some, List, [], ◌∷◌, map, ◌⊎◌, inl, inr}
use mathlib.Core.Path.{subst}
use tp.Text.{Text, text_eq}
use tp.World.{Platform, World, Content, Outcome, done, failed}
use tp.Db.Laws.{stored, Field, entries, value_after, NoKey, entries-NoKey, apply_batch-Avoids}
use tp.Data.Constants.{status_database_error, suffix_file_revision}
use tp.Data.Keys.{generate_dir_key, generate_file_key}
use tp.Data.Files
use tp.Data.Files.{FileInfo}
use tp.Data.Directories
use tp.Data.Directories.{DirInfo}
use tp.Data.Saving.{save, Saved, save-Saved}
use tp.Data.Saving.Specs.{
  info_fields, modify_file_info-save, dir_fields, modify_directory_info-save,
  modify_file_revision-save,
}
use tp.Data.Stored.{FileStored, DirStored, file_items, dir_items}
use tp.Data.Stored.Batches.{
  FileInfoAfter, FileStored-FileInfoAfter, DirInfoAfter, DirStored-DirInfoAfter,
}

-- How an operation on one file ends. `id` is the file's, `held` what is stored of it afterwards if
-- the operation succeeds; otherwise the status is a database error and the database is as before.
abbrev pub FileWritten :
    ⦃P : Platform⦄ → Text → FileInfo → World → Outcome (Unit {0}) × World → Type 0
FileWritten id held w (r, w') =
    ((r ≡ done tt)
      × FileStored (stored w') id held
      × ((k : Text) → NoKey (generate_file_key id) file_items k → stored w' k ≡ stored w k))
    ⊎ ((r ≡ failed) × (stored w' ≡ stored w) × (w'.status ≡ status_database_error))

-- The same for a directory.
abbrev pub DirWritten :
    ⦃P : Platform⦄ → Text → DirInfo → World → Outcome (Unit {0}) × World → Type 0
DirWritten id held w (r, w') =
    ((r ≡ done tt)
      × DirStored (stored w') id held
      × ((k : Text) → NoKey (generate_dir_key id) dir_items k → stored w' k ≡ stored w k))
    ⊎ ((r ≡ failed) × (stored w' ≡ stored w) × (w'.status ≡ status_database_error))

module _ ⦃P : Platform⦄ where
  FileWritten-Saved :
      (id : Text) (fields : List Field) (j : FileInfo) (w : World) (o : Outcome (Unit {0}) × World)
      → FileInfoAfter (stored w) id fields j
      → ((k : Text)
          → NoKey (generate_file_key id) file_items k
          → NoKey (generate_file_key id) (map (λ f. f.0) fields) k)
      → Saved (entries (generate_file_key id) fields) w o
      → FileWritten id j w o
  FileWritten-Saved id fields j w o a only (inl (r, c, _)) = inl (
    r,
    subst (λ c. FileStored c id j) (sym c) (FileStored-FileInfoAfter (stored w) id fields j a),
    λ k h.
        ap (λ (c : Content). c k) c
        ∙ apply_batch-Avoids _ (stored w) k
            (entries-NoKey (generate_file_key id) fields k (only k h)),
  )
  FileWritten-Saved id fields j w o a only (inr f) = inr f

  file_written :
      (id : Text) (fields : List Field) (j : FileInfo) (w : World) {o : Outcome (Unit {0}) × World}
      → o ≡ save (entries (generate_file_key id) fields) w
      → FileInfoAfter (stored w) id fields j
      → ((k : Text)
          → NoKey (generate_file_key id) file_items k
          → NoKey (generate_file_key id) (map (λ f. f.0) fields) k)
      → FileWritten id j w o
  file_written id fields j w e a only = subst (FileWritten id j w) (sym e) (
      FileWritten-Saved id fields j w (save (entries (generate_file_key id) fields) w) a only
        (save-Saved (entries (generate_file_key id) fields) w))

  DirWritten-Saved :
      (id : Text) (fields : List Field) (j : DirInfo) (w : World) (o : Outcome (Unit {0}) × World)
      → DirInfoAfter (stored w) id fields j
      → ((k : Text)
          → NoKey (generate_dir_key id) dir_items k
          → NoKey (generate_dir_key id) (map (λ f. f.0) fields) k)
      → Saved (entries (generate_dir_key id) fields) w o
      → DirWritten id j w o
  DirWritten-Saved id fields j w o a only (inl (r, c, _)) = inl (
    r,
    subst (λ c. DirStored c id j) (sym c) (DirStored-DirInfoAfter (stored w) id fields j a),
    λ k h.
        ap (λ (c : Content). c k) c
        ∙ apply_batch-Avoids _ (stored w) k
            (entries-NoKey (generate_dir_key id) fields k (only k h)),
  )
  DirWritten-Saved id fields j w o a only (inr f) = inr f

  dir_written :
      (id : Text) (fields : List Field) (j : DirInfo) (w : World) {o : Outcome (Unit {0}) × World}
      → o ≡ save (entries (generate_dir_key id) fields) w
      → DirInfoAfter (stored w) id fields j
      → ((k : Text)
          → NoKey (generate_dir_key id) dir_items k
          → NoKey (generate_dir_key id) (map (λ f. f.0) fields) k)
      → DirWritten id j w o
  dir_written id fields j w e a only = subst (DirWritten id j w) (sym e) (
      DirWritten-Saved id fields j w (save (entries (generate_dir_key id) fields) w) a only
        (save-Saved (entries (generate_dir_key id) fields) w))

  -- A change of the information of a file that is stored writes all of it: the name, extension, date,
  -- tags, users and directory that are given, with the modifier, and keeps the owner, size and
  -- revision. Every key but the ten of this file keeps its value. Or it fails with the status
  -- DATABASE_ERROR, and nothing in the database has changed.
  pub modify_file_info-FileWritten :
      (id name extension date tags users_shared modifier parent : Text) (i : FileInfo) (w : World)
      → FileStored (stored w) id i
      → FileWritten id
          (record {
            name = name;
            extension = extension;
            date_last_mod = date;
            user_last_mod = modifier;
            tags = tags;
            owner = i.owner;
            size = i.size;
            users_shared = users_shared;
            revision = i.revision;
            parent_directory = parent;
          })
          w
          (Files.modify_file_info id name extension date tags users_shared modifier parent w)
  unfolding value_after text_eq
  modify_file_info-FileWritten id name extension date tags users_shared modifier parent i w s =
      file_written id (info_fields name extension date modifier tags users_shared parent) _ w
        (modify_file_info-save id name extension date tags users_shared modifier parent w)
        (record {
          name = refl;
          extension = refl;
          date_last_mod = refl;
          user_last_mod = refl;
          tags = refl;
          owner = s.owner;
          size = s.size;
          users_shared = refl;
          revision = s.revision;
          parent_directory = refl;
        })
        (λ k h. search)

  -- A new revision number is written alone.
  pub modify_file_revision-FileWritten :
      (id revision : Text) (i : FileInfo) (w : World)
      → FileStored (stored w) id i
      → FileWritten id
          (record i { revision = revision })
          w
          (Files.modify_file_revision id revision w)
  unfolding value_after text_eq
  modify_file_revision-FileWritten id revision i w s =
      file_written id ((suffix_file_revision, some revision) ∷ []) _ w
        (modify_file_revision-save id revision w)
        (record {
          name = s.name;
          extension = s.extension;
          date_last_mod = s.date_last_mod;
          user_last_mod = s.user_last_mod;
          tags = s.tags;
          owner = s.owner;
          size = s.size;
          users_shared = s.users_shared;
          revision = refl;
          parent_directory = s.parent_directory;
        })
        (λ k h. search)

  -- A change of the information of a directory that is stored writes the name, date, tags and size
  -- that are given, and keeps the owner, the parent and the contents. Every key but the eight of this
  -- directory keeps its value. Or it fails with the status DATABASE_ERROR, and nothing in the database
  -- has changed.
  pub modify_directory_info-DirWritten :
      (id name date tags size : Text) (i : DirInfo) (w : World)
      → DirStored (stored w) id i
      → DirWritten id
          (record i { name = name; date_last_mod = date; tags = tags; size = size })
          w
          (Directories.modify_directory_info id name date tags size w)
  unfolding value_after text_eq
  modify_directory_info-DirWritten id name date tags size i w s =
      dir_written id (dir_fields name date tags size) _ w
        (modify_directory_info-save id name date tags size w)
        (record {
          name = refl;
          date_last_mod = refl;
          tags = refl;
          owner = s.owner;
          parent_directory = s.parent_directory;
          files_contained = s.files_contained;
          directories_contained = s.directories_contained;
          size = refl;
        })
        (λ k h. search)
