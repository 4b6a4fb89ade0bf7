-- ===== src/Data/Saving/Specs.antt =====
-- Each operation that only writes is one atomic write of its batch.
use tp.Common.{◌≡◌, refl, Option, none, some, [], ◌∷◌, arith}
use tp.Text.{Text}
use tp.World.{Platform, World, ◌>>=◌}
use tp.Db
use tp.Db.Laws.{entries}
use tp.Data.Constants.{suffix_file_revision}
use tp.Data.Keys.{generate_dir_key, generate_file_key}
use tp.Data.Access.{write_batch_or_error}
use tp.Data.Directories
use tp.Data.Files
use tp.Data.Saving.{save}
pub use tp.Data.Saving.Fields.{
  info_fields, new_file_fields, new_file_batch, deleted_file_fields, dir_fields, new_dir_fields,
  new_dir_batch, deleted_dir_fields,
}

module _ ⦃P : Platform⦄ where
  modify_file_info_at :
      (id name extension date tags users_shared modifier parent : Text) (w : World)
      (o : Option P.rocks.Handle)
      → let v = record w { db = o } in
        Files.modify_file_info id name extension date tags users_shared modifier parent v
        ≡ save
            (entries
              (generate_file_key id)
              (info_fields name extension date modifier tags users_shared parent))
            v
  unfolding Files.modify_file_info Files.put_file Db.clear_batch Db.put_batch Db.write_batch
      write_batch_or_error save ◌>>=◌
  modify_file_info_at id name extension date tags users_shared modifier parent w none = refl
  modify_file_info_at id name extension date tags users_shared modifier parent w (some h) =
      ground arith

  pub modify_file_info-save :
      (id name extension date tags users_shared modifier parent : Text) (w : World)
      → Files.modify_file_info id name extension date tags users_shared modifier parent w
        ≡ save
            (entries
              (generate_file_key id)
              (info_fields name extension date modifier tags users_shared parent))
            w
  modify_file_info-save id name extension date tags users_shared modifier parent w =
      modify_file_info_at id name extension date tags users_shared modifier parent w w.db

  modify_file_revision_at :
      (id revision : Text) (w : World) (o : Option P.rocks.Handle)
      → let v = record w { db = o } in
        Files.modify_file_revision id revision v
        ≡ save (entries (generate_file_key id) ((suffix_file_revision, some revision) ∷ [])) v
  unfolding Files.modify_file_revision Files.put_file Db.clear_batch Db.put_batch Db.write_batch
      write_batch_or_error save ◌>>=◌
  modify_file_revision_at id revision w none = refl
  modify_file_revision_at id revision w (some h) = ground arith

  pub modify_file_revision-save :
      (id revision : Text) (w : World)
      → Files.modify_file_revision id revision w
        ≡ save (entries (generate_file_key id) ((suffix_file_revision, some revision) ∷ [])) w
  modify_file_revision-save id revision w = modify_file_revision_at id revision w w.db

  delete_file_at :
      (id : Text) (w : World) (o : Option P.rocks.Handle)
      → let v = record w { db = o } in
        Files.delete_file id v ≡ save (entries (generate_file_key id) deleted_file_fields) v
  unfolding Files.delete_file Files.erase_file Db.clear_batch Db.erase_batch Db.write_batch
      write_batch_or_error save ◌>>=◌
  delete_file_at id w none = refl
  delete_file_at id w (some h) = ground arith

  pub delete_file-save :
      (id : Text) (w : World)
      → Files.delete_file id w ≡ save (entries (generate_file_key id) deleted_file_fields) w
  delete_file-save id w = delete_file_at id w w.db

  write_new_file_at :
      (user_id name extension date size revision parent id files_contained : Text) (w : World)
      (o : Option P.rocks.Handle)
      → let v = record w { db = o } in
        Files.write_new_file user_id name extension date size revision parent id files_contained v
        ≡ save
            (new_file_batch user_id name extension date size revision parent id files_contained)
            v
  unfolding Files.write_new_file Files.put_file Directories.put_dir Db.clear_batch Db.put_batch
      Db.write_batch write_batch_or_error save ◌>>=◌
  write_new_file_at user_id name extension date size revision parent id files_contained w none =
      refl
  write_new_file_at user_id name extension date size revision parent id files_contained w (some h) =
      ground arith

  pub write_new_file-save :
      (user_id name extension date size revision parent id files_contained : Text) (w : World)
      → Files.write_new_file user_id name extension date size revision parent id files_contained w
        ≡ save
            (new_file_batch user_id name extension date size revision parent id files_contained)
            w
  write_new_file-save user_id name extension date size revision parent id files_contained w =
      write_new_file_at user_id name extension date size revision parent id files_contained w w.db

  modify_directory_info_at :
      (id name date tags size : Text) (w : World) (o : Option P.rocks.Handle)
      → let v = record w { db = o } in
        Directories.modify_directory_info id name date tags size v
        ≡ save (entries (generate_dir_key id) (dir_fields name date tags size)) v
  unfolding Directories.modify_directory_info Directories.put_dir Db.clear_batch Db.put_batch
      Db.write_batch write_batch_or_error save ◌>>=◌
  modify_directory_info_at id name date tags size w none = refl
  modify_directory_info_at id name date tags size w (some h) = ground arith

  pub modify_directory_info-save :
      (id name date tags size : Text) (w : World)
      → Directories.modify_directory_info id name date tags size w
        ≡ save (entries (generate_dir_key id) (dir_fields name date tags size)) w
  modify_directory_info-save id name date tags size w =
      modify_directory_info_at id name date tags size w w.db

  delete_directory_at :
      (id : Text) (w : World) (o : Option P.rocks.Handle)
      → let v = record w { db = o } in
        Directories.delete_directory id v
        ≡ save (entries (generate_dir_key id) deleted_dir_fields) v
  unfolding Directories.delete_directory Directories.erase_dir Db.clear_batch Db.erase_batch
      Db.write_batch write_batch_or_error save ◌>>=◌
  delete_directory_at id w none = refl
  delete_directory_at id w (some h) = ground arith

  pub delete_directory-save :
      (id : Text) (w : World)
      → Directories.delete_directory id w
        ≡ save (entries (generate_dir_key id) deleted_dir_fields) w
  delete_directory-save id w = delete_directory_at id w w.db

  write_new_dir_at :
      (user_id name date parent id directories_contained : Text) (w : World)
      (o : Option P.rocks.Handle)
      → let v = record w { db = o } in
        Directories.write_new_dir user_id name date parent id directories_contained v
        ≡ save (new_dir_batch user_id name date parent id directories_contained) v
  unfolding Directories.write_new_dir Directories.put_dir Db.clear_batch Db.put_batch Db.write_batch
      write_batch_or_error save ◌>>=◌
  write_new_dir_at user_id name date parent id directories_contained w none = ground arith
  write_new_dir_at user_id name date parent id directories_contained w (some h) = ground arith

  pub write_new_dir-save :
      (user_id name date parent id directories_contained : Text) (w : World)
      → Directories.write_new_dir user_id name date parent id directories_contained w
        ≡ save (new_dir_batch user_id name date parent id directories_contained) w
  write_new_dir-save user_id name date parent id directories_contained w =
      write_new_dir_at user_id name date parent id directories_contained w w.db
