-- ===== src/Data/Stored/Total.antt =====
-- `add_file` returns where the database works.
use tp.Common.{◌+◌, ◌%◌, ◌++◌, ◌∷◌, ℕ, ◌≡◌, refl, true, some, List}
use tp.Text.{Text}
use tp.Text.Decimal.{stoul, to_string, value, word}
use tp.Text.KeyList.{delimiter}
use tp.World.{Platform, Update, World, done, pure, or_status, ◌>>=◌}
use tp.Db
use tp.Db.Laws.{stored}
use tp.Data.Constants.{suffix_files_contained, suffix_file_id}
use tp.Data.Keys.{generate_dir_key, generate_ticket_key}
use tp.Data.Access
use tp.Data.Access.Reading.{Reliable, dbh_get-stored}
use tp.Data.Directories
use tp.Data.Files
use tp.Data.Saving.{save}
use tp.Data.Saving.Specs.{new_file_batch, write_new_file-save}

module _ ⦃P : Platform⦄ where
  -- A database that is open, and that neither reads nor writes fail on.
  pub record Faultless (w : World) : Type 0 where
    pub handle : P.rocks.Handle
    pub is_open : w.db ≡ some handle
    pub reads : Reliable w
    pub puts : (d : P.rocks.Handle) (k v : Text) → (P.rocks.put d k v).0 ≡ true
    pub writes : (d : P.rocks.Handle) (us : List Update) → (P.rocks.write d us).0 ≡ true

  put_works :
      (k v : Text) (w : World) (d : P.rocks.Handle)
      → w.db ≡ some d
      → (P.rocks.put d k v).0 ≡ true
      → Db.put k v w ≡ (done true, record w { db = some (P.rocks.put d k v).1 })
  unfolding Db.put pure
  put_works k v w d e ok = rw (e, ok)

  save_works :
      (us : List Update) (w : World) (d : P.rocks.Handle)
      → w.db ≡ some d
      → (P.rocks.write d us).0 ≡ true
      → (save us w).0 ≡ done tt
  unfolding save
  save_works us w d e ok = rw (e, ok)

  -- A file is added, under the id of the ticket, if the database works, the directory exists and the
  -- ticket is a number.
  pub add_file_returns :
      (user_id name extension date size revision parent files id : Text) (n : ℕ) (w : World)
      → Faultless w
      → stored w (generate_dir_key parent suffix_files_contained) ≡ some files
      → stored w (generate_ticket_key suffix_file_id) ≡ some id
      → stoul id ≡ value n
      → (Files.add_file user_id name extension date size revision parent w).0 ≡ done id
  unfolding Files.add_file Directories.get_dir Access.create_id Access.take_ticket or_status pure
      ◌>>=◌
  add_file_returns user_id name extension date size revision parent files id n w f dir ticket
        number =
      let key = generate_ticket_key suffix_file_id in
      let d : P.rocks.Handle = (P.rocks.put f.handle key (to_string ((n + 1) % word))).1 in
      let v : World = record w { db = some d } in
      let batch =
        new_file_batch user_id name extension date size revision parent id
          (files ++ delimiter ∷ id) in
      rw (
        dbh_get-stored _ _ w f.reads dir,
        f.reads key,
        ticket,
        number,
        put_works key _ w f.handle f.is_open (f.puts f.handle key _),
        write_new_file-save,
        save_works batch v d refl (f.writes d batch),
      )
