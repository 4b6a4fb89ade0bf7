-- ===== src/World/Interfaces.antt =====
-- The parameters: the RocksDB calls of server/src/db_handler.cc, the stdio calls and `system` of
-- server/src/file_handler.cc and server/src/zip_handler.cc, and the printed percentage, a `float`.
use tp.Common.{ℕ, ◌≡◌, Bool, Option, none, some, List, [], ◌∷◌, if◌then◌else◌}
use tp.Text.{Text, text_eq}

-- What a database holds: a value for each key, or nothing.
abbrev pub Content : Type 0
Content = Text → Option Text

-- An entry of a write batch.
pub data Update : Type 0 where
  put_update : Text → Text → Update
  erase_update : Text → Update

abbrev pub put_content : Text → Text → Content → Content
put_content key value content k = if text_eq key k then some value else content k

abbrev pub erase_content : Text → Content → Content
erase_content key content k = if text_eq key k then none else content k

abbrev pub apply_update : Update → Content → Content
apply_update (put_update key value) = put_content key value
apply_update (erase_update key) = erase_content key

-- A batch is applied from its first entry to its last.
unfoldable pub apply_batch : List Update → Content → Content
apply_batch [] content = content
apply_batch (u ∷ us) content = apply_batch us (apply_update u content)

-- The answer of `DB::Get`: a value, `NotFound`, or any other status.
pub data Reply : Type 0 where
  found : Text → Reply
  not_found get_error : Reply

-- `DB::Get`, `DB::Put`, `DB::Delete` and `DB::Write`; the Boolean is `Status::ok()`. A read does not change the
-- database. The laws: a read that succeeds answers by the content, a write that succeeds takes
-- effect as a whole, and one that fails not at all.
pub record RocksDb : Type 1 where
  pub Handle : Type 0
  pub content : Handle → Content
  pub open_path : Text → Option Handle
  pub get : Handle → Text → Reply
  pub put : Handle → Text → Text → Bool × Handle
  pub delete : Handle → Text → Bool × Handle
  pub write : Handle → List Update → Bool × Handle
  pub get_found : (h : Handle) (k v : Text) → get h k ≡ found v → content h k ≡ some v
  pub get_not_found : (h : Handle) (k : Text) → get h k ≡ not_found → content h k ≡ none
  pub content-put :
      (h : Handle) (k v : Text)
      → content (put h k v).1 ≡ (if (put h k v).0 then put_content k v (content h) else content h)
  pub content-delete :
      (h : Handle) (k : Text)
      → content (delete h k).1 ≡ (if (delete h k).0 then erase_content k (content h) else content h)
  pub content-write :
      (h : Handle) (b : List Update)
      → content (write h b).1 ≡ (if (write h b).0 then apply_batch b (content h) else content h)

-- `read_file` is `fopen(…, "rb")`, `fread` of the whole file and `fclose`: `none` where one of them
-- fails. `write_file` is `fopen(…, "wb")` and `fwrite`: `none` where the file does not open, or the
-- number of bytes written. `system` runs a command of the shell, which may do anything to the files
-- but those of the database.
pub record FileSystem : Type 1 where
  pub Disk : Type 0
  pub read_file : Disk → Text → Option Text
  pub write_file : Disk → Text → Text → Option ℕ × Disk
  pub system : Disk → Text → Disk

pub record Platform : Type 1 where
  pub rocks : RocksDb
  pub files : FileSystem
  -- `(float)used * 100 / (float)total` with two decimals
  pub percentage : ℕ → ℕ → Text
  -- how many calls of a recursive function fit on the stack
  pub stack_depth : ℕ
