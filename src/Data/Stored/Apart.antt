-- ===== src/Data/Stored/Apart.antt =====
-- `modify_file_info` and `add_file` of server/src/data_handler.cc and what is stored of other files.
use mathlib.Core.Path.{subst}
use tp.Common.{◌≡◌, refl, ◌≢◌, ◌∙◌, sym, false, List, [], ◌∷◌, All, inl, inr, Bool-cases, arith}
use tp.Text.{Text, text_eq, text_eq_iff}
use tp.Text.Decimal.{Digits}
use tp.World.{Platform, World, Content, Outcome, done}
use tp.Db.Laws.{stored, NoKey}
use tp.Data.Constants.{
  suffix_name, suffix_extension, suffix_date_last_mod, suffix_user_last_mod, suffix_tags,
  suffix_owner, suffix_size, suffix_users_shared, suffix_file_revision, suffix_parent_directory,
  suffix_files_contained, suffix_directories_contained, suffix_file_id,
}
use tp.Data.Keys.{generate_dir_key, generate_file_key}
use tp.Data.Keys.Laws.{IsItem, file_key_ids, dir_key-file_key, file_key-dir_key, file_key-ticket}
use tp.Data.Files
use tp.Data.Files.{FileInfo}
use tp.Data.Directories.{DirInfo}
use tp.Data.Stored.{FileStored, DirStored, file_items}
use tp.Data.Stored.Creation.{add_file-FileCreated}
use tp.Data.Stored.Writers.{FileWritten, modify_file_info-FileWritten}

-- Where the items of a file are as they were, what is stored of it is what it was.
module _ (id : Text) (c c' : Content) where
  FileStored-same :
      (i : FileInfo)
      → ((s : Text) → IsItem s → c' (generate_file_key id s) ≡ c (generate_file_key id s))
      → FileStored c id i
      → FileStored c' id i
  FileStored-same i h s = record {
    name = h suffix_name refl ∙ s.name;
    extension = h suffix_extension refl ∙ s.extension;
    date_last_mod = h suffix_date_last_mod refl ∙ s.date_last_mod;
    user_last_mod = h suffix_user_last_mod refl ∙ s.user_last_mod;
    tags = h suffix_tags refl ∙ s.tags;
    owner = h suffix_owner refl ∙ s.owner;
    size = h suffix_size refl ∙ s.size;
    users_shared = h suffix_users_shared refl ∙ s.users_shared;
    revision = h suffix_file_revision refl ∙ s.revision;
    parent_directory = h suffix_parent_directory refl ∙ s.parent_directory;
  }

  DirStored-same :
      (i : DirInfo)
      → ((s : Text) → IsItem s → c' (generate_dir_key id s) ≡ c (generate_dir_key id s))
      → DirStored c id i
      → DirStored c' id i
  DirStored-same i h s = record {
    name = h suffix_name refl ∙ s.name;
    date_last_mod = h suffix_date_last_mod refl ∙ s.date_last_mod;
    tags = h suffix_tags refl ∙ s.tags;
    owner = h suffix_owner refl ∙ s.owner;
    parent_directory = h suffix_parent_directory refl ∙ s.parent_directory;
    files_contained = h suffix_files_contained refl ∙ s.files_contained;
    directories_contained = h suffix_directories_contained refl ∙ s.directories_contained;
    size = h suffix_size refl ∙ s.size;
  }

different : (a b : Text) → a ≢ b → text_eq a b ≡ false
different a b h = elim (Bool-cases (text_eq a b)) [
  | inl e ↦ absurd (h ((text_eq_iff a b).0 e))
  | inr e ↦ e
]

All-of : (P Q : Text → Type 0) → ((s : Text) → P s → Q s) → (xs : List Text) → All P xs → All Q xs
All-of P Q f [] h = tt
All-of P Q f (x ∷ xs) h = (f x h.0, All-of P Q f xs h.1)

file_items-IsItem : All IsItem file_items
file_items-IsItem = omega arith

-- The key of an item of a file is none of those of another file.
NoKey-other_file :
    (id other t : Text)
    → Digits id
    → Digits other
    → id ≢ other
    → IsItem t
    → NoKey (generate_file_key id) file_items (generate_file_key other t)
NoKey-other_file id other t di dj apart ht =
    All-of IsItem (λ s. text_eq (generate_file_key id s) (generate_file_key other t) ≡ false)
      (λ s hs. file_key_ids id other s t di dj hs ht ∙ rw (different id other apart) refl)
      file_items file_items-IsItem

-- The key of an item of a directory is none of those of a file.
NoKey-directory :
    (id other t : Text) → NoKey (generate_file_key id) file_items (generate_dir_key other t)
NoKey-directory id other t =
    All-of IsItem (λ s. text_eq (generate_file_key id s) (generate_dir_key other t) ≡ false)
      (λ s hs. dir_key-file_key id s other t) file_items file_items-IsItem

module _ ⦃P : Platform⦄ (id : Text) (held : FileInfo) (w : World) where
  -- What is written of one file leaves another one alone, and every directory.
  FileWritten-FileStored :
      (other : Text) (i : FileInfo) (o : Outcome (Unit {0}) × World)
      → FileWritten id held w o
      → Digits id
      → Digits other
      → id ≢ other
      → FileStored (stored w) other i
      → FileStored (stored o.1) other i
  FileWritten-FileStored other i o (inl (_, _, kept)) di dj apart s =
      FileStored-same other (stored w) (stored o.1) i
        (λ t ht. kept _ (NoKey-other_file id other t di dj apart ht)) s
  FileWritten-FileStored other i o (inr (_, same, _)) di dj apart s =
      subst (λ c. FileStored c other i) (sym same) s

  FileWritten-DirStored :
      (dir : Text) (d : DirInfo) (o : Outcome (Unit {0}) × World)
      → FileWritten id held w o
      → DirStored (stored w) dir d
      → DirStored (stored o.1) dir d
  FileWritten-DirStored dir d o (inl (_, _, kept)) s =
      DirStored-same dir (stored w) (stored o.1) d (λ t ht. kept _ (NoKey-directory id dir t)) s
  FileWritten-DirStored dir d o (inr (_, same, _)) s = subst (λ c. DirStored c dir d) (sym same) s

module _ ⦃P : Platform⦄ where
  -- While the information of a file that is stored is changed, what is stored of another file, and of
  -- a directory, stays as it is, whether the change succeeds or not; for two files with different
  -- decimal ids.
  pub modify_file_info_keeps_others :
      (id name extension date tags users_shared modifier parent : Text) (i : FileInfo)
      (other : Text) (j : FileInfo) (dir : Text) (d : DirInfo) (w : World)
      → Digits id
      → Digits other
      → id ≢ other
      → FileStored (stored w) id i
      → FileStored (stored w) other j
      → DirStored (stored w) dir d
      → let w' =
          (Files.modify_file_info id name extension date tags users_shared modifier parent w).1 in
        FileStored (stored w') other j × DirStored (stored w') dir d
  modify_file_info_keeps_others id name extension date tags users_shared modifier parent i other j
        dir d w di dj apart si sj sd =
      let o = Files.modify_file_info id name extension date tags users_shared modifier parent w in
      let written =
        modify_file_info-FileWritten id name extension date tags users_shared modifier parent i w
          si in
      (
        FileWritten-FileStored id _ w other j o written di dj apart sj,
        FileWritten-DirStored id _ w dir d o written sd,
      )

  -- When a file is added, under an id that is decimal and another one than that of a file that is
  -- stored, what is stored of that file stays as it is.
  pub add_file_keeps_files :
      (user_id name extension date size revision parent id : Text) (other : Text) (j : FileInfo)
      (w w' : World)
      → Files.add_file user_id name extension date size revision parent w ≡ (done id, w')
      → Digits id
      → Digits other
      → id ≢ other
      → FileStored (stored w) other j
      → FileStored (stored w') other j
  add_file_keeps_files user_id name extension date size revision parent id other j w w' added di dj
        apart s =
      let c = add_file-FileCreated user_id name extension date size revision parent id w w' added in
      FileStored-same other (stored w) (stored w') j
        (λ t ht.
          c.others (generate_file_key other t) (file_key-ticket suffix_file_id other t)
            (NoKey-other_file id other t di dj apart ht)
            (file_key-dir_key parent suffix_files_contained other t))
        s
