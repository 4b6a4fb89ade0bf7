-- ===== src/Dispatcher/Frames/Files.antt =====
-- The files of the server are not the database: what is done to them keeps every key.
use tp.Common.{◌≡◌, refl, ap, ℕ, Bool, true, false, List, [], ◌∷◌, if◌then◌else◌, ltb, length}
use tp.Text.{Text}
use tp.World.{Platform, Content, World, pure, crash, undefined_behaviour}
use tp.Db.Laws.{stored}
use tp.Db.Keeps.{Keeps, Keeps-pure, Keeps-bind}
use tp.Storage.FileHandler
use tp.Storage.ZipHandler
use tp.Storage.ZipHandler.{ZipFile, DirTree, node, SubDirs, no_dirs, sub_dir}

module _ ⦃P : Platform⦄ where
  saving_at :
      (k : Text) (b : Bool) (n : ℕ) (w w' : World)
      → stored w' ≡ stored w
      → stored ((if b then crash undefined_behaviour w else pure n w').1) k ≡ stored w k
  unfolding pure crash
  saving_at k true n w w' h = refl
  saving_at k false n w w' h = ap (λ (c : Content). c k) h

module _ ⦃P : Platform⦄ {k : Text} where
  pub Keeps-remove_bytes : (name : Text) → Keeps k (FileHandler.delete_file name)
  unfolding FileHandler.delete_file pure
  Keeps-remove_bytes name = record { at = λ w. refl }

  pub Keeps-save_bytes :
      (name stream : Text) (n : ℕ) → Keeps k (FileHandler.save_file name stream n)
  unfolding FileHandler.save_file
  Keeps-save_bytes name stream n = record {
    at = λ w. saving_at k (ltb (length stream) n) _ w _ refl;
  }

  Keeps-run_command : (command : Text) → Keeps k (ZipHandler.run_command command)
  unfolding ZipHandler.run_command pure
  Keeps-run_command command = record { at = λ w. refl }

  Keeps-copy_files :
      (path : Text) (files : List ZipFile) → Keeps k (ZipHandler.copy_files path files)
  unfolding ZipHandler.copy_files
  Keeps-copy_files path [] = Keeps-pure tt
  Keeps-copy_files path (f ∷ files) =
      Keeps-bind _ _ (Keeps-run_command _) λ _. Keeps-copy_files path files

  mutual
    unfolding ZipHandler.create_file_structure_recursive ZipHandler.create_sub_dirs

    Keeps-create_structure :
        (path : Text) (tree : DirTree)
        → Keeps k (ZipHandler.create_file_structure_recursive path tree)
    Keeps-create_structure path (node name files dirs) =
        Keeps-bind _ _ (Keeps-run_command _)
          λ _. Keeps-bind _ _ (Keeps-copy_files _ files) λ _. Keeps-create_sub_dirs _ dirs

    Keeps-create_sub_dirs :
        (path : Text) (dirs : SubDirs) → Keeps k (ZipHandler.create_sub_dirs path dirs)
    Keeps-create_sub_dirs path no_dirs = Keeps-pure tt
    Keeps-create_sub_dirs path (sub_dir tree rest) =
        Keeps-bind _ _ (Keeps-create_structure path tree) λ _. Keeps-create_sub_dirs path rest

  pub Keeps-create_zip : (name : Text) (tree : DirTree) → Keeps k (ZipHandler.create_zip name tree)
  unfolding ZipHandler.create_zip
  Keeps-create_zip name tree =
      Keeps-bind _ _ (Keeps-create_structure [] tree)
        λ _. Keeps-bind _ _ (Keeps-run_command _) λ _. Keeps-run_command _
