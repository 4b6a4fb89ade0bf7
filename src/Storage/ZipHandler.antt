-- ===== src/Storage/ZipHandler.antt =====
-- server/src/zip_handler.cc: the directory tree is copied and packed by commands of the shell. The
-- names stand in them as they are: what a name with letters that the shell reads may run is left to
-- `system`.
use tp.Common.{List, [], ◌∷◌, ◌++◌}
use tp.Text.{Text, codes}
use tp.World.{Platform, M, pure, ◌>>◌}

-- file_st
pub record ZipFile : Type 0 where
  pub file_id : Text
  pub file_real_name : Text

mutual
  -- dir_tree_node_st
  pub data DirTree : Type 0 where
    node : Text → List ZipFile → SubDirs → DirTree

  pub data SubDirs : Type 0 where
    no_dirs : SubDirs
    sub_dir : DirTree → SubDirs → SubDirs

-- `if( !dir_path.compare("")==0 ){ dir_path.append("/"); }  dir_path.append(name)`
abbrev sub_path : Text → Text → Text
sub_path [] name = name
sub_path (c ∷ dir_path) name = (c ∷ dir_path) ++ codes "/" ++ name

module _ ⦃P : Platform⦄ where
  unfoldable pub run_command : Text → M Unit
  run_command command w = pure tt (record w { disk = P.files.system w.disk command })

  unfoldable pub copy_files : Text → List ZipFile → M Unit
  unfolding run_command
  copy_files dir_path [] = pure tt
  copy_files dir_path (f ∷ files) = do
    run_command (codes "cp " ++ f.file_id ++ codes " " ++ dir_path ++ codes "/" ++ f.file_real_name)
    copy_files dir_path files

  unfoldable mutual
    pub create_file_structure_recursive : Text → DirTree → M Unit
    create_file_structure_recursive dir_path (node name files sub_dirs) = do
      run_command (codes "mkdir -p " ++ sub_path dir_path name)
      copy_files (sub_path dir_path name) files
      create_sub_dirs (sub_path dir_path name) sub_dirs

    pub create_sub_dirs : Text → SubDirs → M Unit
    create_sub_dirs dir_path no_dirs = pure tt
    create_sub_dirs dir_path (sub_dir tree rest) = do
      create_file_structure_recursive dir_path tree
      create_sub_dirs dir_path rest

  abbrev pub dir_node_name : DirTree → Text
  dir_node_name (node name files sub_dirs) = name

  unfoldable pub create_zip : Text → DirTree → M Unit
  unfolding create_file_structure_recursive create_sub_dirs run_command
  create_zip zip_name tree = do
    create_file_structure_recursive [] tree
    run_command (codes "zip -r -1 " ++ zip_name ++ codes " " ++ dir_node_name tree)
    run_command (codes "rm -rf " ++ dir_node_name tree)
