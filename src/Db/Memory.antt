-- ===== src/Db/Memory.antt =====
-- A database in memory, whose reads and writes do not fail, and a platform around it.
use tp.Common.{◌≡◌, refl, true, Option, none, some}
use tp.Text.{Text, codes}
use tp.Common.{length}
use tp.World.{
  Platform, RocksDb, FileSystem, Content, put_content, erase_content, apply_batch, Reply, found,
  not_found,
}

abbrev pub answer : Option Text → Reply
answer none = not_found
answer (some v) = found v

pub answer_found : (o : Option Text) (v : Text) → answer o ≡ found v → o ≡ some v
answer_found none v h = cc
answer_found (some u) v h = cc

pub answer_not_found : (o : Option Text) → answer o ≡ not_found → o ≡ none
answer_not_found none h = refl
answer_not_found (some u) h = cc

abbrev pub memory_rocks : RocksDb
memory_rocks = record {
  Handle = Content;
  content = λ h. h;
  open_path = λ filename. some (λ k. none);
  get = λ h k. answer (h k);
  put = λ h k v. (true, put_content k v h);
  delete = λ h k. (true, erase_content k h);
  write = λ h b. (true, apply_batch b h);
  get_found = λ h k v. answer_found (h k) v;
  get_not_found = λ h k. answer_not_found (h k);
  content-put = λ h k v. refl;
  content-delete = λ h k. refl;
  content-write = λ h b. refl;
}

-- Files by name; the shell is not used by what runs on this platform.
abbrev pub memory_files : FileSystem
memory_files = record {
  Disk = Text → Option Text;
  read_file = λ d name. d name;
  write_file = λ d name bytes. (some (length bytes), put_content name bytes d);
  system = λ d command. d;
}

instance abbrev pub memory : Platform
memory = record {
  rocks = memory_rocks;
  files = memory_files;
  percentage = λ used total. codes "0.00";
  stack_depth = 100;
}
