-- ===== src/Storage/FileHandler.antt =====
-- server/src/file_handler.cc
use tp.Common.{ℕ, Option, none, some, [], ◌++◌, length, ltb, if◌then◌else◌}
use mathlib.Core.List.{◌∷◌}
use tp.Common.{zero, suc}
use tp.Text.{Text, codes}
use tp.World.{Platform, World, M, pure, crash, undefined_behaviour}

-- The bytes that `fwrite` reads behind a pointer.
abbrev take : ℕ → Text → Text
take zero bytes = []
take (suc n) [] = []
take (suc n) (b ∷ bytes) = b ∷ take n bytes

abbrev written_bytes : Option ℕ → ℕ
written_bytes none = 0
written_bytes (some n) = n

module _ ⦃P : Platform⦄ where
  -- The bytes of the file, whose number is returned; none on every error.
  unfoldable pub load_file : Text → World → Text
  load_file file_name w = elim (P.files.read_file w.disk file_name) [
    | none ↦ []
    | some bytes ↦ bytes
  ]

  -- The number of bytes written, 0 where the file does not open. `size_stream` bytes are read behind
  -- the pointer: more than there are is undefined behaviour.
  unfoldable pub save_file : Text → Text → ℕ → M ℕ
  save_file file_name stream size_stream w =
      let (result, disk) = P.files.write_file w.disk file_name (take size_stream stream) in
      if ltb (length stream) size_stream
      then crash undefined_behaviour w
      else pure (written_bytes result) (record w { disk = disk })

  unfoldable pub delete_file : Text → M Unit
  delete_file file_name w =
      pure tt (record w { disk = P.files.system w.disk (codes "rm -f " ++ file_name) })
