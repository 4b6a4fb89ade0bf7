-- ===== src/Db.antt =====
-- DbHandler, server/src/db_handler.cc: the calls of RocksDB, behind a pointer that may be null, and
-- the one write batch. The Boolean results are `check_status`.
pub mod Laws
pub mod Memory
pub mod Keeps
use tp.Common.{Bool, true, false, Option, none, some, List, [], ◌∷◌, ◌++◌}
use tp.Text.{Text}
use tp.World.{
  Platform, RocksDb, Update, put_update, erase_update, Reply, found, not_found, get_error, World, M,
  pure, crash, undefined_behaviour,
}

module _ ⦃P : Platform⦄ where
  unfoldable pub open_db : Text → M Bool
  open_db filename w = elim (P.rocks.open_path filename) [
    | none ↦ pure false w
    | some h ↦ pure true (record w { db = some h })
  ]

  unfoldable pub put : Text → Text → M Bool
  put key value w = elim w.db [
    | none ↦ pure false w
    | some h ↦ let (ok, h') = P.rocks.put h key value in pure ok (record w { db = some h' })
  ]

  -- `found` and `not_found` are `return true` with that flag, `get_error` is `return false`.
  unfoldable pub get : Text → World → Reply
  get key w = elim w.db [ none ↦ get_error | some h ↦ P.rocks.get h key ]

  -- `db_` is used without a test.
  unfoldable pub erase : Text → M Bool
  erase key w = elim w.db [
    | none ↦ crash undefined_behaviour w
    | some h ↦ let (ok, h') = P.rocks.delete h key in pure ok (record w { db = some h' })
  ]

  unfoldable pub erase_batch : Text → M Unit
  erase_batch key w = elim w.db [
    | none ↦ pure tt w
    | some _ ↦ pure tt (record w { batch = w.batch ++ erase_update key ∷ [] })
  ]

  unfoldable pub put_batch : Text → Text → M Unit
  put_batch key value w = elim w.db [
    | none ↦ pure tt w
    | some _ ↦ pure tt (record w { batch = w.batch ++ put_update key value ∷ [] })
  ]

  unfoldable pub clear_batch : M Unit
  clear_batch w = elim w.db [ none ↦ pure tt w | some _ ↦ pure tt (record w { batch = [] }) ]

  unfoldable pub write_batch : M Bool
  write_batch w = elim w.db [
    | none ↦ pure false w
    | some h ↦ let (ok, h') = P.rocks.write h w.batch in pure ok (record w { db = some h' })
  ]
