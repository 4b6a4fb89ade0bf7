-- ===== src/Data/Saving.antt =====
-- The reference that the writing operations are compared with: one atomic write of a batch.
pub mod Fields
pub mod Specs
use tp.Common.{
  ◌≡◌, refl, ap, ◌∙◌, Bool, true, false, Option, none, some, List, arith, ◌⊎◌, inl, inr, Bool-cases,
  if◌then◌else◌,
}
use tp.Text.{Text}
use tp.World.{Platform, Update, apply_batch, World, M, Outcome, done, failed}
use tp.Db.Laws.{stored}
use tp.Data.Constants.{status_database_error}

module _ ⦃P : Platform⦄ where
  -- All of the batch is written, or the call fails with a database error and nothing is.
  unfoldable pub save : List Update → M Unit
  save us w = elim w.db [
    | none ↦ (failed, record w { status = status_database_error })
    | some h ↦
        let (ok, h') = P.rocks.write h us in
        if ok
        then (done tt, record w { db = some h'; batch = us })
        else (failed, record w { db = some h'; batch = us; status = status_database_error })
  ]

  -- How a write of a batch ends, for the content of the database and the status.
  abbrev pub Saved : List Update → World → Outcome (Unit {0}) × World → Type 0
  Saved us w (r, w') =
      ((r ≡ done tt) × (stored w' ≡ apply_batch us (stored w)) × (w'.status ≡ w.status))
      ⊎ ((r ≡ failed) × (stored w' ≡ stored w) × (w'.status ≡ status_database_error))

  save-Saved_at :
      (us : List Update) (w : World) (o : Option P.rocks.Handle)
      → Saved us (record w { db = o }) (save us (record w { db = o }))
  unfolding save
  save-Saved_at us w none = inr (refl, refl, refl)
  save-Saved_at us w (some h) = elim (Bool-cases (P.rocks.write h us).0) [
    | inl ok ↦ rw ok (inl (refl, P.rocks.content-write h us ∙ rw ok, refl))
    | inr fault ↦ rw fault (inr (refl, P.rocks.content-write h us ∙ rw fault, refl))
  ]

  pub save-Saved : (us : List Update) (w : World) → Saved us w (save us w)
  save-Saved us w = save-Saved_at us w w.db
