-- ===== src/Data/Access/Reading.antt =====
-- How a read of one entry ends, and chains of reads.
use mathlib.Core.Path.{subst}
use tp.Common.{◌≡◌, refl, Option, none, some, arith}
use tp.Text.{Text}
use tp.World.{Platform, Reply, found, not_found, get_error, World, M, done, failed, ◌>>=◌, pure}
use tp.Db
use tp.Db.Laws.{stored}
use tp.Db.Memory.{answer}
use tp.Data.Constants.{status_key_not_found}
use tp.Data.Access.{dbh_get, answer_read}

module _ ⦃P : Platform⦄ where
  -- Every read in this state is answered by the content.
  abbrev pub Reliable : World → Type 0
  Reliable w = (k : Text) → Db.get k w ≡ answer (stored w k)

  get_stored_at :
      (k v : Text) (w : World) (o : Option P.rocks.Handle)
      → Db.get k (record w { db = o }) ≡ found v
      → stored (record w { db = o }) k ≡ some v
  unfolding Db.get
  get_stored_at k v w none h = cc
  get_stored_at k v w (some d) h = P.rocks.get_found d k v h

  pub get_stored : (k v : Text) (w : World) → Db.get k w ≡ found v → stored w k ≡ some v
  get_stored k v w h = get_stored_at k v w w.db h

  pub dbh_get-stored :
      (k v : Text) (w : World) → Reliable w → stored w k ≡ some v → dbh_get k w ≡ (done v, w)
  unfolding dbh_get answer_read ◌>>=◌
  dbh_get-stored k v w r h = cc (r k, h)

  pub dbh_get-missing :
      (k : Text) (w : World)
      → Reliable w
      → stored w k ≡ none
      → dbh_get k w ≡ (failed, record w { status = status_key_not_found })
  unfolding dbh_get answer_read ◌>>=◌
  dbh_get-missing k w r h = cc (r k, h)

  reading_at :
      {B : Type 0} (k : Text) (f : Text → M B) (w : World) {b : B} {w' : World} (r : Reply)
      → Db.get k w ≡ r
      → (answer_read r >>= f) w ≡ (done b, w')
      → (v : Text) × (stored w k ≡ some v) × (f v w ≡ (done b, w'))
  unfolding answer_read ◌>>=◌
  reading_at k f w (found v) e h = (v, get_stored k v w e, h)
  reading_at k f w not_found e h = cc
  reading_at k f w get_error e h = cc

  -- In a chain of reads a read that succeeds gives what is stored, and the rest runs from the same
  -- state.
  pub reading {ℓ} :
      {B : Type 0} {C : Type ℓ} (k : Text) (f : Text → M B) (w : World) {b : B} {w' : World}
      → (dbh_get k >>= f) w ≡ (done b, w')
      → ((v : Text) → stored w k ≡ some v → f v w ≡ (done b, w') → C)
      → C
  unfolding dbh_get ◌>>=◌
  reading k f w h next =
      let (v, stored_v, rest) = reading_at k f w (Db.get k w) refl h in next v stored_v rest

  returned : {A : Type 0} (a b : A) (w w' : World) → pure a w ≡ (done b, w') → (a ≡ b) × (w' ≡ w)
  unfolding pure
  returned a b w w' h = (ground arith, ground arith)

  -- The end of a chain.
  pub returning {ℓ} :
      {A : Type 0} (Q : A → Type ℓ) (a : A) {b : A} (w : World) {w' : World}
      → pure a w ≡ (done b, w')
      → Q a
      → (w' ≡ w) × Q b
  returning Q a w h q = let (e, same) = returned a _ w _ h in (same, subst Q e q)
