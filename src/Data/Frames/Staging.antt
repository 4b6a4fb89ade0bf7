-- ===== src/Data/Frames/Staging.antt =====
-- Actions that gather a batch and write it: they leave the value of a key alone if the batch avoids
-- the key, and it does after `clear_batch`.
use tp.Common.{
  ℕ, ◌≡◌, refl, ap, ◌∙◌, Bool, true, false, Option, none, some, List, [], ◌∷◌, if◌then◌else◌,
  All-append,
}
use tp.Text.{Text, text_eq}
use tp.World.{
  Platform, Reply, found, not_found, get_error, Update, Content, put_update, erase_update,
  apply_batch, World, M, Outcome, done, failed, crashed, pure, fail_with, by_value, or_status,
  ◌>>=◌, ◌>>◌,
}
use tp.Db
use tp.Db.Laws.{stored, Avoids, key_of, apply_batch-Avoids}
use tp.Db.Keeps.{Keeps, put_at}
use tp.Data.Access.{dbh_get, answer_read}

module _ ⦃P : Platform⦄ where
  -- The batch is of no use where there is no database.
  abbrev SafeAt : Text → List Update → Option P.rocks.Handle → Type 0
  SafeAt k batch none = Unit
  SafeAt k batch (some h) = Avoids k batch

  abbrev Safe : Text → World → Type 0
  Safe k w = SafeAt k w.batch w.db

  pub record Stages {A : Type 0} (k : Text) (m : M A) : Type 0 where
    pub at : (w : World) → Safe k w → Safe k (m w).1 × (stored (m w).1 k ≡ stored w k)

  failing-Safe :
      {A : Type 0} (k : Text) (s : ℕ) (w : World) (r : Outcome A)
      → Safe k w
      → Safe k (or_status s (λ _. (r, w)) w).1
        × (stored (or_status s (λ _. (r, w)) w).1 k ≡ stored w k)
  unfolding or_status
  failing-Safe k s w (done a) h = (h, refl)
  failing-Safe k s w failed h = (h, refl)
  failing-Safe k s w (crashed c) h = (h, refl)

  staged_put :
      (k key v : Text) (w : World) (o : Option P.rocks.Handle)
      → Safe k (record w { db = o })
      → Safe k (Db.put key v (record w { db = o })).1
  unfolding Db.put pure
  staged_put k key v w none h = tt
  staged_put k key v w (some d) h = h

  staged_put_batch :
      (k key v : Text) (w : World) (o : Option P.rocks.Handle)
      → text_eq key k ≡ false
      → Safe k (record w { db = o })
      → let w' = (Db.put_batch key v (record w { db = o })).1 in
        Safe k w' × (stored w' k ≡ stored (record w { db = o }) k)
  unfolding Db.put_batch pure
  staged_put_batch k key v w none e h = (tt, refl)
  staged_put_batch k key v w (some d) e h = (
    All-append (λ u. text_eq (key_of u) k ≡ false) w.batch (put_update key v ∷ []) h (e, tt),
    refl,
  )

  staged_erase_batch :
      (k key : Text) (w : World) (o : Option P.rocks.Handle)
      → text_eq key k ≡ false
      → Safe k (record w { db = o })
      → let w' = (Db.erase_batch key (record w { db = o })).1 in
        Safe k w' × (stored w' k ≡ stored (record w { db = o }) k)
  unfolding Db.erase_batch pure
  staged_erase_batch k key w none e h = (tt, refl)
  staged_erase_batch k key w (some d) e h = (
    All-append (λ u. text_eq (key_of u) k ≡ false) w.batch (erase_update key ∷ []) h (e, tt),
    refl,
  )

  written_kept :
      (k : Text) (us : List Update) (c : Content) (b : Bool)
      → Avoids k us
      → (if b then apply_batch us c else c) k ≡ c k
  written_kept k us c true h = apply_batch-Avoids us c k h
  written_kept k us c false h = refl

  staged_write :
      (k : Text) (w : World) (o : Option P.rocks.Handle)
      → Safe k (record w { db = o })
      → let w' = (Db.write_batch (record w { db = o })).1 in
        Safe k w' × (stored w' k ≡ stored (record w { db = o }) k)
  unfolding Db.write_batch pure
  staged_write k w none h = (tt, refl)
  staged_write k w (some d) h = (
    h,
    ap (λ (c : Content). c k) (P.rocks.content-write d w.batch)
        ∙ written_kept k w.batch (P.rocks.content d) (P.rocks.write d w.batch).0 h,
  )

  cleared :
      {A : Type 0} (k : Text) (m : M A) (w : World) (o : Option P.rocks.Handle)
      → Stages k m
      → stored ((Db.clear_batch >> m) (record w { db = o })).1 k ≡ stored (record w { db = o }) k
  unfolding Db.clear_batch ◌>>=◌
  cleared k m w none s = (s.at (record w { db = none }) tt).1
  cleared k m w (some d) s = (s.at (record w { db = some d; batch = [] }) tt).1

module _ ⦃P : Platform⦄ {k : Text} where
  module _ {A : Type 0} where
    pub Stages-pure : (a : A) → Stages k (pure a)
    unfolding pure
    Stages-pure a = record { at = λ w h. (h, refl) }

    pub Stages-fail_with : (s : ℕ) → Stages k (fail_with {A = A} s)
    unfolding fail_with
    Stages-fail_with s = record { at = λ w h. (h, refl) }

    pub Stages-if : (b : Bool) (m n : M A) → Stages k m → Stages k n → Stages k (if b then m else n)
    Stages-if true m n km kn = km
    Stages-if false m n km kn = kn

    pub Stages-by_value : (m : M A) → Stages k m → Stages k (by_value m)
    unfolding by_value
    Stages-by_value m km = record { at = km.at }

    pub Stages-or_status : (s : ℕ) (m : M A) → Stages k m → Stages k (or_status s m)
    unfolding or_status
    Stages-or_status s m km = record {
      at = λ w h.
          let (safe, kept) = km.at w h in
          let (safe', kept') = failing-Safe k s (m w).1 (m w).0 safe in (safe', kept' ∙ kept);
    }

  module _ {A B : Type 0} where
    continue-Safe :
        (f : A → M B) (w : World) (r : Outcome A)
        → ((a : A) → Stages k (f a))
        → Safe k w
        → let w' = (((λ _. (r, w)) >>= f) w).1 in Safe k w' × (stored w' k ≡ stored w k)
    unfolding ◌>>=◌
    continue-Safe f w (done a) kf h = (kf a).at w h
    continue-Safe f w failed kf h = (h, refl)
    continue-Safe f w (crashed c) kf h = (h, refl)

    pub Stages-bind :
        (m : M A) (f : A → M B) → Stages k m → ((a : A) → Stages k (f a)) → Stages k (m >>= f)
    unfolding ◌>>=◌
    Stages-bind m f km kf = record {
      at = λ w h.
          let (safe, kept) = km.at w h in
          let (safe', kept') = continue-Safe f (m w).1 (m w).0 kf safe in (safe', kept' ∙ kept);
    }

  Stages-answer_read : (r : Reply) → Stages k (answer_read r)
  unfolding answer_read
  Stages-answer_read (found v) = Stages-pure v
  Stages-answer_read not_found = Stages-fail_with _
  Stages-answer_read get_error = Stages-fail_with _

  pub Stages-dbh_get : (key : Text) → Stages k (dbh_get key)
  unfolding dbh_get
  Stages-dbh_get key = record { at = λ w. (Stages-answer_read (Db.get key w)).at w }

  pub Stages-put : (key v : Text) → text_eq key k ≡ false → Stages k (Db.put key v)
  Stages-put key v e = record { at = λ w h. (staged_put k key v w w.db h, put_at k key v w w.db e) }

  pub Stages-put_batch : (key v : Text) → text_eq key k ≡ false → Stages k (Db.put_batch key v)
  Stages-put_batch key v e = record { at = λ w h. staged_put_batch k key v w w.db e h }

  pub Stages-erase_batch : (key : Text) → text_eq key k ≡ false → Stages k (Db.erase_batch key)
  Stages-erase_batch key e = record { at = λ w h. staged_erase_batch k key w w.db e h }

  pub Stages-write_batch : Stages k Db.write_batch
  Stages-write_batch = record { at = λ w h. staged_write k w w.db h }

  -- A batch that is begun anew and gathered from other keys.
  pub Keeps-clear_batch : {A : Type 0} (m : M A) → Stages k m → Keeps k (Db.clear_batch >> m)
  Keeps-clear_batch m s = record { at = λ w. cleared k m w w.db s }

pub ruleset stages_rules = (
  Stages-pure, Stages-fail_with, Stages-if, Stages-by_value, Stages-or_status, Stages-bind,
  Stages-dbh_get, Stages-put, Stages-put_batch, Stages-erase_batch, Stages-write_batch,
)
