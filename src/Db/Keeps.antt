-- ===== src/Db/Keeps.antt =====
-- Actions that leave the value of a key alone, however they end: one rule for each way to build an
-- action.
use tp.Common.{
  ℕ, ◌≡◌, refl, ap, ◌∙◌, Bool, true, false, Option, none, some, List, [], ◌∷◌, if◌then◌else◌,
}
use tp.Text.{Text, text_eq}
use tp.Text.Decimal.{Conversion, value}
use tp.World.{
  Platform, put_content, World, M, Outcome, done, failed, crashed, Crash, pure, return_false,
  fail_with, crash, gets, by_value, attempt, or_status, of_conversion, for_each, collect, ◌>>=◌,
}
use tp.World.Reads.{Reads, AllDone}
use tp.Db
use tp.Db.Laws.{stored}

module _ ⦃P : Platform⦄ where
  pub record Keeps {A : Type 0} (k : Text) (m : M A) : Type 0 where
    pub at : (w : World) → stored (m w).1 k ≡ stored w k

  tested_at :
      {A : Type 0} (w : World) (r : Outcome A) → stored (attempt (λ _. (r, w)) w).1 ≡ stored w
  unfolding attempt
  tested_at w (done a) = refl
  tested_at w failed = refl
  tested_at w (crashed c) = refl

  failing_at :
      {A : Type 0} (s : ℕ) (w : World) (r : Outcome A)
      → stored (or_status s (λ _. (r, w)) w).1 ≡ stored w
  unfolding or_status
  failing_at s w (done a) = refl
  failing_at s w failed = refl
  failing_at s w (crashed c) = refl

  pub put_at :
      (k key v : Text) (w : World) (o : Option P.rocks.Handle)
      → text_eq key k ≡ false
      → stored (Db.put key v (record w { db = o })).1 k ≡ stored (record w { db = o }) k
  unfolding Db.put pure
  put_at k key v w none h = refl
  put_at k key v w (some d) h =
      ap (λ (c : Text → Option Text). c k) (P.rocks.content-put d key v)
      ∙ kept (P.rocks.put d key v).0
    where
      kept :
          (b : Bool)
          → (if b then put_content key v (P.rocks.content d) else P.rocks.content d) k
            ≡ P.rocks.content d k
      kept true = rw h
      kept false = refl

  module _ {A : Type 0} {k : Text} where
    pub Keeps-pure : (a : A) → Keeps k (pure a)
    unfolding pure
    Keeps-pure a = record { at = λ w. refl }

    pub Keeps-return_false : Keeps k (return_false {A = A})
    unfolding return_false
    Keeps-return_false = record { at = λ w. refl }

    pub Keeps-fail_with : (s : ℕ) → Keeps k (fail_with {A = A} s)
    unfolding fail_with
    Keeps-fail_with s = record { at = λ w. refl }

    pub Keeps-crash : (c : Crash) → Keeps k (crash {A = A} c)
    unfolding crash
    Keeps-crash c = record { at = λ w. refl }

    pub Keeps-gets : (f : World → A) → Keeps k (gets f)
    unfolding gets
    Keeps-gets f = record { at = λ w. refl }

    pub Keeps-if : (b : Bool) (m n : M A) → Keeps k m → Keeps k n → Keeps k (if b then m else n)
    Keeps-if true m n km kn = km
    Keeps-if false m n km kn = kn

    pub Keeps-by_value : (m : M A) → Keeps k m → Keeps k (by_value m)
    unfolding by_value
    Keeps-by_value m km = record { at = km.at }

    pub Keeps-attempt : (m : M A) → Keeps k m → Keeps k (attempt m)
    unfolding attempt
    Keeps-attempt m km = record {
      at = λ w. ap (λ (c : Text → Option Text). c k) (tested_at (m w).1 (m w).0) ∙ km.at w;
    }

    pub Keeps-or_status : (s : ℕ) (m : M A) → Keeps k m → Keeps k (or_status s m)
    unfolding or_status
    Keeps-or_status s m km = record {
      at = λ w. ap (λ (c : Text → Option Text). c k) (failing_at s (m w).1 (m w).0) ∙ km.at w;
    }

  module _ {A B : Type 0} {k : Text} where
    continue_at :
        (f : A → M B) (w : World) (r : Outcome A)
        → ((a : A) → Keeps k (f a))
        → stored (((λ _. (r, w)) >>= f) w).1 k ≡ stored w k
    unfolding ◌>>=◌
    continue_at f w (done a) kf = (kf a).at w
    continue_at f w failed kf = refl
    continue_at f w (crashed c) kf = refl

    pub Keeps-bind :
        (m : M A) (f : A → M B) → Keeps k m → ((a : A) → Keeps k (f a)) → Keeps k (m >>= f)
    unfolding ◌>>=◌
    Keeps-bind m f km kf = record { at = λ w. continue_at f (m w).1 (m w).0 kf ∙ km.at w }

  module _ {A B : Type 0} {k : Text} (S : A → Type 0) where
    after_at :
        (f : A → M B) (w : World) (r : Outcome A)
        → AllDone S r
        → ((a : A) → S a → Keeps k (f a))
        → stored (((λ _. (r, w)) >>= f) w).1 k ≡ stored w k
    unfolding ◌>>=◌
    after_at f w (done a) s kf = (kf a s).at w
    after_at f w failed s kf = refl
    after_at f w (crashed c) s kf = refl

    -- A read before an action that keeps the value for the results that the read can have.
    pub Keeps-after :
        (m : M A) (f : A → M B) → Reads S m → ((a : A) → S a → Keeps k (f a)) → Keeps k (m >>= f)
    unfolding ◌>>=◌
    Keeps-after m f rm kf = record {
      at = λ w.
          after_at f (m w).1 (m w).0 (rm.result w) kf ∙ ap (λ (v : World). stored v k) (rm.still w);
    }

  module _ {k : Text} where
    pub Keeps-of_conversion : (c : Conversion) → Keeps k (of_conversion c)
    Keeps-of_conversion (value n) = Keeps-pure n
    Keeps-of_conversion Conversion.invalid_argument = Keeps-crash Crash.invalid_argument
    Keeps-of_conversion Conversion.out_of_range = Keeps-crash Crash.out_of_range

    pub Keeps-for_each :
        {A : Type 0} (xs : List A) (body : A → M (Unit {0}))
        → ((x : A) → Keeps k (body x))
        → Keeps k (for_each xs body)
    unfolding for_each
    Keeps-for_each [] body kb = Keeps-pure tt
    Keeps-for_each (x ∷ xs) body kb = Keeps-bind (body x) _ (kb x) (λ _. Keeps-for_each xs body kb)

    pub Keeps-collect :
        {A B : Type 0} (xs : List A) (body : A → M B)
        → ((x : A) → Keeps k (body x))
        → Keeps k (collect xs body)
    unfolding collect
    Keeps-collect [] body kb = Keeps-pure []
    Keeps-collect (x ∷ xs) body kb =
        Keeps-bind (body x) _ (kb x) (λ y.
          Keeps-bind (collect xs body) _ (Keeps-collect xs body kb) (λ ys. Keeps-pure (y ∷ ys)))

    -- A write to another key.
    pub Keeps-put : (key v : Text) → text_eq key k ≡ false → Keeps k (Db.put key v)
    Keeps-put key v h = record { at = λ w. put_at k key v w w.db h }

pub ruleset keeps_rules = (
  Keeps-pure, Keeps-return_false, Keeps-fail_with, Keeps-crash, Keeps-gets, Keeps-if, Keeps-bind,
  Keeps-by_value, Keeps-attempt, Keeps-or_status, Keeps-of_conversion, Keeps-for_each,
  Keeps-collect,
)
