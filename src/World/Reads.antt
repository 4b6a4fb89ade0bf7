-- ===== src/World/Reads.antt =====
-- Actions that leave the state as it is, with what holds of a result: one rule for each way to
-- build an action.
use tp.Common.{◌≡◌, refl, ◌∙◌, Bool, true, false, Option, none, some, if◌then◌else◌}
use tp.World.Interfaces.{Platform}
use tp.World.Monad.{World, M, Outcome, done, failed, crashed, Crash, pure, crash, ◌>>=◌}

abbrev pub AllDone : {A : Type 0} → (A → Type 0) → Outcome A → Type 0
AllDone R (done a) = R a
AllDone R failed = Unit
AllDone R (crashed c) = Unit

module _ ⦃P : Platform⦄ where
  pub record Reads {A : Type 0} (R : A → Type 0) (m : M A) : Type 0 where
    pub still : (w : World) → (m w).1 ≡ w
    pub result : (w : World) → AllDone R (m w).0

  module _ {A : Type 0} (R : A → Type 0) where
    pub Reads-pure : (a : A) → R a → Reads R (pure a)
    unfolding pure
    Reads-pure a ra = record { still = λ w. refl; result = λ w. ra }

    pub Reads-crash : (c : Crash) → Reads R (crash c)
    unfolding crash
    Reads-crash c = record { still = λ w. refl; result = λ w. tt }

    pub Reads-if :
        (b : Bool) (m n : M A)
        → (b ≡ true → Reads R m)
        → (b ≡ false → Reads R n)
        → Reads R (if b then m else n)
    Reads-if true m n rm rn = rm refl
    Reads-if false m n rm rn = rn refl

    pub Reads-option :
        {B : Type 0} (o : Option B) (m : M A) (f : B → M A)
        → Reads R m
        → ((b : B) → Reads R (f b))
        → Reads R (elim o as (λ _. M A) [ none ↦ m | some b ↦ f b ])
    Reads-option none m f rm rf = rm
    Reads-option (some b) m f rm rf = rf b

  module _ {A B : Type 0} (S : A → Type 0) (R : B → Type 0) where
    still_at :
        (f : A → M B) (r : Outcome A) (w : World)
        → AllDone S r
        → ((a : A) → S a → Reads R (f a))
        → (((λ _. (r, w)) >>= f) w).1 ≡ w
    unfolding ◌>>=◌
    still_at f (done a) w s rf = (rf a s).still w
    still_at f failed w s rf = refl
    still_at f (crashed c) w s rf = refl

    result_at :
        (f : A → M B) (r : Outcome A) (w : World)
        → AllDone S r
        → ((a : A) → S a → Reads R (f a))
        → AllDone R (((λ _. (r, w)) >>= f) w).0
    unfolding ◌>>=◌
    result_at f (done a) w s rf = (rf a s).result w
    result_at f failed w s rf = tt
    result_at f (crashed c) w s rf = tt

    pub Reads-bind :
        (m : M A) (f : A → M B) → Reads S m → ((a : A) → S a → Reads R (f a)) → Reads R (m >>= f)
    unfolding ◌>>=◌
    Reads-bind m f rm rf = record {
      still = λ w. still_at f (m w).0 (m w).1 (rm.result w) rf ∙ rm.still w;
      result = λ w. result_at f (m w).0 (m w).1 (rm.result w) rf;
    }
