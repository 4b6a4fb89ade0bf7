-- ===== src/World/Returning.antt =====
-- Actions that return with a result in every state: one rule for each way to build an action.
use tp.Common.{◌≡◌, refl, Bool, true, false, if◌then◌else◌}
use tp.World.Interfaces.{Platform}
use tp.World.Monad.{World, M, Outcome, done, failed, crashed, pure, attempt, ◌>>=◌}

abbrev pub IsDone : {A : Type 0} → (A → Type 0) → Outcome A → Type 0
IsDone R (done a) = R a
IsDone R failed = ⊥
IsDone R (crashed c) = ⊥

abbrev pub NotCrashed : {A : Type 0} → Outcome A → Type 0
NotCrashed (done a) = Unit
NotCrashed failed = Unit
NotCrashed (crashed c) = ⊥

module _ ⦃P : Platform⦄ where
  pub record Returning {A : Type 0} (R : A → Type 0) (m : M A) : Type 0 where
    pub result : (w : World) → IsDone R (m w).0

  pub Returning-pure : {A : Type 0} (R : A → Type 0) (a : A) → R a → Returning R (pure a)
  unfolding pure
  Returning-pure R a ra = record { result = λ w. ra }

  pub Returning-if :
      {A : Type 0} (R : A → Type 0) (b : Bool) (m n : M A)
      → (b ≡ true → Returning R m)
      → (b ≡ false → Returning R n)
      → Returning R (if b then m else n)
  Returning-if R true m n rm rn = rm refl
  Returning-if R false m n rm rn = rn refl

  module _ {A B : Type 0} (S : A → Type 0) (R : B → Type 0) where
    result_at :
        (f : A → M B) (r : Outcome A) (w : World)
        → IsDone S r
        → ((a : A) → S a → Returning R (f a))
        → IsDone R (((λ _. (r, w)) >>= f) w).0
    unfolding ◌>>=◌
    result_at f (done a) w s rf = (rf a s).result w
    result_at f failed w s rf = s
    result_at f (crashed c) w s rf = s

    pub Returning-bind :
        (m : M A) (f : A → M B)
        → Returning S m
        → ((a : A) → S a → Returning R (f a))
        → Returning R (m >>= f)
    unfolding ◌>>=◌
    Returning-bind m f rm rf = record { result = λ w. result_at f (m w).0 (m w).1 (rm.result w) rf }

  attempt_at :
      {A : Type 0} (r : Outcome A) (w : World)
      → NotCrashed r
      → IsDone (λ _. Unit) (attempt (λ _. (r, w)) w).0
  unfolding attempt
  attempt_at (done a) w h = tt
  attempt_at failed w h = tt
  attempt_at (crashed c) w h = h

  -- A call that fails at most.
  pub Returning-attempt :
      {A : Type 0} (m : M A)
      → ((w : World) → NotCrashed (m w).0)
      → Returning (λ _. Unit) (attempt m)
  unfolding attempt
  Returning-attempt m h = record { result = λ w. attempt_at (m w).0 (m w).1 (h w) }
