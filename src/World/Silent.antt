-- ===== src/World/Silent.antt =====
-- Calls that change nothing but `status`, with what holds of a result.
use mathlib.Core.Path.{subst}
use tp.Common.{◌≡◌, refl, sym, ap, ◌∙◌, Option, none, arith}
use tp.World.Interfaces.{Platform}
use tp.World.Monad.{World, M, Outcome, done, failed, crashed, pure, attempt, ◌>>=◌}
use tp.World.Reads.{Reads, AllDone}

module _ ⦃P : Platform⦄ where
  pub record Silent {A : Type 0} (R : A → Type 0) (w : World) (o : Outcome A × World) : Type 0 where
    pub kept : o.1 ≡ record w { status = o.1.status }
    pub answer : AllDone R o.0

  -- Changes of `status` one after the other.
  kept_after :
      (w w1 w2 : World)
      → w1 ≡ record w { status = w1.status }
      → w2 ≡ record w1 { status = w2.status }
      → w2 ≡ record w { status = w2.status }
  kept_after w w1 w2 h1 h2 = h2 ∙ ap (λ (v : World). record v { status = w2.status }) h1

  module _ {A B : Type 0} (R : B → Type 0) (f : A → M B) (w : World) where
    Silent-at :
        (o : Outcome A) (w1 : World)
        → w1 ≡ record w { status = w1.status }
        → ((a : A) → o ≡ done a → Silent R w1 (f a w1))
        → Silent R w (((λ _. (o, w1)) >>= f) w)
    unfolding ◌>>=◌
    Silent-at (done a) w1 h next =
        let s = next a refl in
        record { kept = kept_after w w1 (f a w1).1 h s.kept; answer = s.answer }
    Silent-at failed w1 h next = record { kept = h; answer = tt }
    Silent-at (crashed c) w1 h next = record { kept = h; answer = tt }

    pub Silent-bind :
        (m : M A)
        → (m w).1 ≡ record w { status = (m w).1.status }
        → ((a : A) → (m w).0 ≡ done a → Silent R (m w).1 (f a (m w).1))
        → Silent R w ((m >>= f) w)
    unfolding ◌>>=◌
    Silent-bind m h next = Silent-at (m w).0 (m w).1 h next

  result_of : {A : Type 0} (R : A → Type 0) (o : Outcome A) (a : A) → AllDone R o → o ≡ done a → R a
  result_of R (done b) a h e = subst R (ground arith) h
  result_of R failed a h e = cc
  result_of R (crashed c) a h e = cc

  -- A read before a call.
  pub Silent-after :
      {A B : Type 0} (S : A → Type 0) (R : B → Type 0) (m : M A) (f : A → M B) (w : World)
      → Reads S m
      → ((a : A) → (m w).0 ≡ done a → S a → Silent R w (f a w))
      → Silent R w ((m >>= f) w)
  Silent-after S R m f w rm next =
      Silent-bind R f w m
        (rm.still w ∙ ap (λ (v : World). record w { status = v.status }) (sym (rm.still w)))
        λ a e.
          subst (λ (v : World). Silent R v (f a v)) (sym (rm.still w))
            (next a e (result_of S (m w).0 a (rm.result w) e))

  -- A call that changes `status` at most, before a call.
  pub Silent-chain :
      {A B : Type 0} (S : A → Type 0) (R : B → Type 0) (m : M A) (f : A → M B) (w : World)
      → Silent S w (m w)
      → ((a : A) (w1 : World) → S a → Silent R w1 (f a w1))
      → Silent R w ((m >>= f) w)
  Silent-chain S R m f w sm next =
      Silent-bind R f w m sm.kept λ a e. next a (m w).1 (result_of S (m w).0 a sm.answer e)

  pub Silent-pure : {A : Type 0} (R : A → Type 0) (a : A) (w : World) → R a → Silent R w (pure a w)
  unfolding pure
  Silent-pure R a w ra = record { kept = refl; answer = ra }

  attempt_at :
      {A : Type 0} (w w1 : World) (o : Outcome A)
      → Silent (λ (a : A). ⊥) w (o, w1)
      → Silent (λ (a : Option A). a ≡ none) w (attempt (λ _. (o, w1)) w)
  unfolding attempt
  attempt_at w w1 (done a) s = absurd s.answer
  attempt_at w w1 failed s = record { kept = s.kept; answer = refl }
  attempt_at w w1 (crashed c) s = record { kept = s.kept; answer = tt }

  -- A call that does not succeed.
  pub Silent-attempt :
      {A : Type 0} (m : M A) (w : World)
      → Silent (λ (a : A). ⊥) w (m w)
      → Silent (λ (a : Option A). a ≡ none) w (attempt m w)
  unfolding attempt
  Silent-attempt m w s = attempt_at w (m w).1 (m w).0 s
