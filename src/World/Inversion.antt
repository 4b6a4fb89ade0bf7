-- ===== src/World/Inversion.antt =====
-- What follows from a chain of actions that returns.
use tp.Common.{ℕ, ◌≡◌, refl, ap, Bool, true, false, arith, if◌then◌else◌}
use tp.Text.Decimal.{Conversion, value}
use tp.World.Interfaces.{Platform}
use tp.World.Monad.{
  World, M, Outcome, done, failed, crashed, pure, fail_with, return_false, crash, fail_if,
  or_status, require, of_conversion, ◌>>=◌,
}

module _ ⦃P : Platform⦄ where
  binding_at {ℓ} :
      {A B : Type 0} {C : Type ℓ} (f : A → M B) (r : Outcome A) (w : World) {b : B} {w' : World}
      → ((λ _. (r, w)) >>= f) w ≡ (done b, w')
      → ((a : A) → r ≡ done a → f a w ≡ (done b, w') → C)
      → C
  unfolding ◌>>=◌
  binding_at f (done a) w h next = next a refl h
  binding_at f failed w h next = cc
  binding_at f (crashed c) w h next = cc

  -- Each part of a chain that returns has returned.
  pub binding {ℓ} :
      {A B : Type 0} {C : Type ℓ} (m : M A) (f : A → M B) (w : World) {b : B} {w' : World}
      → (m >>= f) w ≡ (done b, w')
      → ((a : A) (w1 : World) → m w ≡ (done a, w1) → f a w1 ≡ (done b, w') → C)
      → C
  unfolding ◌>>=◌
  binding m f w h next =
      let (r, w1) = m w in
      binding_at f r w1 h (λ a e rest. next a w1 (ap (λ (o : Outcome _). (o, w1)) e) rest)

  pub pure-done :
      {A : Type 0} (a : A) {b : A} (w : World) {w' : World}
      → pure a w ≡ (done b, w')
      → (a ≡ b) × (w' ≡ w)
  unfolding pure
  pure-done a w h = (ground arith, ground arith)

  fail_if-done :
      (c : Bool) (s : ℕ) (w : World) {w' : World}
      → fail_if c s w ≡ (done tt, w')
      → (c ≡ false) × (w' ≡ w)
  unfolding pure fail_with
  fail_if-done true s w h = cc
  fail_if-done false s w h = (refl, ground arith)

  -- A guard that is passed changes nothing.
  pub guarding {ℓ} :
      {B : Type 0} {C : Type ℓ} (c : Bool) (s : ℕ) (f : Unit {0} → M B) (w : World) {b : B}
      {w' : World}
      → (fail_if c s >>= f) w ≡ (done b, w')
      → (c ≡ false → f tt w ≡ (done b, w') → C)
      → C
  unfolding pure fail_with ◌>>=◌
  guarding true s f w h next = cc
  guarding false s f w h next = next refl h

  require_at :
      (b : Bool) (w : World) {w' : World}
      → (if b then pure tt else return_false) w ≡ (done tt, w')
      → (b ≡ true) × (w' ≡ w)
  unfolding pure return_false
  require_at true w h = (refl, ground arith)
  require_at false w h = cc

  pub require-done :
      (m : M Bool) (w : World) {w' : World} → require m w ≡ (done tt, w') → m w ≡ (done true, w')
  require-done m w h =
      binding m _ w h (λ a w1 e rest. let (t, same) = require_at a w1 rest in cc (e, t, same))

  or_status_at :
      {A : Type 0} (s : ℕ) (r : Outcome A) (w : World) {a : A} {w' : World}
      → or_status s (λ _. (r, w)) w ≡ (done a, w')
      → ◌≡◌ {A = Outcome A × World} (r, w) (done a, w')
  unfolding or_status
  or_status_at s (done a) w h = h
  or_status_at s failed w h = cc
  or_status_at s (crashed c) w h = cc

  pub or_status-done :
      {A : Type 0} (s : ℕ) (m : M A) (w : World) {a : A} {w' : World}
      → or_status s m w ≡ (done a, w')
      → m w ≡ (done a, w')
  unfolding or_status
  or_status-done s m w h = or_status_at s (m w).0 (m w).1 h

  -- A number that is read changes nothing.
  pub converting {ℓ} :
      {B : Type 0} {C : Type ℓ} (c : Conversion) (f : ℕ → M B) (w : World) {b : B} {w' : World}
      → (of_conversion c >>= f) w ≡ (done b, w')
      → ((n : ℕ) → c ≡ value n → f n w ≡ (done b, w') → C)
      → C
  unfolding pure crash ◌>>=◌
  converting (value n) f w h next = next n refl h
  converting Conversion.invalid_argument f w h next = cc
  converting Conversion.out_of_range f w h next = cc
