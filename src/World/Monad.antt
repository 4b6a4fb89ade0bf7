-- ===== src/World/Monad.antt =====
-- The state of the server and the actions on it.
use tp.Common.{ℕ, Bool, Option, none, some, List, [], ◌∷◌, if◌then◌else◌}
use tp.Text.Decimal.{Conversion, value}
use tp.World.Interfaces.{Platform, Update}

-- What ends a call from below: an exception of `stoul` or `stoi`, undefined behaviour (`front` of
-- an empty vector, a missing `return`), the end of the stack, an exception of the JSON library, or a
-- loop that does not end.
pub data Crash : Type 0 where
  invalid_argument out_of_range undefined_behaviour stack_overflow json_error endless_loop : Crash

-- `return true` with the results, `return false`, or neither.
pub data Outcome {ℓ} (A : Type ℓ) : Type ℓ where
  done : A → Outcome A
  failed : Outcome A
  crashed : Crash → Outcome A

module _ ⦃P : Platform⦄ where
  -- `db_` and `batch_` of DbHandler, the `status` that the calls share by reference, the files, and
  -- `max_user_quota_` of RequestDispatcher.
  pub record World : Type 0 where
    pub db : Option P.rocks.Handle
    pub batch : List Update
    pub status : ℕ
    pub disk : P.files.Disk
    pub max_user_quota : ℕ

  abbrev pub M : Type 0 → Type 0
  M A = World → Outcome A × World

  unfoldable pub pure : {A : Type 0} → A → M A
  pure a w = (done a, w)

  -- `return false`
  unfoldable pub return_false : {A : Type 0} → M A
  return_false w = (failed, w)

  -- `status = s; return false`
  unfoldable pub fail_with : {A : Type 0} → ℕ → M A
  fail_with s w = (failed, record w { status = s })

  unfoldable pub crash : {A : Type 0} → Crash → M A
  crash c w = (crashed c, w)

  unfoldable pub gets : {A : Type 0} → (World → A) → M A
  gets f w = (done (f w), w)

  abbrev continue : {A B : Type 0} → Outcome A → (A → M B) → M B
  continue (done a) f w = f a w
  continue failed f w = (failed, w)
  continue (crashed c) f w = (crashed c, w)

  infixl 5 ◌>>=◌ ◌>>◌
  -- opening this opens the simple actions too
  unfoldable pub ◌>>=◌ : {A B : Type 0} → M A → (A → M B) → M B
  unfolding pure return_false fail_with crash gets
  ◌>>=◌ m f w = let (r, w') = m w in continue r f w'

  abbrev pub ◌>>◌ : {B : Type 0} → M (Unit {0}) → M B → M B
  m >> k = m >>= λ _. k

  -- `if( c ){ status = s; return false; }`
  abbrev pub fail_if : Bool → ℕ → M (Unit {0})
  fail_if c s = if c then fail_with s else pure tt

  abbrev with_status : {A : Type 0} → ℕ → Outcome A × World → Outcome A × World
  with_status s (r, w) = (r, record w { status = s })

  -- A callee that takes `status` by value: its caller keeps its own.
  unfoldable pub by_value : {A : Type 0} → M A → M A
  by_value m w = with_status w.status (m w)

  abbrev tested : {A : Type 0} → Outcome A × World → Outcome (Option A) × World
  tested (done a, w) = (done (some a), w)
  tested (failed, w) = (done none, w)
  tested (crashed c, w) = (crashed c, w)

  -- A call whose result the caller tests, and goes on in either case.
  unfoldable pub attempt : {A : Type 0} → M A → M (Option A)
  attempt m w = tested (m w)

  abbrev failing_with : {A : Type 0} → ℕ → Outcome A × World → Outcome A × World
  failing_with s (done a, w) = (done a, w)
  failing_with s (failed, w) = (failed, record w { status = s })
  failing_with s (crashed c, w) = (crashed c, w)

  -- `if( !m ){ status = s; return false; }`
  unfoldable pub or_status : {A : Type 0} → ℕ → M A → M A
  or_status s m w = failing_with s (m w)

  -- A call that returns `true` only where `m` is `true`.
  abbrev pub require : M Bool → M (Unit {0})
  require m = m >>= λ ok. if ok then pure tt else return_false

  -- An uncaught exception of `stoul`.
  abbrev pub of_conversion : Conversion → M ℕ
  of_conversion (value n) = pure n
  of_conversion Conversion.invalid_argument = crash Crash.invalid_argument
  of_conversion Conversion.out_of_range = crash Crash.out_of_range

  -- `for` over a vector; the body may return `false`.
  unfoldable pub for_each : {A : Type 0} → List A → (A → M (Unit {0})) → M (Unit {0})
  for_each [] body = pure tt
  for_each (x ∷ xs) body = body x >> for_each xs body

  -- The same, where the body appends its result to a vector.
  unfoldable pub collect : {A B : Type 0} → List A → (A → M B) → M (List B)
  collect [] body = pure []
  collect (x ∷ xs) body = body x >>= λ y. collect xs body >>= λ ys. pure (y ∷ ys)
