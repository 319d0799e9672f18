-- ===== src/Effect.antt =====
-- Go functions over a mutable world. A call returns a value, returns an error, or panics; or the
-- process dies in another goroutine, and then not even the deferred functions run. What was written
-- before stays written, so the state comes back in each case.
pub mod Keeps
pub mod Gives
pub mod Ends
use schedulx.Prelude.{String, List, [], ◌∷◌}

-- `config.ErrRowsAffectedInvalid`, `config.ErrSysPanic` and `gorm.ErrRecordNotFound` are values that
-- the code compares with or stores; any other error is its text (`errors.New`, `fmt.Errorf`).
pub data Error : Type 0 where
  record_not_found rows_affected_invalid sys_panic : Error
  new_error : String → Error

-- `err.Error()`
unfoldable pub message : Error → String
message record_not_found = "record not found"
message rows_affected_invalid = "db update rows affected invalid"
message sys_panic = "system panic"
message (new_error s) = s

-- What a call of foreign code gives.
pub data Result (A : Type 0) : Type 0 where
  ok : A → Result A
  err : Error → Result A

pub data Outcome (A : Type 0) : Type 0 where
  returns : A → Outcome A
  fails : Error → Outcome A
  panics crashes : Outcome A

abbrev pub Exec : Type 0 → Type 0 → Type 0
Exec S A = S → Outcome A × S

module _ {A : Type 0} where
  abbrev pub outcome : Result A → Outcome A
  outcome (ok a) = returns a
  outcome (err e) = fails e

  abbrev pub attempted : Outcome A → Outcome (Result A)
  attempted (returns a) = returns (ok a)
  attempted (fails e) = returns (err e)
  attempted panics = panics
  attempted crashes = crashes

  abbrev pub ignored : Outcome A → Outcome (Unit {0})
  ignored (returns a) = returns tt
  ignored (fails e) = returns tt
  ignored panics = panics
  ignored crashes = crashes

  abbrev pub deref : Outcome A → Outcome A
  deref (returns a) = returns a
  deref (fails e) = panics
  deref panics = panics
  deref crashes = crashes

  abbrev pub died : Outcome A → Outcome A
  died (returns a) = returns a
  died (fails e) = fails e
  died panics = crashes
  died crashes = crashes

abbrev pub resumed : Outcome (Unit {0}) → Outcome (Unit {0})
resumed (returns a) = returns tt
resumed (fails e) = fails e
resumed panics = returns tt
resumed crashes = crashes

module _ {S A : Type 0} where
  unfoldable pub pure : A → Exec S A
  pure a s = (returns a, s)

  unfoldable pub raise : Error → Exec S A
  raise e s = (fails e, s)

  -- A nil dereference or a division by zero.
  unfoldable pub panic : Exec S A
  panic s = (panics, s)

  -- A panic that leaves a goroutine with no `recover`.
  unfoldable pub crash : Exec S A
  crash s = (crashes, s)

  unfoldable pub gets : (S → A) → Exec S A
  gets f s = (returns (f s), s)

  -- A call of foreign code.
  unfoldable pub call : (S → Result A × S) → Exec S A
  call f s = let (r, s') = f s in (outcome r, s')

module _ {S A B : Type 0} where
  abbrev pub continue : Outcome A → (A → Exec S B) → Exec S B
  continue (returns a) f s = f a s
  continue (fails e) f s = (fails e, s)
  continue panics f s = (panics, s)
  continue crashes f s = (crashes, s)

  infixl 5 ◌>>=◌ ◌>>◌
  unfoldable pub ◌>>=◌ : Exec S A → (A → Exec S B) → Exec S B
  unfolding pure raise panic crash gets call
  ◌>>=◌ m f s = let (o, s') = m s in continue o f s'

  abbrev pub ◌>>◌ : Exec S A → Exec S B → Exec S B
  m >> n = m >>= λ _. n

module _ {S A : Type 0} where
  -- `x, err := f()`: the error is a value like another.
  unfoldable pub attempt : Exec S A → Exec S (Result A)
  attempt m s = let (o, s') = m s in (attempted o, s')

  -- `_ = f()`
  unfoldable pub ignore : Exec S A → Exec S (Unit {0})
  ignore m s = let (o, s') = m s in (ignored o, s')

  abbrev pub exit_with : Outcome A → Outcome (Unit {0}) × S → Outcome A × S
  exit_with o (returns _, s) = (o, s)
  exit_with o (fails _, s) = (o, s)
  exit_with o (panics, s) = (panics, s)
  exit_with o (crashes, s) = (crashes, s)

  abbrev pub run_deferred : (Outcome A → Exec S (Unit {0})) → Outcome A → S → Outcome A × S
  run_deferred h (returns a) s = exit_with (returns a) (h (returns a) s)
  run_deferred h (fails e) s = exit_with (fails e) (h (fails e) s)
  run_deferred h panics s = exit_with panics (h panics s)
  run_deferred h crashes s = (crashes, s)

  -- `defer func() { … }()` around the body of a function.
  unfoldable pub on_exit : (Outcome A → Exec S (Unit {0})) → Exec S A → Exec S A
  on_exit h m s = let (o, s') = m s in run_deferred h o s'

module _ {S A : Type 0} where
  -- `x, _ := f(); … x.field …`: where the error comes with a nil `x`.
  unfoldable pub or_panic : Exec S A → Exec S A
  or_panic m s = let (o, s') = m s in (deref o, s')

  -- The top of a goroutine with no `recover`: a panic ends the process.
  unfoldable pub goroutine : Exec S A → Exec S A
  goroutine m s = let (o, s') = m s in (died o, s')

-- A deferred `recover()`: the function returns after a panic.
unfoldable pub recovering : {S : Type 0} → Exec S (Unit {0}) → Exec S (Unit {0})
recovering m s = let (o, s') = m s in (resumed o, s')

-- An action on a part of the state.
unfoldable pub zoom : {S T A : Type 0} → (S → T) → (S → T → S) → Exec T A → Exec S A
zoom get put m s = let (o, t) = m (get s) in (o, put s t)

-- A loop over a slice that stops at the first error.
unfoldable pub for_each : {S A : Type 0} → List A → (A → Exec S (Unit {0})) → Exec S (Unit {0})
unfolding ◌>>=◌
for_each [] f = pure tt
for_each (x ∷ xs) f = f x >>= λ _. for_each xs f
