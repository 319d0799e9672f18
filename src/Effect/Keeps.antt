-- ===== src/Effect/Keeps.antt =====
-- Invariants of actions, one rule for each way to build an action.
use schedulx.Prelude.{Bool, true, false, if◌then◌else◌, List, [], ◌∷◌, ◌≡◌, refl}
use schedulx.Effect.{
  Error, Result, Outcome, returns, fails, panics, crashes, Exec, pure, raise, panic, crash, gets,
  call, continue, ◌>>=◌, attempt, ignore, exit_with, run_deferred, on_exit, or_panic, goroutine,
  recovering, zoom, for_each,
}

-- However `m` ends, it keeps `P`.
pub record Keeps {S A : Type 0} (Inv : S → Type 0) (action : Exec S A) : Type 0 where
  pub at : (before : S) → Inv before → Inv (action before).1

module _ {S A : Type 0} {P : S → Type 0} where
  pub Keeps-pure : (value : A) → Keeps P (pure value)
  unfolding pure
  Keeps-pure value = record { at = λ s kept. kept }

  pub Keeps-raise : (problem : Error) → Keeps P (raise {A = A} problem)
  unfolding raise
  Keeps-raise problem = record { at = λ s kept. kept }

  pub Keeps-panic : Keeps P (panic {A = A})
  unfolding panic
  Keeps-panic = record { at = λ s kept. kept }

  pub Keeps-crash : Keeps P (crash {A = A})
  unfolding crash
  Keeps-crash = record { at = λ s kept. kept }

  pub Keeps-gets : (f : S → A) → Keeps P (gets f)
  unfolding gets
  Keeps-gets f = record { at = λ s kept. kept }

  pub Keeps-call : (f : S → Result A × S) → ((s : S) → P s → P (f s).1) → Keeps P (call f)
  unfolding call
  Keeps-call f k = record { at = k }

  pub Keeps-if : (b : Bool) (m n : Exec S A) → Keeps P m → Keeps P n → Keeps P (if b then m else n)
  Keeps-if true m n km kn = km
  Keeps-if false m n km kn = kn

  pub Keeps-attempt : (m : Exec S A) → Keeps P m → Keeps P (attempt m)
  unfolding attempt
  Keeps-attempt m k = record { at = λ s h. k.at s h }

  pub Keeps-ignore : (m : Exec S A) → Keeps P m → Keeps P (ignore m)
  unfolding ignore
  Keeps-ignore m k = record { at = λ s h. k.at s h }

  pub Keeps-or_panic : (m : Exec S A) → Keeps P m → Keeps P (or_panic m)
  unfolding or_panic
  Keeps-or_panic m k = record { at = λ s h. k.at s h }

  pub Keeps-goroutine : (m : Exec S A) → Keeps P m → Keeps P (goroutine m)
  unfolding goroutine
  Keeps-goroutine m k = record { at = λ s h. k.at s h }

module _ {S A B : Type 0} {P : S → Type 0} where
  continue-Keeps :
      (o : Outcome A) (f : A → Exec S B) (s : S)
      → ((a : A) → Keeps P (f a))
      → P s
      → P (continue o f s).1
  continue-Keeps (returns a) f s kf h = (kf a).at s h
  continue-Keeps (fails e) f s kf h = h
  continue-Keeps panics f s kf h = h
  continue-Keeps crashes f s kf h = h

  pub Keeps-bind :
      (first : Exec S A) (rest : A → Exec S B)
      → Keeps P first
      → ((a : A) → Keeps P (rest a))
      → Keeps P (first >>= rest)
  unfolding ◌>>=◌
  Keeps-bind first rest k l = record {
    at = λ s kept. let (o, s') = first s in continue-Keeps o rest s' l (k.at s kept);
  }

module _ {S A : Type 0} where
  pub exit_with-state : (o : Outcome A) (r : Outcome (Unit {0}) × S) → (exit_with o r).1 ≡ r.1
  exit_with-state o (returns u, s) = refl
  exit_with-state o (fails e, s) = refl
  exit_with-state o (panics, s) = refl
  exit_with-state o (crashes, s) = refl

module _ {S A : Type 0} {P : S → Type 0} where
  run_deferred-Keeps :
      (h : Outcome A → Exec S (Unit {0})) (o : Outcome A) (s : S)
      → ((q : Outcome A) → Keeps P (h q))
      → P s
      → P (run_deferred h o s).1
  run_deferred-Keeps h (returns a) s k p = rw exit_with-state ((k (returns a)).at s p)
  run_deferred-Keeps h (fails e) s k p = rw exit_with-state ((k (fails e)).at s p)
  run_deferred-Keeps h panics s k p = rw exit_with-state ((k panics).at s p)
  run_deferred-Keeps h crashes s k p = p

  pub Keeps-on_exit :
      (h : Outcome A → Exec S (Unit {0})) (m : Exec S A)
      → ((q : Outcome A) → Keeps P (h q))
      → Keeps P m
      → Keeps P (on_exit h m)
  unfolding on_exit
  Keeps-on_exit h m kh km = record {
    at = λ s p. let (o, s') = m s in run_deferred-Keeps h o s' kh (km.at s p);
  }

pub Keeps-for_each :
    {S A : Type 0} {P : S → Type 0} (l : List A) (f : A → Exec S (Unit {0}))
    → ((a : A) → Keeps P (f a))
    → Keeps P (for_each l f)
unfolding for_each
Keeps-for_each [] f k = Keeps-pure tt
Keeps-for_each (x ∷ l) f k = Keeps-bind (f x) (λ _. for_each l f) (k x) (λ _. Keeps-for_each l f k)

pub Keeps-recovering :
    {S : Type 0} {P : S → Type 0} (m : Exec S (Unit {0})) → Keeps P m → Keeps P (recovering m)
unfolding recovering
Keeps-recovering m k = record { at = λ s h. k.at s h }

pub Keeps-zoom :
    {S T A : Type 0} {P : S → Type 0} (get : S → T) (put : S → T → S) (m : Exec T A)
    → ((s : S) → P s → P (put s (m (get s)).1))
    → Keeps P (zoom get put m)
unfolding zoom
Keeps-zoom get put m k = record { at = k }

pub ruleset keeps_rules = (
  Keeps-pure, Keeps-raise, Keeps-panic, Keeps-crash, Keeps-gets, Keeps-if, Keeps-attempt,
  Keeps-ignore, Keeps-or_panic, Keeps-goroutine, Keeps-recovering, Keeps-bind, Keeps-on_exit,
  Keeps-for_each,
)
