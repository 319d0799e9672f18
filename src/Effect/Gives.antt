-- ===== src/Effect/Gives.antt =====
-- The values that actions return, one rule for each way to build an action.
use schedulx.Prelude.{Bool, true, false, if◌then◌else◌}
use schedulx.Effect.{
  Error, Outcome, returns, fails, panics, crashes, Exec, pure, raise, panic, continue, ◌>>=◌,
  exit_with, run_deferred, on_exit, zoom,
}
use schedulx.Effect.Keeps.{Keeps}

abbrev pub Returned : {A : Type 0} → (A → Type 0) → Outcome A → Type 0
Returned P (returns a) = P a
Returned P (fails e) = Unit {0}
Returned P panics = Unit {0}
Returned P crashes = Unit {0}

-- Whatever `m` returns satisfies `P`.
pub record Gives {S A : Type 0} (P : A → Type 0) (m : Exec S A) : Type 0 where
  pub at : (s : S) → Returned P (m s).0

module _ {S A : Type 0} {P : A → Type 0} where
  pub Gives-pure : (a : A) → P a → Gives {S = S} P (pure a)
  unfolding pure
  Gives-pure a p = record { at = λ s. p }

  pub Gives-raise : (e : Error) → Gives {S = S} P (raise e)
  unfolding raise
  Gives-raise e = record { at = λ s. tt }

  pub Gives-panic : Gives {S = S} P panic
  unfolding panic
  Gives-panic = record { at = λ s. tt }

  pub Gives-if : (b : Bool) (m n : Exec S A) → Gives P m → Gives P n → Gives P (if b then m else n)
  Gives-if true m n k l = k
  Gives-if false m n k l = l

  continue-Gives :
      {B : Type 0} (o : Outcome B) (f : B → Exec S A) (s : S)
      → ((b : B) → Gives P (f b))
      → Returned P (continue o f s).0
  continue-Gives (returns b) f s k = (k b).at s
  continue-Gives (fails e) f s k = tt
  continue-Gives panics f s k = tt
  continue-Gives crashes f s k = tt

  pub Gives-bind :
      {B : Type 0} (m : Exec S B) (f : B → Exec S A) → ((b : B) → Gives P (f b)) → Gives P (m >>= f)
  unfolding ◌>>=◌
  Gives-bind m f k = record { at = λ s. let (o, s') = m s in continue-Gives o f s' k }

module _ {S A : Type 0} (P : A → Type 0) where
  exit_with-Returned :
      (o : Outcome A) (r : Outcome (Unit {0}) × S) → Returned P o → Returned P (exit_with o r).0
  exit_with-Returned o (returns u, s) p = p
  exit_with-Returned o (fails e, s) p = p
  exit_with-Returned o (panics, s) p = tt
  exit_with-Returned o (crashes, s) p = tt

  run_deferred-Returned :
      (h : Outcome A → Exec S (Unit {0})) (o : Outcome A) (s : S)
      → Returned P o
      → Returned P (run_deferred h o s).0
  run_deferred-Returned h (returns a) s p = exit_with-Returned (returns a) (h (returns a) s) p
  run_deferred-Returned h (fails e) s p = exit_with-Returned (fails e) (h (fails e) s) p
  run_deferred-Returned h panics s p = exit_with-Returned panics (h panics s) p
  run_deferred-Returned h crashes s p = tt

pub Gives-on_exit :
    {S A : Type 0} {P : A → Type 0} (h : Outcome A → Exec S (Unit {0})) (m : Exec S A)
    → Gives P m
    → Gives P (on_exit h m)
unfolding on_exit
Gives-on_exit {P = P} h m k = record {
  at = λ s. let (o, s') = m s in run_deferred-Returned P h o s' (k.at s);
}

given-Keeps :
    {S A B : Type 0} (P : S → Type 0) (R : A → Type 0) (o : Outcome A) (f : A → Exec S B) (s : S)
    → Returned R o
    → ((a : A) → R a → Keeps P (f a))
    → P s
    → P (continue o f s).1
given-Keeps P R (returns a) f s r k h = (k a r).at s h
given-Keeps P R (fails e) f s r k h = h
given-Keeps P R panics f s r k h = h
given-Keeps P R crashes f s r k h = h

-- An invariant of a sequence, where the second action keeps it for what the first gives.
pub given_bind-Keeps :
    {S A B : Type 0} {P : S → Type 0} (R : A → Type 0) (m : Exec S A) (f : A → Exec S B)
    → Keeps P m
    → Gives R m
    → ((a : A) → R a → Keeps P (f a))
    → Keeps P (m >>= f)
unfolding ◌>>=◌
given_bind-Keeps {P = P} R m f km g k = record {
  at = λ s h. let (o, s') = m s in given-Keeps P R o f s' (g.at s) k (km.at s h);
}

module _ {S A B : Type 0} where
  given-Returned :
      (R : A → Type 0) (Q : B → Type 0) (o : Outcome A) (f : A → Exec S B) (s : S)
      → Returned R o
      → ((a : A) → R a → Gives Q (f a))
      → Returned Q (continue o f s).0
  given-Returned R Q (returns a) f s r k = (k a r).at s
  given-Returned R Q (fails e) f s r k = tt
  given-Returned R Q panics f s r k = tt
  given-Returned R Q crashes f s r k = tt

  -- What a sequence gives, where the second action gives it for what the first gives.
  pub given_bind-Gives :
      {Q : B → Type 0} (R : A → Type 0) (m : Exec S A) (f : A → Exec S B)
      → Gives R m
      → ((a : A) → R a → Gives Q (f a))
      → Gives Q (m >>= f)
  unfolding ◌>>=◌
  given_bind-Gives {Q = Q} R m f g k = record {
    at = λ s. let (o, s') = m s in given-Returned R Q o f s' (g.at s) k;
  }

pub Gives-zoom :
    {S T A : Type 0} {P : A → Type 0} (get : S → T) (put : S → T → S) (m : Exec T A)
    → Gives P m
    → Gives P (zoom get put m)
unfolding zoom
Gives-zoom get put m k = record { at = λ s. k.at (get s) }

pub ruleset gives_rules =
    (Gives-pure, Gives-raise, Gives-panic, Gives-if, Gives-bind, Gives-on_exit)
