-- ===== src/Effect/Ends.antt =====
-- What is true of the value and the state at the end of one run of an action: the rule for a sequence,
-- and for the actions it is built from.
use schedulx.Prelude.{Bool, true, false, if◌then◌else◌, ◌≡◌, refl}
use schedulx.Effect.{
  Error, Result, ok, err, Outcome, returns, fails, panics, crashes, Exec, continue, ◌>>=◌, zoom,
  call, outcome, pure, raise, attempt, attempted,
}

-- A run that returns ends in `Q`, one that panics has the reason `N`, and none crashes.
abbrev pub Ended : {S A : Type 0} → Type 0 → (A → S → Type 0) → Outcome A × S → Type 0
Ended N Q (returns a, s) = Q a s
Ended N Q (fails x, s) = Unit {0}
Ended N Q (panics, s) = N
Ended N Q (crashes, s) = ⊥

pub record Ends {S A : Type 0} (N : Type 0) (Q : A → S → Type 0) (r : Outcome A × S) : Type 0 where
  pub at : Ended N Q r

module _ {S A B : Type 0} {N : Type 0} where
  continue-Ends :
      (P : A → S → Type 0) (Q : B → S → Type 0) (o : Outcome A) (s : S) (f : A → Exec S B)
      → Ended N P (o, s)
      → ((a : A) (t : S) → P a t → Ends N Q (f a t))
      → Ended N Q (continue o f s)
  continue-Ends P Q (returns a) s f p k = (k a s p).at
  continue-Ends P Q (fails x) s f p k = tt
  continue-Ends P Q panics s f p k = p
  continue-Ends P Q crashes s f p k = p

  pub Ends-bind :
      {P : A → S → Type 0} {Q : B → S → Type 0} (m : Exec S A) (f : A → Exec S B) (s : S)
      → Ends N P (m s)
      → ((a : A) (t : S) → P a t → Ends N Q (f a t))
      → Ends N Q ((m >>= f) s)
  unfolding ◌>>=◌
  Ends-bind {P = P} {Q = Q} m f s p k = record {
    at = let (o, t) = m s in continue-Ends P Q o t f p.at k;
  }

module _ {S A : Type 0} {N : Type 0} {Q : A → S → Type 0} where
  pub Ends-pure : (a : A) (s : S) → Q a s → Ends N Q (pure a s)
  unfolding pure
  Ends-pure a s q = record { at = q }

  pub Ends-raise : (x : Error) (s : S) → Ends N Q (raise x s)
  unfolding raise
  Ends-raise x s = record { at = tt }

  pub Ends-if :
      (b : Bool) (m n : Exec S A) (s : S)
      → Ends N Q (m s)
      → Ends N Q (n s)
      → Ends N Q ((if b then m else n) s)
  Ends-if true m n s p q = p
  Ends-if false m n s p q = q

  pub Ends-mono :
      {P : A → S → Type 0} (r : Outcome A × S)
      → ((a : A) (t : S) → P a t → Q a t)
      → Ends N P r
      → Ends N Q r
  Ends-mono (returns a, s) k p = record { at = k a s p.at }
  Ends-mono (fails x, s) k p = record { at = tt }
  Ends-mono (panics, s) k p = record { at = p.at }
  Ends-mono (crashes, s) k p = record { at = p.at }

-- The same with a further reason to panic.
pub Ends-weaken :
    {S A : Type 0} {N M : Type 0} {Q : A → S → Type 0} (r : Outcome A × S)
    → (N → M)
    → Ends N Q r
    → Ends M Q r
Ends-weaken (returns a, s) k p = record { at = p.at }
Ends-weaken (fails x, s) k p = record { at = tt }
Ends-weaken (panics, s) k p = record { at = k p.at }
Ends-weaken (crashes, s) k p = record { at = p.at }

module _ {S T A : Type 0} {N : Type 0} {Q : A → S → Type 0} (put : T → S) where
  statement-Ends :
      (r : Result A) (t : T) → ((a : A) → r ≡ ok a → Q a (put t)) → Ends N Q (outcome r, put t)
  statement-Ends (ok a) t k = record { at = k a refl }
  statement-Ends (err x) t k = record { at = tt }

-- A statement on a part of the state, by the law of its result.
pub Ends-statement :
    {S T A : Type 0} {N : Type 0} {Q : A → S → Type 0} (get : S → T) (put : S → T → S)
    (f : T → Result A × T) (s : S)
    → ((a : A) → (f (get s)).0 ≡ ok a → Q a (put s (f (get s)).1))
    → Ends N Q (zoom get put (call f) s)
unfolding zoom call
Ends-statement get put f s k = let (r, t) = f (get s) in statement-Ends (put s) r t k

module _ {S T A : Type 0} {N : Type 0} {Q : A → S → Type 0} where
  zoomed-Ends :
      (put : T → S) (r : Outcome A × T)
      → Ends N (λ a t. Q a (put t)) r
      → Ends N Q (let (o, t) = r in (o, put t))
  zoomed-Ends put (returns a, t) p = record { at = p.at }
  zoomed-Ends put (fails x, t) p = record { at = tt }
  zoomed-Ends put (panics, t) p = record { at = p.at }
  zoomed-Ends put (crashes, t) p = record { at = p.at }

  pub Ends-zoom :
      (get : S → T) (put : S → T → S) (m : Exec T A) (s : S)
      → Ends N (λ a t. Q a (put s t)) (m (get s))
      → Ends N Q (zoom get put m s)
  unfolding zoom
  Ends-zoom get put m s k = zoomed-Ends (put s) (m (get s)) k

-- What an attempt has found, where it was no error.
abbrev pub Found : {S A : Type 0} → (A → S → Type 0) → Result A → S → Type 0
Found Q (ok a) s = Q a s
Found Q (err x) s = Unit {0}

module _ {S A : Type 0} {N : Type 0} {Q : A → S → Type 0} where
  attempted-Ends : (r : Outcome A × S) → Ends N Q r → Ends N (Found Q) (attempted r.0, r.1)
  attempted-Ends (returns a, s) p = record { at = p.at }
  attempted-Ends (fails x, s) p = record { at = tt }
  attempted-Ends (panics, s) p = record { at = p.at }
  attempted-Ends (crashes, s) p = record { at = p.at }

  pub Ends-attempt : (m : Exec S A) (s : S) → Ends N Q (m s) → Ends N (Found Q) (attempt m s)
  unfolding attempt
  Ends-attempt m s k = attempted-Ends (m s) k
