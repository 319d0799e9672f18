-- ===== src/Poll/Fuel.antt =====
-- How much fuel the polling loop of `pollQueryExpandAction` and `poolQueryTask` uses.
use schedulx.Prelude.{
  ℕ, zero, suc, ◌+◌, ◌*◌, ◌<◌, ◌≤◌, ◌≡◌, refl, arith, Option, none, some, String, Bool, true, false,
  ltb, if◌then◌else◌,
}
use schedulx.Effect.{
  Exec, Result, ok, err, Outcome, returns, fails, panics, crashes, ◌>>=◌, continue, pure,
}
use schedulx.Env.{Env}
use schedulx.World.{Site}
use schedulx.EnvOps.Jobs.{wait}
use schedulx.Poll.{clock, judge, answered, poll, time_wait}
use schedulx.Poll.Clock.{wait-clock}

-- The loop has sent something or ended in another way: its fuel did not run out.
abbrev pub Sent : Outcome (Option Bool) → Type 0
Sent (returns none) = ⊥
Sent (returns (some b)) = Unit {0}
Sent (fails x) = Unit {0}
Sent panics = Unit {0}
Sent crashes = Unit {0}

module _ (e : Env) (pause : ℕ) (describe : Exec (Site e) (Result String)) where
  judged :
      (st time : ℕ) (next : Exec (Site e) (Option Bool)) (a b : Bool) (s : Site e)
      → ltb (st + (time_wait + 2)) time ≡ b
      → (time ≤ st + 302 → Sent (next s).0)
      → Sent ((if a then pure (some true) else if b then pure (some false) else next) s).0
  unfolding pure
  judged st time next true b s c h = tt
  judged st time next false true s c h = tt
  judged st time next false false s c h = h (ground arith)

  answered-Sent :
      (st : ℕ) (again next : Exec (Site e) (Option Bool)) (a : Result String) (s : Site e)
      → Sent (again s).0
      → (clock e s ≤ st + 302 → Sent (next s).0)
      → Sent (answered e st again next a s).0
  unfolding answered ◌>>=◌ judge
  answered-Sent st again next (err x) s h k = h
  answered-Sent st again next (ok rate) s h k = judged st (clock e s) next _ _ s refl k

  module _ (st : ℕ) (steady : (s : Site e) → clock e s ≤ clock e (describe s).1)
      (slow : 3 ≤ pause) where
    -- Fuel for the errors that are left, and for every round until the time is over.
    abbrev Enough : ℕ → ℕ → Site e → Type 0
    Enough fuel left s = (left < fuel) × (st + 303 + 3 * left ≤ clock e s + 3 * fuel)

    described-Sent :
        (again next : Exec (Site e) (Option Bool)) (o : Outcome (Result String)) (s : Site e)
        → Sent (again s).0
        → (clock e s ≤ st + 302 → Sent (next s).0)
        → Sent (continue o (answered e st again next) s).0
    described-Sent again next (returns a) s h k = answered-Sent st again next a s h k
    described-Sent again next (fails x) s h k = tt
    described-Sent again next panics s h k = tt
    described-Sent again next crashes s h k = tt

    waited-Sent :
        (again next : Exec (Site e) (Option Bool)) (o : Outcome (Unit {0})) (s : Site e)
        → Sent (again (describe s).1).0
        → (clock e (describe s).1 ≤ st + 302 → Sent (next (describe s).1).0)
        → Sent (continue o (λ _. describe >>= answered e st again next) s).0
    unfolding ◌>>=◌
    waited-Sent again next (returns a) s h k =
        described-Sent again next (describe s).0 (describe s).1 h k
    waited-Sent again next (fails x) s h k = tt
    waited-Sent again next panics s h k = tt
    waited-Sent again next crashes s h k = tt

    poll-Sent :
        (fuel left : ℕ) (s : Site e)
        → Enough fuel left s
        → Sent (poll e fuel pause describe st left s).0
    unfolding poll ◌>>=◌ pure
    poll-Sent zero left s h = grind arith
    poll-Sent (suc fuel) zero s h = tt
    poll-Sent (suc fuel) (suc left) s (few, late) =
        let s1 = (wait e pause s).1 in
        let s2 = (describe s1).1 in
        waited-Sent _ _ (wait e pause s).0 s1
          (poll-Sent fuel left s2 (omega arith, omega (arith, wait-clock e pause s, steady s1)))
          λ t. poll-Sent fuel (suc left) s2 (
            omega (arith, wait-clock e pause s, steady s1),
            omega (arith, wait-clock e pause s, steady s1),
          )

-- With a pause of at least 3 seconds between the rounds, and a query during which the time does not
-- run backwards, the loop that polls ends before its 110 rounds of fuel are used up.
pub poll-Enough :
    (e : Env) (pause : ℕ) (describe : Exec (Site e) (Result String)) (s : Site e)
    → ((s : Site e) → clock e s ≤ clock e (describe s).1)
    → 3 ≤ pause
    → Sent (poll e 110 pause describe (clock e s) 3 s).0
poll-Enough e pause describe s steady slow =
    poll-Sent e pause describe (clock e s) steady slow 110 3 s (omega arith, omega arith)
