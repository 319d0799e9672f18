-- ===== src/Poll/Done.antt =====
-- When the `select` of service/bridgxsvc.go and service/noteactsvc.go takes a task as done.
use schedulx.Prelude.{
  ℕ, zero, suc, ◌≡◌, Option, none, some, String, Bool, true, false, leb, ltb, ◌+◌,
}
use schedulx.Effect.{Exec, Result, ok, err, crash, gets, ◌>>=◌}
use schedulx.Effect.Gives.{
  Gives, Returned, Gives-pure, Gives-raise, Gives-if, Gives-bind, given_bind-Gives,
}
use schedulx.Env.{Env}
use schedulx.World.{Site}
use schedulx.Poll.{judge, answered, poll, select_result, poll_until_done, time_wait, clock}

abbrev NotDone : Option Bool → Type 0
NotDone none = Unit {0}
NotDone (some true) = ⊥
NotDone (some false) = Unit {0}

-- An error, or a rate below 1.
abbrev pub NoPass : (e : Env) → Result String → Type 0
NoPass e (ok rate) = e.remote.at_least_one rate ≡ false
NoPass e (err x) = Unit {0}

abbrev Never : Unit {0} → Type 0
Never u = ⊥

crash-Never : {S : Type 0} → Gives {S = S} Never crash
unfolding crash
crash-Never = record { at = λ s. tt }

module _ (e : Env) (pause : ℕ) (describe : Exec (Site e) (Result String))
    (low : Gives (NoPass e) describe) where
  answered-NotDone :
      (st : ℕ) (again next : Exec (Site e) (Option Bool)) (a : Result String)
      → NoPass e a
      → Gives NotDone again
      → Gives NotDone next
      → Gives NotDone (answered e st again next a)
  unfolding answered judge
  answered-NotDone st again next (err x) h k l = k
  answered-NotDone st again next (ok rate) h k l =
      Gives-bind _ _
        λ time. rw h (Gives-if (ltb (st + (time_wait + 2)) time) _ _ (Gives-pure _ tt) l)

  poll-NotDone : (fuel st left : ℕ) → Gives NotDone (poll e fuel pause describe st left)
  unfolding poll
  poll-NotDone zero st left = Gives-pure _ tt
  poll-NotDone (suc fuel) st zero = Gives-pure _ tt
  poll-NotDone (suc fuel) st (suc left) = Gives-bind _ _ λ _.
      given_bind-Gives (NoPass e) _ _ low λ a h.
        answered-NotDone st _ _ a h (poll-NotDone fuel st left) (poll-NotDone fuel st (suc left))

  select-Never :
      (st : ℕ) (sent : Option Bool) (time : ℕ)
      → NotDone sent
      → Gives Never (select_result e st sent time)
  unfolding select_result
  select-Never st none time h = crash-Never
  select-Never st (some true) time h = elim h [ ]
  select-Never st (some false) time h =
      Gives-if (leb time (st + time_wait)) _ _ (Gives-raise _) (Gives-raise _)

  waited-Never : Gives Never (poll_until_done e pause describe)
  unfolding poll_until_done
  waited-Never = Gives-bind (gets (clock e)) _ λ st.
      given_bind-Gives NotDone (poll e 110 pause describe st 3)
        (λ sent. gets (clock e) >>= λ time. select_result e st sent time) (poll-NotDone 110 st 3)
        λ sent h. Gives-bind (gets (clock e)) _ λ time. select-Never st sent time h

-- Where every answer of a query is an error or a rate below 1, waiting for the task does not return: a
-- task is taken as done only after a rate of 1.
pub poll_until_done-Never :
    (e : Env) (pause : ℕ) (describe : Exec (Site e) (Result String)) (s : Site e)
    → ((s : Site e) → Returned (NoPass e) (describe s).0)
    → Returned (λ u. ⊥) (poll_until_done e pause describe s).0
poll_until_done-Never e pause describe s low =
    (waited-Never e pause describe (record { at = low })).at s
