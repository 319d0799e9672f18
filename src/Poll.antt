-- ===== src/Poll.antt =====
-- The two loops that the BridgX and the node services share: waiting for a task by asking for its
-- success rate, and reading a list page by page.
pub mod Done
pub mod Clock
pub mod Fuel
pub mod Pages
use schedulx.Prelude.{
  ℕ, zero, suc, ◌+◌, Bool, true, false, Option, none, some, List, [], ◌∷◌, ◌++◌, String, leb, ltb,
  ◌==◌, ◌&&◌, if◌then◌else◌, length,
}
use schedulx.Effect.{new_error, Result, ok, err, Exec, pure, raise, gets, crash, ◌>>=◌, ◌>>◌}
use schedulx.Types.{InstanceInfo}
use schedulx.Env.{Env}
use schedulx.World.{Site}
use schedulx.EnvOps.Jobs.{wait}

-- `timeWait`, in seconds
abbrev pub time_wait : ℕ
time_wait = 300

module _ (e : Env) where
  abbrev pub clock : Site e → ℕ
  clock s = e.remote.clock s.cloud

  -- After an answer: done, or go on until the time is over.
  unfoldable pub judge : ℕ → String → Exec (Site e) (Option Bool) → ℕ → Exec (Site e) (Option Bool)
  judge st rate next time =
      if e.remote.at_least_one rate
      then pure (some true)
      else if ltb (st + (time_wait + 2)) time
      then pure (some false)
      else next

  unfoldable pub answered :
      ℕ
      → Exec (Site e) (Option Bool)
      → Exec (Site e) (Option Bool)
      → Result String
      → Exec (Site e) (Option Bool)
  unfolding judge
  answered st again next (err x) = again
  answered st again next (ok rate) = gets clock >>= judge st rate next

  -- The goroutine that polls: what it sends to the channel. `left` counts the errors down from 3,
  -- and `none` means that the fuel ran out.
  unfoldable pub poll : ℕ → ℕ → Exec (Site e) (Result String) → ℕ → ℕ → Exec (Site e) (Option Bool)
  unfolding answered ◌>>=◌
  poll zero pause describe st left = pure none
  poll (suc fuel) pause describe st zero = pure (some false)
  poll (suc fuel) pause describe st (suc left) = wait e pause >>= λ _.
      describe
      >>= answered st (poll fuel pause describe st left) (poll fuel pause describe st (suc left))

  -- The `select`: what comes after the timer has fired is not read.
  unfoldable pub select_result : ℕ → Option Bool → ℕ → Exec (Site e) (Unit {0})
  select_result st none time = crash
  select_result st (some done) time =
      if leb time (st + time_wait)
      then (if done then pure tt else raise (new_error "something wrong in expand task"))
      else raise (new_error "pool query timeout")

  -- The goroutine and the `select`, with fuel for every round that fits in the time.
  unfoldable pub poll_until_done : ℕ → Exec (Site e) (Result String) → Exec (Site e) (Unit {0})
  unfolding poll select_result
  poll_until_done pause describe = do
    st ← gets clock
    sent ← poll 110 pause describe st 3
    time ← gets clock
    select_result st sent time

-- The loop over the pages. `got` is `InstanceList`, whose length is `instCnt`.
module _ {S : Type 0} (fetch : ℕ → Exec S (ℕ × List InstanceInfo)) where
  unfoldable pub page_done :
      (List InstanceInfo → Exec S (List InstanceInfo))
      → ℕ
      → List InstanceInfo
      → ℕ × List InstanceInfo
      → Exec S (List InstanceInfo)
  page_done next page got (total, items) =
      if page == 1 && length items == 0
      then raise (new_error "no instances found")
      else if leb total (length (got ++ items))
      then pure (got ++ items)
      else next (got ++ items)

  unfoldable pub collect : ℕ → ℕ → List InstanceInfo → Exec S (List InstanceInfo)
  unfolding page_done ◌>>=◌
  collect zero page got = crash
  collect (suc fuel) page got = fetch page >>= page_done (collect fuel (page + 1)) page got
