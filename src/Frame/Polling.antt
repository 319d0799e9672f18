-- ===== src/Frame/Polling.antt =====
-- The rows of the tasks under the polling and paging loops.
use schedulx.Prelude.{ℕ, zero, suc, ◌+◌, List, Option, none, some, String, Bool}
use schedulx.Effect.{Exec, Result, ok, err}
use schedulx.Effect.Keeps.{Keeps, Keeps-bind}
use schedulx.Types.{Task, InstanceInfo}
use schedulx.Env.{Env}
use schedulx.World.{Site}
use schedulx.Poll
use schedulx.Frame.{Framed}
use schedulx.Frame.Parts.{site_rules, wait-Framed}

module _ (e : Env) (n : ℕ) (before : List Task) where
  abbrev P : Site e → Type 0
  P = Framed e n before

  judge-Framed :
      (st : ℕ) (rate : String) (next : Exec (Site e) (Option Bool)) (time : ℕ)
      → Keeps P next
      → Keeps P (Poll.judge e st rate next time)
  unfolding Poll.judge
  judge-Framed st rate next time k = search site_rules

  answered-Framed :
      (st : ℕ) (again next : Exec (Site e) (Option Bool)) (r : Result String)
      → Keeps P again
      → Keeps P next
      → Keeps P (Poll.answered e st again next r)
  unfolding Poll.answered
  answered-Framed st again next (err x) ka kn = ka
  answered-Framed st again next (ok rate) ka kn = search (site_rules, judge-Framed)

  poll-Framed :
      (fuel pause : ℕ) (describe : Exec (Site e) (Result String)) (st left : ℕ)
      → Keeps P describe
      → Keeps P (Poll.poll e fuel pause describe st left)
  unfolding Poll.poll
  poll-Framed zero pause describe st left k = search site_rules
  poll-Framed (suc fuel) pause describe st zero k = search site_rules
  poll-Framed (suc fuel) pause describe st (suc left) k =
      Keeps-bind _ _ (wait-Framed e n before pause) λ _. Keeps-bind _ _ k λ r.
        answered-Framed st _ _ r (poll-Framed fuel pause describe st left k)
          (poll-Framed fuel pause describe st (suc left) k)

  select_result-Framed :
      (st : ℕ) (sent : Option Bool) (time : ℕ) → Keeps P (Poll.select_result e st sent time)
  unfolding Poll.select_result
  select_result-Framed st none time = search site_rules
  select_result-Framed st (some done) time = search site_rules

  pub poll_until_done-Framed :
      (pause : ℕ) (describe : Exec (Site e) (Result String))
      → Keeps P describe
      → Keeps P (Poll.poll_until_done e pause describe)
  unfolding Poll.poll_until_done
  poll_until_done-Framed pause describe k = search (site_rules, poll-Framed, select_result-Framed)

  page_done-Framed :
      (fetch : ℕ → Exec (Site e) (ℕ × List InstanceInfo))
      (next : List InstanceInfo → Exec (Site e) (List InstanceInfo)) (page : ℕ)
      (got : List InstanceInfo) (a : ℕ × List InstanceInfo)
      → ((l : List InstanceInfo) → Keeps P (next l))
      → Keeps P (Poll.page_done fetch next page got a)
  unfolding Poll.page_done
  page_done-Framed fetch next page got (total, items) k = search site_rules

  pub collect-Framed :
      (fetch : ℕ → Exec (Site e) (ℕ × List InstanceInfo)) (fuel page : ℕ) (got : List InstanceInfo)
      → ((p : ℕ) → Keeps P (fetch p))
      → Keeps P (Poll.collect fetch fuel page got)
  unfolding Poll.collect
  collect-Framed fetch zero page got k = search site_rules
  collect-Framed fetch (suc fuel) page got k =
      Keeps-bind _ _ (k page)
        λ a. page_done-Framed fetch _ page got a (λ l. collect-Framed fetch fuel (page + 1) l k)
