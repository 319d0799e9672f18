-- ===== src/Schedule/Final.antt =====
-- The status of a task at the end of its goroutine in service/schedulesvc.go.
use schedulx.Tool.Text.{sub_str}
use std.Path.{subst}
use schedulx.Effect.Keeps.{exit_with-state}
use schedulx.Prelude.{
  ℕ, ◌≡◌, refl, sym, Bool, true, false, if◌then◌else◌, List, ◌==◌, String, ap, some,
}
use schedulx.Effect.{
  Result, ok, err, Outcome, returns, fails, panics, crashes, message, call, zoom, ◌>>=◌, continue,
  on_exit, run_deferred, ignore, pure, goroutine, recovering, sys_panic, Error, raise, outcome,
  ignored, exit_with, died, resumed,
}
use schedulx.Types.{TaskStatus, success, fail, Task}
use schedulx.Db
use schedulx.Db.Interface.{Updated}
use schedulx.Env.{Env}
use schedulx.World.{Site, World, on_site}
use schedulx.Repo.Tasks.{set_status, update_task_status, now, one_row}
use schedulx.Instr.{InstrReq}
use schedulx.Schedule.Run.{run_group, background, final_status, recovered_status}
use schedulx.Schedule.Start.{background_deploy}

-- The statement that writes the status, the time and the message, cut at 100 characters, to the row of
-- the task `n`, and the world with its table of tasks and else as it was.
abbrev pub StatusWritten : (e : Env) → ℕ → TaskStatus → String → World e → World e → Type 0
StatusWritten e n st msg w w' =
    let f = λ (r : Task). record r {
      task_status = st;
      finish_at = some (e.remote.clock w.site.cloud);
      msg = sub_str msg 100;
    } in
    let (r, s) = e.tasks.update (λ r. r.id == n) f w.site.tasks in
    (w' ≡ record w { site = record w.site { tasks = s } })
    × Updated (e.tasks.rows w.site.tasks) (λ r. r.id == n) f r (e.tasks.rows w'.site.tasks)

module _ (e : Env) (n : ℕ) where
  checked-state :
      (b : Bool) (x : Error) (s : Site e)
      → ((if b then pure tt else raise {A = Unit {0}} x) s).1 ≡ s
  unfolding pure raise
  checked-state true x s = refl
  checked-state false x s = refl

  one_row-state : (r : Result ℕ) (s : Site e) → (continue (outcome r) (one_row e) s).1 ≡ s
  unfolding one_row
  one_row-state (ok k) s = checked-state (k == 1) _ s
  one_row-state (err x) s = refl

  pub update-StatusWritten :
      (st : TaskStatus) (msg : String) (w : World e)
      → StatusWritten e n st msg w (ignore (on_site (update_task_status e n st msg)) w).1
  unfolding update_task_status now ignore zoom ◌>>=◌ Db.updates call set_status
  update-StatusWritten st msg w =
      let f = set_status e st msg (e.remote.clock w.site.cloud) in
      let (r, s) = e.tasks.update (λ r. r.id == n) f w.site.tasks in
      let same = one_row-state r (record w.site { tasks = s }) in
      (
        ap (λ (q : Site e). record w { site = q }) same,
        subst
            (λ (q : Site e).
              Updated (e.tasks.rows w.site.tasks) (λ r. r.id == n) f r (e.tasks.rows q.tasks))
            (sym same) (e.tasks.update_law (λ r. r.id == n) f w.site.tasks),
      )

-- The status and the message that a run of the loop asks for, in the goroutine of an expansion or a
-- shrinking. A dead process writes nothing.
abbrev pub Closed : (e : Env) → ℕ → Outcome (Unit {0}) → World e → World e → Type 0
Closed e n (returns a) w w' = StatusWritten e n success "" w w'
Closed e n (fails x) w w' = StatusWritten e n fail (message x) w w'
Closed e n panics w w' = StatusWritten e n success "" w w'
Closed e n crashes w w' = w' ≡ w

-- The same in the goroutine of a deployment.
abbrev pub ClosedDeploy : (e : Env) → ℕ → Outcome (Unit {0}) → World e → World e → Type 0
ClosedDeploy e n (returns a) w w' = StatusWritten e n success "" w w'
ClosedDeploy e n (fails x) w w' = StatusWritten e n fail (message x) w w'
ClosedDeploy e n panics w w' = StatusWritten e n fail "system panic" w w'
ClosedDeploy e n crashes w w' = w' ≡ w

module _ (e : Env) (n : ℕ) where
  closed :
      (o : Outcome (Unit {0})) (w : World e)
      → Closed e n o w (run_deferred (final_status e n) o w).1
  unfolding final_status
  closed (returns a) w = rw exit_with-state (update-StatusWritten e n success "" w)
  closed (fails x) w = rw exit_with-state (update-StatusWritten e n fail (message x) w)
  closed panics w = rw exit_with-state (update-StatusWritten e n success "" w)
  closed crashes w = refl

  closed_deploy :
      (o : Outcome (Unit {0})) (w : World e)
      → ClosedDeploy e n o w (run_deferred (recovered_status e n) o w).1
  unfolding recovered_status message
  closed_deploy (returns a) w = rw exit_with-state (update-StatusWritten e n success "" w)
  closed_deploy (fails x) w = rw exit_with-state (update-StatusWritten e n fail (message x) w)
  closed_deploy panics w = rw exit_with-state (update-StatusWritten e n fail (message sys_panic) w)
  closed_deploy crashes w = refl

-- The goroutine of an expansion or a shrinking ends by sending one statement that sets the status, the
-- time and the message of the task's row, and the world is else as the loop left it: success after a
-- return of the loop, failure with the error's text after an error, and success also after a panic.
-- After a crash of the process nothing is written.
pub background-Closed :
    (e : Env) (n : ℕ) (ids : List ℕ) (req : InstrReq) (w : World e)
    → Closed e n (run_group e ids req w).0 (run_group e ids req w).1 (background e n ids req w).1
unfolding background goroutine on_exit
background-Closed e n ids req w = let (o, w') = run_group e ids req w in closed e n o w'

-- The goroutine of a deployment ends by sending one statement that sets the status, the time and the
-- message of the task's row, and the world is else as the loop left it: success after a return of the
-- loop, failure with the error's text after an error, and failure with the text of a system panic after
-- a panic. After a crash of the process nothing is written.
pub background_deploy-Closed :
    (e : Env) (n : ℕ) (ids : List ℕ) (req : InstrReq) (w : World e)
    → ClosedDeploy e n
        (run_group e ids req w).0
        (run_group e ids req w).1
        (background_deploy e n ids req w).1
unfolding background_deploy recovering on_exit
background_deploy-Closed e n ids req w =
    let (o, w') = run_group e ids req w in closed_deploy e n o w'

module _ (e : Env) (n : ℕ) where
  checked-returns :
      (b : Bool) (x : Error) (s : Site e)
      → ignored ((if b then pure tt else raise {A = Unit {0}} x) s).0 ≡ returns tt
  unfolding pure raise
  checked-returns true x s = refl
  checked-returns false x s = refl

  one_row-returns :
      (r : Result ℕ) (s : Site e) → ignored (continue (outcome r) (one_row e) s).0 ≡ returns tt
  unfolding one_row
  one_row-returns (ok k) s = checked-returns (k == 1) _ s
  one_row-returns (err x) s = refl

  pub written-returns :
      (st : TaskStatus) (msg : String) (w : World e)
      → (ignore (on_site (update_task_status e n st msg)) w).0 ≡ returns tt
  unfolding update_task_status now ignore zoom ◌>>=◌ Db.updates call
  written-returns st msg w =
      one_row-returns
        (e.tasks.update (λ r. r.id == n) (set_status e st msg (e.remote.clock w.site.cloud))
          w.site.tasks).0
        _

  pub exit-same :
      {A : Type 0} (o : Outcome A) (r : Outcome (Unit {0}) × World e)
      → r.0 ≡ returns tt
      → (exit_with o r).0 ≡ o
  exit-same o (returns u, w) h = refl
  exit-same o (fails x, w) h = refl
  exit-same o (panics, w) h = cc h
  exit-same o (crashes, w) h = cc h

  final-same : (o : Outcome (Unit {0})) (w : World e) → (run_deferred (final_status e n) o w).0 ≡ o
  unfolding final_status
  final-same (returns u) w = exit-same (returns u) _ (written-returns success "" w)
  final-same (fails x) w = exit-same (fails x) _ (written-returns fail (message x) w)
  final-same panics w = exit-same panics _ (written-returns success "" w)
  final-same crashes w = refl

  recovered-same :
      (o : Outcome (Unit {0})) (w : World e) → (run_deferred (recovered_status e n) o w).0 ≡ o
  unfolding recovered_status
  recovered-same (returns u) w = exit-same (returns u) _ (written-returns success "" w)
  recovered-same (fails x) w = exit-same (fails x) _ (written-returns fail (message x) w)
  recovered-same panics w = exit-same panics _ (written-returns fail (message sys_panic) w)
  recovered-same crashes w = refl

-- A panic of the loop ends the process where the loop runs for an expansion or a shrinking, and is
-- recovered where it runs for a deployment; else both goroutines end as the loop did.
pub background-died :
    (e : Env) (n : ℕ) (ids : List ℕ) (req : InstrReq) (w : World e)
    → ((background e n ids req w).0 ≡ died (run_group e ids req w).0)
      × ((background_deploy e n ids req w).0 ≡ resumed (run_group e ids req w).0)
unfolding background background_deploy goroutine recovering on_exit
background-died e n ids req w =
    let (o, w') = run_group e ids req w in
    (ap died (final-same e n o w'), ap resumed (recovered-same e n o w'))
