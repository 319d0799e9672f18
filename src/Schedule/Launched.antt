-- ===== src/Schedule/Launched.antt =====
-- The end of expandAction, shrinkAction and deployAction of service/schedulesvc.go, once the task is
-- created: its instructions are decoded, or it has failed.
use schedulx.Prelude.{ℕ, ◌≡◌, refl, List, String}
use schedulx.Effect.{
  new_error, message, Result, ok, err, Outcome, returns, fails, pure, raise, ◌>>=◌, on_exit,
}
use schedulx.Effect.Keeps.{exit_with-state}
use schedulx.Types.{ScheduleTemplate, fail}
use schedulx.Env.{Env}
use schedulx.World.{World}
use schedulx.Instr.{InstrReq}
use schedulx.Schedule.Start.{Launch, launch, fail_task, decode_group}
use schedulx.Schedule.Final.{StatusWritten, update-StatusWritten, written-returns, exit-same}

module _ (e : Env) (problem : String) (request : ℕ → InstrReq) (n : ℕ) where
  abbrev pub launch_of : List ℕ → Launch
  launch_of ids = record { task_id = n; instr_group = ids; request = request n }

  -- What follows from the decoded group.
  abbrev pub Launched : Result (List ℕ) → World e → Outcome Launch × World e → Type 0
  Launched (ok ids) w (o, w') = (o ≡ returns (launch_of ids)) × (w' ≡ w)
  Launched (err x) w (o, w') = (o ≡ fails (new_error problem)) × StatusWritten e n fail problem w w'

  decoded-Launched :
      (r : Result (List ℕ)) (w : World e)
      → Launched r w (
          on_exit
            (fail_task e n)
            ((elim r [ ok ids ↦ pure ids | err x ↦ raise (new_error problem) ]) >>= λ ids.
              pure (launch_of ids))
            w)
  unfolding on_exit fail_task ◌>>=◌ pure raise message
  decoded-Launched (ok ids) w = (refl, refl)
  decoded-Launched (err x) w = (
    exit-same e n (fails (new_error problem)) _ (written-returns e n fail problem w),
    rw exit_with-state (update-StatusWritten e n fail problem w),
  )

-- Once the task is created, the action answers with the task and the instructions of its template,
-- and has written nothing more; or, where the group of the template is not readable, it fails with its
-- own message and sends the statement that writes the failure with this message to the task's row.
pub launch-Launched :
    (e : Env) (problem : String) (tmpl : ScheduleTemplate) (request : ℕ → InstrReq) (n : ℕ)
    (w : World e)
    → Launched e problem request n
        (e.ids_json.decode tmpl.instr_group)
        w
        (launch e problem tmpl request n w)
unfolding launch decode_group
launch-Launched e problem tmpl request n w =
    decoded-Launched e problem request n (e.ids_json.decode tmpl.instr_group) w
