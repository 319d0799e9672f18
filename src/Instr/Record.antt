-- ===== src/Instr/Record.antt =====
-- The record of an instruction at the end of `ExecAct` of service/instrsvc.go.
use schedulx.Tool.Text.{sub_str}
use std.Path.{subst}
use schedulx.Prelude.{ℕ, ◌≡◌, refl, sym, String, Bool, true, false, if◌then◌else◌, ◌==◌, ◌&&◌}
use schedulx.Effect.{
  Exec, Error, Result, ok, err, Outcome, returns, fails, panics, crashes, message, call, zoom,
  ◌>>=◌, continue, on_exit, run_deferred, ignore, pure, raise, outcome, rows_affected_invalid,
}
use schedulx.Effect.Keeps.{exit_with-state}
use schedulx.Types.{InstrRecord, InstrRecStatus, rec_succ, rec_fail, Action}
use schedulx.Db
use schedulx.Db.Interface.{Updated}
use schedulx.Env.{Env}
use schedulx.World.{World, on_site}
use schedulx.Instr.{InstrReq}
use schedulx.Instr.Exec.{
  Answer, dispatch, exec_act, create_instr_record, update_instr_record, close_record, set_record,
}

-- The statement that writes the status and the message, cut at 100 characters, to the records of an
-- instruction of a task, and the world with its table of records and else as it was.
abbrev pub RecordWritten :
    (e : Env) → InstrReq → InstrRecStatus → String → World e → World e → Type 0
RecordWritten e req st msg w w' =
    let p = λ (r : InstrRecord). r.task_id == req.schedule_task_id && r.instr_id == req.instr_id in
    let f = λ (r : InstrRecord). record r { instr_status = st; msg = sub_str msg 100 } in
    let (r, s) = e.instr_records.update p f w.instr_records in
    (w' ≡ record w { instr_records = s })
    × Updated (e.instr_records.rows w.instr_records) p f r (e.instr_records.rows w'.instr_records)

-- The last write that the outcome of an instruction asks for.
abbrev pub Recorded : (e : Env) → InstrReq → Outcome Answer → World e → World e → Type 0
Recorded e req (returns a) w w' = RecordWritten e req rec_succ "" w w'
Recorded e req (fails x) w w' = RecordWritten e req rec_fail (message x) w w'
Recorded e req panics w w' = RecordWritten e req rec_succ "" w w'
Recorded e req crashes w w' = w' ≡ w

module _ (e : Env) (req : InstrReq) where
  checked-state :
      (b : Bool) (x : Error) (w : World e)
      → ((if b then pure tt else raise {A = Unit {0}} x) w).1 ≡ w
  unfolding pure raise
  checked-state true x w = refl
  checked-state false x w = refl

  abbrev check_rows : ℕ → Exec (World e) (Unit {0})
  check_rows n = if n == 1 then pure tt else raise rows_affected_invalid

  check_rows-state : (r : Result ℕ) (w : World e) → (continue (outcome r) check_rows w).1 ≡ w
  check_rows-state (ok k) w = checked-state (k == 1) _ w
  check_rows-state (err x) w = refl

  update-RecordWritten :
      (st : InstrRecStatus) (msg : String) (w : World e)
      → RecordWritten e req st msg w
          (ignore (update_instr_record e req.schedule_task_id req.instr_id st msg) w).1
  unfolding update_instr_record ignore zoom ◌>>=◌ Db.updates call set_record
  update-RecordWritten st msg w =
      let p =
        λ (r : InstrRecord). r.task_id == req.schedule_task_id && r.instr_id == req.instr_id in
      let f = set_record e st msg in
      let (r, s) = e.instr_records.update p f w.instr_records in
      (
        check_rows-state r (record w { instr_records = s }),
        subst
            (λ (q : World e).
              Updated (e.instr_records.rows w.instr_records) p f r
                (e.instr_records.rows q.instr_records))
            (sym (check_rows-state r (record w { instr_records = s })))
            (e.instr_records.update_law p f w.instr_records),
      )

  recorded :
      (o : Outcome Answer) (w : World e)
      → Recorded e req o w (run_deferred (close_record e req) o w).1
  unfolding close_record
  recorded (returns a) w = rw exit_with-state (update-RecordWritten rec_succ "" w)
  recorded (fails x) w = rw exit_with-state (update-RecordWritten rec_fail (message x) w)
  recorded panics w = rw exit_with-state (update-RecordWritten rec_succ "" w)
  recorded crashes w = refl

-- An instruction, with the opening of its record, ends by sending one statement that sets the status and
-- the message of the records of this instruction of this task, and the world is else as it was: success when it returned, failure with the text of the error when it failed, success
-- also when it panicked, and nothing when the process ended.
pub exec_act-Recorded :
    (e : Env) (req : InstrReq) (act : Action) (w : World e)
    → let (o, w') =
        (create_instr_record e req.schedule_task_id req.instr_id >>= λ _.
        on_site (dispatch e req act))
          w in
      Recorded e req o w' (exec_act e req act w).1
unfolding exec_act on_exit
exec_act-Recorded e req act w =
    let (o, w') =
      (create_instr_record e req.schedule_task_id req.instr_id >>= λ _.
      on_site (dispatch e req act))
        w in
    recorded e req o w'
