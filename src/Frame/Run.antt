-- ===== src/Frame/Run.antt =====
-- The rows of the tasks under the loop over the instructions.
use schedulx.Repo.Tasks.{update_task_relation_task_id}
use std.Path.{subst}
use schedulx.Prelude.{ℕ, String, List, [], ◌∷◌, ◌≡◌, ◌==◌, Option, none, some, refl, sym, map}
use schedulx.Effect.{Exec, Outcome, returns, fails, panics, crashes}
use schedulx.Effect.Keeps.{
  Keeps, Keeps-zoom, Keeps-bind, Keeps-on_exit, Keeps-pure, Keeps-raise, Keeps-if, Keeps-ignore,
  keeps_rules,
}
use schedulx.Effect.Gives.{given_bind-Keeps}
use schedulx.Types.{
  Task, Action, bridgx_expand, bridgx_shrink, node_act_init_base, node_act_init_svc, mount_slb,
  umount_slb, mount_nginx, umount_nginx, node_act_before_download, node_act_download,
  node_act_before_deploy, node_act_deploy, node_act_after_deploy, other_action, InstrRecStatus,
  RelationField,
}
use schedulx.Env.{Env}
use schedulx.World.{Site, World, on_site, on_instructions, on_instr_records}
use schedulx.Instr.{InstrReq}
use schedulx.Instr.Exec.{
  Answer, dispatch, exec_act, create_instr_record, update_instr_record, close_record,
}
use schedulx.Schedule.Run.{carry, not_nil, do_instr, run_group}
use schedulx.Schedule.SameTask.{TaskOf, answered-TaskOf, do_instr-TaskOf}
use schedulx.Frame.{Framed, frame}
use schedulx.Frame.Deploys.{dispatch-Framed}
use schedulx.Frame.Parts.{update_relation-Framed}

module _ (e : Env) (n : ℕ) (before : List Task) where
  -- `Framed`, of the whole world.
  abbrev pub WorldFramed : World e → Type 0
  WorldFramed w = Framed e n before w.site

  on_site-Framed :
      {A : Type 0} (m : Exec (Site e) A)
      → Keeps (Framed e n before) m
      → Keeps WorldFramed (on_site m)
  on_site-Framed m k = Keeps-zoom _ _ _ λ w h. k.at w.site h

  on_records-Framed :
      {A : Type 0} (m : Exec e.instr_records.Store A)
      → Keeps WorldFramed (on_instr_records {e = e} m)
  on_records-Framed m = Keeps-zoom _ _ _ λ w h. h

  on_instructions-Framed :
      {A : Type 0} (m : Exec e.instructions.Store A) → Keeps WorldFramed (on_instructions {e = e} m)
  on_instructions-Framed m = Keeps-zoom _ _ _ λ w h. h

  create_record-Framed : (t k : ℕ) → Keeps WorldFramed (create_instr_record e t k)
  unfolding create_instr_record
  create_record-Framed t k = Keeps-bind _ _ (on_records-Framed _) λ _. Keeps-pure tt

  update_record-Framed :
      (t k : ℕ) (status : InstrRecStatus) (msg : String)
      → Keeps WorldFramed (update_instr_record e t k status msg)
  unfolding update_instr_record
  update_record-Framed t k status msg =
      Keeps-bind _ _ (on_records-Framed _)
        λ m. Keeps-if (m == 1) _ _ (Keeps-pure tt) (Keeps-raise _)

  close_record-Framed :
      (req : InstrReq) (o : Outcome Answer) → Keeps WorldFramed (close_record e req o)
  unfolding close_record
  close_record-Framed req (returns a) = Keeps-ignore _ (update_record-Framed _ _ _ _)
  close_record-Framed req (fails x) = Keeps-ignore _ (update_record-Framed _ _ _ _)
  close_record-Framed req panics = Keeps-ignore _ (update_record-Framed _ _ _ _)
  close_record-Framed req crashes = search keeps_rules

  dispatch_at-Framed :
      (req : InstrReq) (act : Action)
      → TaskOf n req
      → Keeps (Framed e n before) (dispatch e req act)
  dispatch_at-Framed req act h =
      subst (λ k. Keeps (Framed e k before) (dispatch e req act)) h
        (dispatch-Framed e before req act)

  exec_act-Framed :
      (req : InstrReq) (act : Action) → TaskOf n req → Keeps WorldFramed (exec_act e req act)
  unfolding exec_act
  exec_act-Framed req act h = Keeps-on_exit _ _ (close_record-Framed req) (
      Keeps-bind _ _ (create_record-Framed _ _)
        λ _. on_site-Framed _ (dispatch_at-Framed req act h))

  not_nil-Framed : {A : Type 0} (a : Option A) → Keeps WorldFramed (not_nil a)
  unfolding not_nil
  not_nil-Framed none = search keeps_rules
  not_nil-Framed (some a) = search keeps_rules

  relation-Framed :
      (req : InstrReq) (field : RelationField) (k : ℕ)
      → TaskOf n req
      → Keeps WorldFramed (on_site (update_task_relation_task_id e req.schedule_task_id field k))
  relation-Framed req field k h = on_site-Framed _ (
      subst (λ t. Keeps (Framed e n before) (update_task_relation_task_id e t field k)) (sym h)
        (update_relation-Framed e n before field k))

  carry-Framed : (act : Action) (a : Answer) → TaskOf n a.0 → Keeps WorldFramed (carry e act a)
  unfolding carry
  carry-Framed bridgx_expand (req, resp) h =
      Keeps-bind _ _ (not_nil-Framed _)
        λ b. Keeps-bind _ _ (relation-Framed req _ _ h) λ _. Keeps-pure _
  carry-Framed node_act_init_base (req, resp) h = Keeps-bind _ _ (not_nil-Framed _) λ b.
      Keeps-bind _ _ (not_nil-Framed _)
        λ g. Keeps-bind _ _ (relation-Framed req _ _ h) λ _. Keeps-pure _
  carry-Framed node_act_init_svc (req, resp) h = search (keeps_rules, not_nil-Framed)
  carry-Framed mount_slb (req, resp) h = search keeps_rules
  carry-Framed umount_slb (req, resp) h = search (keeps_rules, not_nil-Framed)
  carry-Framed bridgx_shrink (req, resp) h = search keeps_rules
  carry-Framed mount_nginx (req, resp) h = search keeps_rules
  carry-Framed umount_nginx (req, resp) h = search keeps_rules
  carry-Framed node_act_before_download (req, resp) h = search (keeps_rules, not_nil-Framed)
  carry-Framed node_act_download (req, resp) h = search keeps_rules
  carry-Framed node_act_before_deploy (req, resp) h = search keeps_rules
  carry-Framed node_act_deploy (req, resp) h = search keeps_rules
  carry-Framed node_act_after_deploy (req, resp) h = search keeps_rules
  carry-Framed (other_action name) (req, resp) h = search keeps_rules

  do_instr-Framed : (req : InstrReq) → TaskOf n req → Keeps WorldFramed (do_instr e req)
  unfolding do_instr
  do_instr-Framed req h = Keeps-bind _ _ (on_instructions-Framed _) λ i.
      given_bind-Keeps (λ a. TaskOf n a.0) _ _ (exec_act-Framed _ _ h) (answered-TaskOf e n _ _ h)
        (carry-Framed i.instr_action)

  loop-Framed :
      (ids : List ℕ) (req : InstrReq) → TaskOf n req → Keeps WorldFramed (run_group e ids req)
  unfolding run_group
  loop-Framed [] req h = Keeps-pure tt
  loop-Framed (k ∷ ids) req h =
      given_bind-Keeps (TaskOf n) _ _ (do_instr-Framed _ h) (do_instr-TaskOf e n _ h)
        (loop-Framed ids)

-- The instructions of a task, whatever they do and however the loop ends, leave every row of the
-- other tasks as it was, and of the task's own row they change at most the step, the message, the
-- time of the end and the related ids: the task's status stays.
pub run_group-Framed :
    (e : Env) (ids : List ℕ) (req : InstrReq) (w : World e)
    → map (frame req.schedule_task_id) (e.tasks.rows (run_group e ids req w).1.site.tasks)
      ≡ map (frame req.schedule_task_id) (e.tasks.rows w.site.tasks)
run_group-Framed e ids req w =
    (loop-Framed e req.schedule_task_id
        (map (frame req.schedule_task_id) (e.tasks.rows w.site.tasks)) ids req refl).at
      w refl
