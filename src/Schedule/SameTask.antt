-- ===== src/Schedule/SameTask.antt =====
-- The task of the request that goes through `doInstr` of service/schedulesvc.go.
use std.Path.{subst}
use schedulx.Prelude.{ℕ, ◌≡◌, Option, none, some}
use schedulx.Effect.Gives.{
  Gives, gives_rules, Gives-bind, Gives-on_exit, Gives-pure, Gives-zoom, given_bind-Gives,
  Gives-raise,
}
use schedulx.Types.{
  Action, bridgx_expand, bridgx_shrink, node_act_init_base, node_act_init_svc, mount_slb,
  umount_slb, mount_nginx, umount_nginx, node_act_before_download, node_act_download,
  node_act_before_deploy, node_act_deploy, node_act_after_deploy, other_action,
}
use schedulx.Env.{Env}
use schedulx.Bridgx.{BridgxReq}
use schedulx.Instr.{InstrReq}
use schedulx.Instr.Deploy.{supply_instances}
use schedulx.Instr.Deploy
use schedulx.Instr.{with_steps}
use schedulx.Instr.Exec.{Answer, expand_with, dispatch, exec_act}
use schedulx.Schedule.Run.{carry, do_instr}

module _ (e : Env) (req : InstrReq) where
  abbrev SameTask : Answer → Type 0
  SameTask a = a.0.schedule_task_id ≡ req.schedule_task_id

  supply-SameTask : Gives SameTask (supply_instances e req)
  unfolding supply_instances
  supply-SameTask = search gives_rules

  before_download-SameTask : Gives SameTask (Deploy.node_act_before_download e req)
  unfolding Deploy.node_act_before_download with_steps
  before_download-SameTask = Gives-bind _ _ λ _.
      Gives-on_exit _ _
        (given_bind-Gives SameTask _ _ supply-SameTask λ a h. Gives-bind _ _ λ _. Gives-pure a h)

  expand_with-SameTask : (b : Option BridgxReq) → Gives SameTask (expand_with e req b)
  unfolding expand_with
  expand_with-SameTask none = search gives_rules
  expand_with-SameTask (some b) = search gives_rules

  dispatch-SameTask : (act : Action) → Gives SameTask (dispatch e req act)
  unfolding dispatch
  dispatch-SameTask bridgx_expand = expand_with-SameTask _
  dispatch-SameTask bridgx_shrink = search gives_rules
  dispatch-SameTask node_act_init_base = search gives_rules
  dispatch-SameTask node_act_init_svc = search gives_rules
  dispatch-SameTask mount_slb = search gives_rules
  dispatch-SameTask umount_slb = search gives_rules
  dispatch-SameTask node_act_before_download = before_download-SameTask
  dispatch-SameTask node_act_download = search gives_rules
  dispatch-SameTask node_act_before_deploy = search gives_rules
  dispatch-SameTask node_act_deploy = search gives_rules
  dispatch-SameTask node_act_after_deploy = search gives_rules
  dispatch-SameTask mount_nginx = search gives_rules
  dispatch-SameTask umount_nginx = search gives_rules
  dispatch-SameTask (other_action name) = search gives_rules

  exec_act-SameTask : (act : Action) → Gives SameTask (exec_act e req act)
  unfolding exec_act
  exec_act-SameTask act =
      Gives-on_exit _ _ (Gives-bind _ _ λ _. Gives-zoom _ _ _ (dispatch-SameTask act))

abbrev pub TaskOf : ℕ → InstrReq → Type 0
TaskOf n r = r.schedule_task_id ≡ n

module _ (e : Env) (n : ℕ) where
  pub carry-TaskOf : (act : Action) (a : Answer) → TaskOf n a.0 → Gives (TaskOf n) (carry e act a)
  unfolding carry
  carry-TaskOf bridgx_expand (req, resp) h = Gives-bind _ _ λ b. Gives-bind _ _ λ _. Gives-pure _ h
  carry-TaskOf node_act_init_base (req, resp) h =
      Gives-bind _ _ λ b. Gives-bind _ _ λ g. Gives-bind _ _ λ _. Gives-pure _ h
  carry-TaskOf node_act_init_svc (req, resp) h = Gives-bind _ _ λ b. Gives-pure _ h
  carry-TaskOf mount_slb (req, resp) h = Gives-pure _ h
  carry-TaskOf umount_slb (req, resp) h = Gives-bind _ _ λ b. Gives-bind _ _ λ c. Gives-pure _ h
  carry-TaskOf bridgx_shrink (req, resp) h = Gives-pure _ h
  carry-TaskOf mount_nginx (req, resp) h = Gives-pure _ h
  carry-TaskOf umount_nginx (req, resp) h = Gives-pure _ h
  carry-TaskOf node_act_before_download (req, resp) h = Gives-bind _ _ λ b. Gives-pure _ h
  carry-TaskOf node_act_download (req, resp) h = Gives-pure _ h
  carry-TaskOf node_act_before_deploy (req, resp) h = Gives-pure _ h
  carry-TaskOf node_act_deploy (req, resp) h = Gives-pure _ h
  carry-TaskOf node_act_after_deploy (req, resp) h = Gives-pure _ h
  carry-TaskOf (other_action name) (req, resp) h = Gives-raise _

  pub answered-TaskOf :
      (req : InstrReq) (act : Action)
      → TaskOf n req
      → Gives (λ a. TaskOf n a.0) (exec_act e req act)
  answered-TaskOf req act h =
      subst (λ k. Gives (λ a. a.0.schedule_task_id ≡ k) (exec_act e req act)) h
        (exec_act-SameTask e req act)

  pub do_instr-TaskOf : (req : InstrReq) → TaskOf n req → Gives (TaskOf n) (do_instr e req)
  unfolding do_instr
  do_instr-TaskOf req h = Gives-bind _ _ λ i.
      given_bind-Gives (λ a. TaskOf n a.0) _ _ (answered-TaskOf _ _ h) (carry-TaskOf i.instr_action)
