-- ===== src/Instr/Exec.antt =====
-- `InstrSvc.ExecAct`: an instruction between the two writes of its record.
use schedulx.Prelude.{ℕ, ◌==◌, ◌&&◌, String, Option, none, some, if◌then◌else◌}
use schedulx.Effect.{
  new_error, rows_affected_invalid, Outcome, returns, fails, panics, crashes, message, Exec, pure,
  raise, panic, ◌>>=◌, ◌>>◌, ignore, on_exit,
}
use schedulx.Types.{
  InstrRecStatus, rec_running, rec_succ, rec_fail, InstrRecord, Action, bridgx_expand,
  bridgx_shrink, node_act_init_base, node_act_init_svc, mount_slb, umount_slb, mount_nginx,
  umount_nginx, node_act_before_download, node_act_download, node_act_before_deploy,
  node_act_deploy, node_act_after_deploy, other_action,
}
use schedulx.Db
use schedulx.Env.{Env}
use schedulx.World.{Site, World, on_site, on_instr_records}
use schedulx.Tool.Text.{sub_str}
use schedulx.EnvOps.Jobs.{wait}
use schedulx.Bridgx.{BridgxReq}
use schedulx.Instr.Request.{InstrReq, InstrResp}
use schedulx.Instr.Expand.{bridgx_expand_action}
use schedulx.Instr.Shrink.{bridgx_shrink_action}
use schedulx.Instr.Node.{
  node_act_init_base_action, node_act_init_svc_action, node_act_mount_inst_action,
  node_act_umount_inst_action,
}
use schedulx.Instr.Deploy

-- The request after the call and the response, which may be nil.
abbrev pub Answer : Type 0
Answer = InstrReq × Option InstrResp

module _ (e : Env) where
  unfoldable pub create_instr_record : ℕ → ℕ → Exec (World e) (Unit {0})
  create_instr_record task_id instr_id = do
    on_instr_records (
        Db.create e.instr_records (record {
          id = 0;
          task_id = task_id;
          instr_status = rec_running;
          msg = "";
          instr_id = instr_id;
        }))
    pure tt

  unfoldable pub set_record : InstrRecStatus → String → InstrRecord → InstrRecord
  set_record status msg r = record r { instr_status = status; msg = sub_str msg 100 }

  unfoldable pub update_instr_record : ℕ → ℕ → InstrRecStatus → String → Exec (World e) (Unit {0})
  update_instr_record task_id instr_id status msg = do
    n ← on_instr_records (
        Db.updates e.instr_records (λ r. r.task_id == task_id && r.instr_id == instr_id)
          (set_record status msg))
    if n == 1 then pure tt else raise rows_affected_invalid

  -- The deferred function: a panic leaves the named result `err` nil.
  unfoldable pub close_record : {A : Type 0} → InstrReq → Outcome A → Exec (World e) (Unit {0})
  close_record req (returns a) =
      ignore (update_instr_record req.schedule_task_id req.instr_id rec_succ "")
  close_record req (fails x) =
      ignore (update_instr_record req.schedule_task_id req.instr_id rec_fail (message x))
  close_record req panics =
      ignore (update_instr_record req.schedule_task_id req.instr_id rec_succ "")
  close_record req crashes = pure tt

  abbrev answer : InstrReq → InstrResp → Exec (Site e) Answer
  answer req resp = pure (req, some resp)

  -- A nil `BridgXSvcReq` is dereferenced for its count.
  unfoldable pub expand_with : InstrReq → Option BridgxReq → Exec (Site e) Answer
  expand_with req none = panic
  expand_with req (some b) =
      bridgx_expand_action e req.schedule_task_id b.count b.cluster_name >>= answer req

  -- The `switch` of `ExecAct`.
  unfoldable pub dispatch : InstrReq → Action → Exec (Site e) Answer
  unfolding expand_with
  dispatch req bridgx_expand = expand_with req req.bridgx_req
  dispatch req bridgx_shrink = do
    done ← bridgx_shrink_action e req.schedule_task_id req.bridgx_req req.service_cluster_id
    answer (record req { bridgx_req = some done.0 }) done.1
  dispatch req node_act_init_base = do
    wait e 25
    resp ←
        node_act_init_base_action e req.schedule_task_id req.node_act_req.inst_group
          req.node_act_req.auth req.service_cluster_id
    answer req resp
  dispatch req node_act_init_svc =
      node_act_init_svc_action e req.schedule_task_id req.node_act_req.inst_group
        req.node_act_req.auth req.instruction
      >>= answer req
  dispatch req mount_slb =
      node_act_mount_inst_action e req.schedule_task_id req.node_act_req.inst_group req.instruction
      >>= answer req
  dispatch req umount_slb =
      node_act_umount_inst_action e req.schedule_task_id req.node_act_req.umount_inst_cnt
        req.instruction req.service_cluster_id
      >>= answer req
  dispatch req node_act_before_download = Deploy.node_act_before_download e req
  dispatch req node_act_download = Deploy.node_act_download e req >>= answer req
  dispatch req node_act_before_deploy = Deploy.node_act_before_deploy e req >>= answer req
  dispatch req node_act_deploy = Deploy.node_act_deploy e req >>= answer req
  dispatch req node_act_after_deploy = Deploy.node_act_after_deploy e req >>= answer req
  dispatch req mount_nginx = raise (new_error "no act matched")
  dispatch req umount_nginx = raise (new_error "no act matched")
  dispatch req (other_action name) = raise (new_error "no act matched")

  -- `ExecAct`
  unfoldable pub exec_act : InstrReq → Action → Exec (World e) Answer
  exec_act req act =
      on_exit (close_record req)
        do create_instr_record req.schedule_task_id req.instr_id; on_site (dispatch req act)
