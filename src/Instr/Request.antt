-- ===== src/Instr/Request.antt =====
-- The request that goes from instruction to instruction, and what an instruction answers. Go passes
-- pointers: a nil one is `none`, and a function that writes through one returns the new request.
use schedulx.Prelude.{ℕ, String, Option, none, some, Bool, true, length, ◌==◌}
use schedulx.Effect.{
  Outcome, returns, fails, panics, crashes, message, Exec, pure, ignore, on_exit, ◌>>◌,
}
use schedulx.Types.{Instruction, InstanceGroup, InstanceAuth, TaskStep}
use schedulx.Env.{Env}
use schedulx.World.{Site}
use schedulx.Repo.Tasks.{update_task_step}
use schedulx.Bridgx.{BridgxReq, BridgxResp}
use schedulx.NodeAct.{NodeActResp}

-- `NodeActSvcReq`, with the `UmountInstCnt` of its `UmountSlbSvcReq`
pub record NodeActReq : Type 0 where
  pub inst_group : Option InstanceGroup
  pub task_id : ℕ
  pub service_cluster_id : ℕ
  pub download_file_url : String
  pub instance_count : ℕ
  pub auth : Option InstanceAuth
  pub umount_inst_cnt : Option ℕ

-- `InstrSvcReq`
pub record InstrReq : Type 0 where
  pub service_name : String
  pub service_cluster_id : ℕ
  pub schedule_task_id : ℕ
  pub instr_id : ℕ
  pub instruction : Instruction
  pub bridgx_req : Option BridgxReq
  pub node_act_req : NodeActReq

-- `InstrSvcResp`
pub record InstrResp : Type 0 where
  pub bridgx_resp : Option BridgxResp
  pub node_act_resp : Option NodeActResp

abbrev pub no_resp : InstrResp
no_resp = record { bridgx_resp = none; node_act_resp = none }

-- `InstGroup == nil || len(InstGroup.InstanceList) == 0`
unfoldable pub no_instances : Option InstanceGroup → Bool
no_instances none = true
no_instances (some g) = length g.instance_list == 0

module _ (e : Env) {A : Type 0} where
  -- The deferred function of an action: the step of success is written while `err` is nil, and a
  -- panic leaves `err` nil.
  unfoldable pub mark_success : ℕ → TaskStep → Outcome A → Exec (Site e) (Unit {0})
  mark_success task_id succ (returns a) = ignore (update_task_step e task_id succ "")
  mark_success task_id succ (fails x) = pure tt
  mark_success task_id succ panics = ignore (update_task_step e task_id succ "")
  mark_success task_id succ crashes = pure tt

  -- The same with a step of failure.
  unfoldable pub mark_either : ℕ → TaskStep → TaskStep → Outcome A → Exec (Site e) (Unit {0})
  mark_either task_id succ fail (returns a) = ignore (update_task_step e task_id succ "")
  mark_either task_id succ fail (fails x) = ignore (update_task_step e task_id fail (message x))
  mark_either task_id succ fail panics = ignore (update_task_step e task_id succ "")
  mark_either task_id succ fail crashes = pure tt

  unfoldable pub with_step : ℕ → TaskStep → TaskStep → Exec (Site e) A → Exec (Site e) A
  unfolding mark_success
  with_step task_id init succ body = do
    ignore (update_task_step e task_id init "")
    on_exit (mark_success task_id succ) body

  unfoldable pub with_steps : ℕ → TaskStep → TaskStep → TaskStep → Exec (Site e) A → Exec (Site e) A
  unfolding mark_either
  with_steps task_id init succ fail body = do
    ignore (update_task_step e task_id init "")
    on_exit (mark_either task_id succ fail) body
