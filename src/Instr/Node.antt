-- ===== src/Instr/Node.antt =====
-- `nodeActInitBaseAction`, `nodeActInitSvcAction`, `nodeActMountInstAction` and
-- `nodeActUmountInstAction`
use schedulx.Prelude.{ℕ, Option, none, some}
use schedulx.Effect.{Exec, pure, panic, call, ◌>>=◌, ◌>>◌}
use schedulx.Types.{
  InstanceGroup, InstanceAuth, Instruction, base_env_init, base_env_succ, svc_env_init,
  svc_env_succ, mount_init, mount_succ, umount_init, umount_succ,
}
use schedulx.Env.{Env}
use schedulx.World.{Site}
use schedulx.Mount.{ExposeResp}
use schedulx.NodeAct.{
  NodeActResp, init_base_action, init_service_action, mount_inst_action, umount_inst_action,
  poll_query_base_node, pool_query_service_node,
}
use schedulx.Instr.Request.{InstrResp, no_resp, with_step}

-- `instGroup.TaskId`; a nil group has made the call before this one panic.
abbrev group_task : Option InstanceGroup → ℕ
group_task none = 0
group_task (some g) = g.task_id

abbrev node_resp : NodeActResp → InstrResp
node_resp r = record no_resp { node_act_resp = some r }

-- The response with the instances of the load balancer's answer; its task id is left 0.
abbrev pub expose_resp : ExposeResp → InstrResp
expose_resp r = node_resp (record {
  inst_group = some (record { task_id = 0; instance_list = r.instance_list });
  auth = none;
})

module _ (e : Env) where
  unfoldable pub node_act_init_base_action :
      ℕ → Option InstanceGroup → Option InstanceAuth → ℕ → Exec (Site e) InstrResp
  node_act_init_base_action task_id group auth service_cluster_id =
      with_step e task_id base_env_init base_env_succ do
        init_base_action e group auth service_cluster_id
        resp ← poll_query_base_node e (group_task group)
        pure (node_resp resp)

  -- The request of this call names no cluster: its id is 0.
  unfoldable pub node_act_init_svc_action :
      ℕ → Option InstanceGroup → Option InstanceAuth → Instruction → Exec (Site e) InstrResp
  node_act_init_svc_action task_id group auth instruction =
      with_step e task_id svc_env_init svc_env_succ do
        params ← call (λ s. (e.service_env_json.decode instruction.params, s))
        init_service_action e group auth params instruction.cmd 0
        resp ← pool_query_service_node e (group_task group)
        pure (node_resp resp)

  unfoldable pub node_act_mount_inst_action :
      ℕ → Option InstanceGroup → Instruction → Exec (Site e) InstrResp
  node_act_mount_inst_action task_id group instruction =
      with_step e task_id mount_init mount_succ do
        info ← call (λ s. (e.mount_json.decode instruction.params, s))
        resp ← mount_inst_action e group info
        pure (expose_resp resp)

  unfoldable pub umount_counted : Option ℕ → ℕ → Instruction → Exec (Site e) InstrResp
  umount_counted none service_cluster_id instruction = do
    call (λ s. (e.mount_json.decode instruction.params, s))
    panic
  umount_counted (some count) service_cluster_id instruction = do
    info ← call (λ s. (e.mount_json.decode instruction.params, s))
    resp ← umount_inst_action e service_cluster_id count info
    pure (expose_resp resp)

  unfoldable pub node_act_umount_inst_action :
      ℕ → Option ℕ → Instruction → ℕ → Exec (Site e) InstrResp
  unfolding umount_counted
  node_act_umount_inst_action task_id umount_req instruction service_cluster_id =
      with_step e task_id umount_init umount_succ
        (umount_counted umount_req service_cluster_id instruction)
