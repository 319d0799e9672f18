-- ===== src/NodeAct.antt =====
-- service/noteactsvc.go: `NodeActSvc`, the commands on the instances of an expand task.
use schedulx.Prelude.{ℕ, String, [], Option, none, some}
use schedulx.Effect.{Result, ok, Exec, pure, panic, ◌>>=◌, ◌>>◌, or_panic, goroutine}
use schedulx.Types.{InstanceAuth, InstanceGroup, InstanceStatus, base, svc}
use schedulx.Env.{Env, ParamsMount, ParamsServiceEnv}
use schedulx.World.{Site}
use schedulx.EnvOps.Jobs.{wait, base_env_init_async, service_env_init_async}
use schedulx.Poll.{poll_until_done, collect}
use schedulx.Tasks.{describe, instances}
use schedulx.Mount.{ExposeResp, mount, umount}

-- `NodeActSvcResp`
pub record NodeActResp : Type 0 where
  pub inst_group : Option InstanceGroup
  pub auth : Option InstanceAuth

module _ (e : Env) where
  unfoldable pub init_base_action :
      Option InstanceGroup → Option InstanceAuth → ℕ → Exec (Site e) (Unit {0})
  init_base_action none auth service_cluster_id = panic
  init_base_action (some group) auth service_cluster_id =
      base_env_init_async e service_cluster_id group.task_id group.instance_list auth

  unfoldable pub init_service_action :
      Option InstanceGroup
      → Option InstanceAuth
      → ParamsServiceEnv
      → String
      → ℕ
      → Exec (Site e) (Unit {0})
  init_service_action none auth params cmd service_cluster_id = panic
  init_service_action (some group) auth params cmd service_cluster_id =
      service_env_init_async e service_cluster_id group.task_id group.instance_list auth params cmd

  unfoldable pub mount_inst_action : Option InstanceGroup → ParamsMount → Exec (Site e) ExposeResp
  mount_inst_action none info = panic
  mount_inst_action (some group) info = mount e group.task_id group.instance_list info.mount_value

  unfoldable pub umount_inst_action : ℕ → ℕ → ParamsMount → Exec (Site e) ExposeResp
  umount_inst_action service_cluster_id count info =
      umount e service_cluster_id count info.mount_value

  -- In the polling goroutine an error of `Describe` comes with a nil answer, and nothing recovers.
  unfoldable pub node_rate : ℕ → InstanceStatus → Exec (Site e) (Result String)
  node_rate task_id status = do
    d ← goroutine (or_panic (describe e task_id status))
    pure (ok d.success_rate)

  unfoldable pub pool_query_task : ℕ → InstanceStatus → Exec (Site e) NodeActResp
  unfolding node_rate
  pool_query_task task_id status = do
    wait e 20
    poll_until_done e 3 (node_rate task_id status)
    items ← collect (λ page. or_panic (instances e task_id status page 50)) e.remote.max_pages 1 []
    pure (record {
      inst_group = some (record { task_id = task_id; instance_list = items });
      auth = none;
    })

  unfoldable pub poll_query_base_node : ℕ → Exec (Site e) NodeActResp
  poll_query_base_node task_id = pool_query_task task_id base

  unfoldable pub pool_query_service_node : ℕ → Exec (Site e) NodeActResp
  pool_query_service_node task_id = pool_query_task task_id svc
