-- ===== src/Bridgx.antt =====
-- service/bridgxsvc.go: `BridgXSvc`, which expands and shrinks the clusters of BridgX.
use schedulx.Prelude.{ℕ, ◌==◌, String, [], map, Option, none, some, length, if◌then◌else◌}
use schedulx.Effect.{Result, Exec, pure, panic, call, ◌>>=◌, ◌>>◌, attempt}
use schedulx.Types.{InstanceInfo, InstanceAuth, InstanceGroup, deleted}
use schedulx.Env.{Env}
use schedulx.World.{Site, on_instances, on_cloud}
use schedulx.Repo.Instances.{batch_update_status_by_ids}
use schedulx.EnvOps.Jobs.{wait}
use schedulx.Poll.{poll_until_done, collect}

-- The actions that `BridgXSvc` names.
pub data BridgxAct : Type 0 where
  expand pool_query_expand shrink pool_query_shrink get_cluster : BridgxAct

-- `BridgXSvcReq`
pub record BridgxReq : Type 0 where
  pub count : ℕ
  pub cluster_name : String
  pub task_id : ℕ
  pub inst_group : Option InstanceGroup

-- `BridgXSvcResp`
pub record BridgxResp : Type 0 where
  pub task_id : ℕ
  pub inst_group : Option InstanceGroup
  pub auth : Option InstanceAuth

abbrev pub empty_resp : BridgxResp
empty_resp = record { task_id = 0; inst_group = none; auth = none }

module _ (e : Env) where
  unfoldable pub expand_action : String → ℕ → Exec (Site e) BridgxResp
  expand_action cluster_name count = do
    task_id ← on_cloud (call (e.remote.cluster_expand cluster_name count))
    pure (record empty_resp { task_id = task_id })

  -- `TaskDescribe` of the BridgX client: the success rate
  unfoldable pub task_rate : ℕ → Exec (Site e) (Result String)
  task_rate task_id = attempt (on_cloud (call (e.remote.task_describe task_id)))

  unfoldable pub poll_query_expand_action : ℕ → Exec (Site e) BridgxResp
  unfolding task_rate
  poll_query_expand_action task_id = do
    wait e 5
    poll_until_done e 3 (task_rate task_id)
    items ←
        collect (λ page. on_cloud (call (e.remote.task_instances task_id page 50)))
          e.remote.max_pages 1 []
    pure (record empty_resp {
      inst_group = some (record { task_id = task_id; instance_list = items });
    })

  -- A nil group is dereferenced.
  unfoldable pub shrink_action : String → Option InstanceGroup → Exec (Site e) BridgxResp
  shrink_action cluster_name none = panic
  shrink_action cluster_name (some group) = do
    let ips = map (λ (i : InstanceInfo). i.ip_inner) group.instance_list
    task_id ←
        on_cloud (call (e.remote.cluster_shrink cluster_name ips (length group.instance_list)))
    pure (record empty_resp { task_id = task_id })

  unfoldable pub mark_deleted : Option InstanceGroup → Exec (Site e) BridgxResp
  mark_deleted none = panic
  mark_deleted (some group) =
      if length group.instance_list == 0
      then pure empty_resp
      else (on_instances (
            batch_update_status_by_ids e
              (map (λ (i : InstanceInfo). i.instance_id) group.instance_list) deleted)
          >>= λ _. pure empty_resp)

  unfoldable pub poll_query_shrink_action : ℕ → Option InstanceGroup → Exec (Site e) BridgxResp
  unfolding task_rate mark_deleted
  poll_query_shrink_action task_id instances = do
    wait e 10
    poll_until_done e 5 (task_rate task_id)
    mark_deleted instances

  unfoldable pub get_cluster_action : String → Exec (Site e) BridgxResp
  get_cluster_action cluster_name = do
    auth ← on_cloud (call (e.remote.get_cluster_by_name cluster_name))
    pure (record empty_resp { auth = some auth })

  unfoldable pub cluster_instances : String → Exec (Site e) BridgxResp
  cluster_instances cluster_name = do
    items ←
        collect (λ page. on_cloud (call (e.remote.cluster_instances cluster_name page 50)))
          e.remote.max_pages 1 []
    pure (record empty_resp { inst_group = some (record { task_id = 0; instance_list = items }) })

  -- `ExecAct`
  unfoldable pub exec_act : BridgxReq → BridgxAct → Exec (Site e) BridgxResp
  exec_act req expand = expand_action req.cluster_name req.count
  exec_act req pool_query_expand = poll_query_expand_action req.task_id
  exec_act req shrink = shrink_action req.cluster_name req.inst_group
  exec_act req pool_query_shrink = poll_query_shrink_action req.task_id req.inst_group
  exec_act req get_cluster = get_cluster_action req.cluster_name
