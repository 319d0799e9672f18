-- ===== src/Instr/Deploy.antt =====
-- The five steps of a deployment: `nodeActBeforeDownload`, `nodeActDownloadExecutableFile`,
-- `nodeActBeforeDeploy`, `nodeActDeploy` and `nodeActAfterDeploy`.
use Prim.Native.String.{◌++◌}
use schedulx.Prelude.{ℕ, ◌==◌, String, List, [], map, Option, none, some, length, if◌then◌else◌}
use schedulx.Effect.{new_error, Result, ok, err, Exec, pure, raise, call, ◌>>=◌, ◌>>◌}
use schedulx.Types.{
  Instance, InstanceInfo, InstanceAuth, InstanceGroup, InstanceStatus, TaskStep,
  deploy_before_download_init, deploy_before_download_succ, deploy_before_download_fail,
  deploy_download_init, deploy_download_succ, deploy_download_fail, deploy_before_deploy_init,
  deploy_before_deploy_succ, deploy_before_deploy_fail, deploy_deploy_init, deploy_deploy_succ,
  deploy_deploy_fail, deploy_after_deploy_init, deploy_after_deploy_succ, deploy_after_deploy_fail,
}
use schedulx.Types
use schedulx.Db
use schedulx.Env.{Env}
use schedulx.World.{Site, on_instances, on_clusters}
use schedulx.Tool.Text.{decimal}
use schedulx.Repo.Instances.{info_of, insts_query_by_task_id}
use schedulx.EnvOps.Scripts.{parse_download_exec_cmd, parse_deploy_cmd}
use schedulx.EnvOps.Deploy.{deploy_before_download_init_async, do_deploy}
use schedulx.Bridgx.{get_cluster_action, cluster_instances}
use schedulx.NodeAct.{NodeActResp}
use schedulx.Instr.Request.{InstrReq, InstrResp, no_resp, no_instances, with_steps}

-- `transform`
unfoldable pub transform : List Instance → List InstanceInfo
transform = map info_of

-- The command, or the empty text that `ParseDownloadExecCmd` gives with its error: the error itself
-- is overwritten by the next call and never read.
unfoldable pub command_of : Result String → String
command_of (ok cmd) = cmd
command_of (err x) = ""

-- `req.NodeActSvcReq.InstGroup.InstanceList`, which is not nil there
unfoldable pub list_of : Option InstanceGroup → List InstanceInfo
list_of none = []
list_of (some g) = g.instance_list

-- The request with the instances and the login of a response.
abbrev pub with_nodes : InstrReq → NodeActResp → InstrReq
with_nodes req r = record req {
  node_act_req = record req.node_act_req { inst_group = r.inst_group; auth = r.auth };
}

module _ (e : Env) where
  unfoldable pub get_bridgx_instances : ℕ → Exec (Site e) NodeActResp
  get_bridgx_instances service_cluster_id = do
    sc ← on_clusters (Db.get e.clusters service_cluster_id)
    cluster ← get_cluster_action e sc.bridgx_cluster
    found ← cluster_instances e sc.bridgx_cluster
    pure (record { inst_group = found.inst_group; auth = cluster.auth })

  -- The request with instances, and the response to give: none where the request had them.
  unfoldable pub supply_instances : InstrReq → Exec (Site e) (InstrReq × Option InstrResp)
  unfolding get_bridgx_instances no_instances
  supply_instances req =
      if no_instances req.node_act_req.inst_group
      then (do
        found ← get_bridgx_instances req.service_cluster_id
        pure (with_nodes req found, some (record no_resp { node_act_resp = some found })))
      else pure (req, none)

  unfoldable pub node_act_before_download : InstrReq → Exec (Site e) (InstrReq × Option InstrResp)
  unfolding supply_instances list_of
  node_act_before_download req =
      with_steps e req.schedule_task_id deploy_before_download_init deploy_before_download_succ
        deploy_before_download_fail
        do
          supplied ← supply_instances req
          let nodes = supplied.0.node_act_req
          deploy_before_download_init_async e req.service_cluster_id req.schedule_task_id
              req.instruction.cmd (list_of nodes.inst_group) nodes.auth
          pure supplied

  -- The instances of the task that the step before has left in `from`.
  unfoldable pub instances_at : ℕ → InstanceStatus → Exec (Site e) (List InstanceInfo)
  unfolding transform
  instances_at task_id from = do
    rows ← on_instances (insts_query_by_task_id e task_id (some from))
    if length rows == 0
        then raise (new_error ("instances not found, taskId:" ++ decimal task_id))
        else pure (transform rows)

  unfoldable pub node_act_download : InstrReq → Exec (Site e) InstrResp
  unfolding command_of instances_at
  node_act_download req =
      with_steps e req.schedule_task_id deploy_download_init deploy_download_succ
        deploy_download_fail
        do
          param ← call (λ s. (e.download_json.decode req.instruction.params, s))
          let cmd = command_of (
              parse_download_exec_cmd req.node_act_req.download_file_url param.deploy_file_path
                param.deploy_file_name)
          found ← instances_at req.schedule_task_id Types.base
          do_deploy e req.schedule_task_id cmd found req.node_act_req.auth Types.download
          pure no_resp

  unfoldable pub node_act_before_deploy : InstrReq → Exec (Site e) InstrResp
  unfolding instances_at
  node_act_before_deploy req =
      with_steps e req.schedule_task_id deploy_before_deploy_init deploy_before_deploy_succ
        deploy_before_deploy_fail
        do
          found ← instances_at req.schedule_task_id Types.download
          do_deploy e req.schedule_task_id req.instruction.cmd found req.node_act_req.auth
              Types.before_deploy
          pure no_resp

  unfoldable pub node_act_deploy : InstrReq → Exec (Site e) InstrResp
  unfolding instances_at
  node_act_deploy req =
      with_steps e req.schedule_task_id deploy_deploy_init deploy_deploy_succ deploy_deploy_fail do
        found ← instances_at req.schedule_task_id Types.before_deploy
        envs ← call (λ s. (e.deploy_json.decode req.instruction.params, s))
        do_deploy e req.schedule_task_id (parse_deploy_cmd envs req.instruction.cmd) found
            req.node_act_req.auth Types.deploy
        pure no_resp

  unfoldable pub node_act_after_deploy : InstrReq → Exec (Site e) InstrResp
  unfolding instances_at
  node_act_after_deploy req =
      with_steps e req.schedule_task_id deploy_after_deploy_init deploy_after_deploy_succ
        deploy_after_deploy_fail
        do
          found ← instances_at req.schedule_task_id Types.deploy
          do_deploy e req.schedule_task_id req.instruction.cmd found req.node_act_req.auth
              Types.after_deploy
          pure no_resp
