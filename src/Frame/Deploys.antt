-- ===== src/Frame/Deploys.antt =====
-- The rows of the tasks under the steps of a deployment, and under the `switch` of `ExecAct`.
use schedulx.Prelude.{ℕ, List, Option, none, some}
use schedulx.Effect.Keeps.{Keeps}
use schedulx.Types.{
  Task, InstanceStatus, Action, bridgx_expand, bridgx_shrink, node_act_init_base, node_act_init_svc,
  mount_slb, umount_slb, mount_nginx, umount_nginx, node_act_before_download, node_act_download,
  node_act_before_deploy, node_act_deploy, node_act_after_deploy, other_action,
}
use schedulx.Env.{Env}
use schedulx.World.{Site}
use schedulx.Bridgx.{BridgxReq}
use schedulx.Instr.{InstrReq}
use schedulx.Instr.Deploy
use schedulx.Instr.Exec.{dispatch, expand_with}
use schedulx.Frame.{Framed}
use schedulx.Frame.Parts.{site_rules, wait-Framed, before_download_async-Framed, do_deploy-Framed}
use schedulx.Frame.Services.{get_cluster-Framed, cluster_instances-Framed}
use schedulx.Frame.Actions.{
  with_steps-Framed, expand_action-Framed, shrink_action-Framed, init_base_action-Framed,
  init_svc_action-Framed, mount_action-Framed, umount_action-Framed,
}

module _ (e : Env) (n : ℕ) (before : List Task) where
  abbrev P : Site e → Type 0
  P = Framed e n before

  get_bridgx_instances-Framed : (k : ℕ) → Keeps P (Deploy.get_bridgx_instances e k)
  unfolding Deploy.get_bridgx_instances
  get_bridgx_instances-Framed k =
      search (site_rules, get_cluster-Framed, cluster_instances-Framed) depth 7

  supply_instances-Framed : (r : InstrReq) → Keeps P (Deploy.supply_instances e r)
  unfolding Deploy.supply_instances
  supply_instances-Framed r = search (site_rules, get_bridgx_instances-Framed)

  instances_at-Framed : (t : ℕ) (st : InstanceStatus) → Keeps P (Deploy.instances_at e t st)
  unfolding Deploy.instances_at
  instances_at-Framed t st = search site_rules

module _ (e : Env) (before : List Task) (req : InstrReq) where
  abbrev Q : Site e → Type 0
  Q = Framed e req.schedule_task_id before

  before_download-Framed : Keeps Q (Deploy.node_act_before_download e req)
  unfolding Deploy.node_act_before_download
  before_download-Framed =
      search (site_rules, with_steps-Framed, supply_instances-Framed, before_download_async-Framed)
        depth 7

  download-Framed : Keeps Q (Deploy.node_act_download e req)
  unfolding Deploy.node_act_download
  download-Framed =
      search (site_rules, with_steps-Framed, instances_at-Framed, do_deploy-Framed) depth 7

  before_deploy-Framed : Keeps Q (Deploy.node_act_before_deploy e req)
  unfolding Deploy.node_act_before_deploy
  before_deploy-Framed =
      search (site_rules, with_steps-Framed, instances_at-Framed, do_deploy-Framed) depth 7

  deploy-Framed : Keeps Q (Deploy.node_act_deploy e req)
  unfolding Deploy.node_act_deploy
  deploy-Framed =
      search (site_rules, with_steps-Framed, instances_at-Framed, do_deploy-Framed) depth 7

  after_deploy-Framed : Keeps Q (Deploy.node_act_after_deploy e req)
  unfolding Deploy.node_act_after_deploy
  after_deploy-Framed =
      search (site_rules, with_steps-Framed, instances_at-Framed, do_deploy-Framed) depth 7

  expand_with-Framed : (b : Option BridgxReq) → Keeps Q (expand_with e req b)
  unfolding expand_with
  expand_with-Framed none = search site_rules
  expand_with-Framed (some b) = search (site_rules, expand_action-Framed)

  pub dispatch-Framed : (act : Action) → Keeps Q (dispatch e req act)
  unfolding dispatch
  dispatch-Framed bridgx_expand = expand_with-Framed _
  dispatch-Framed bridgx_shrink = search (site_rules, shrink_action-Framed)
  dispatch-Framed node_act_init_base = search (site_rules, wait-Framed, init_base_action-Framed)
  dispatch-Framed node_act_init_svc = search (site_rules, init_svc_action-Framed)
  dispatch-Framed mount_slb = search (site_rules, mount_action-Framed)
  dispatch-Framed umount_slb = search (site_rules, umount_action-Framed)
  dispatch-Framed node_act_before_download = before_download-Framed
  dispatch-Framed node_act_download = search (site_rules, download-Framed)
  dispatch-Framed node_act_before_deploy = search (site_rules, before_deploy-Framed)
  dispatch-Framed node_act_deploy = search (site_rules, deploy-Framed)
  dispatch-Framed node_act_after_deploy = search (site_rules, after_deploy-Framed)
  dispatch-Framed mount_nginx = search site_rules
  dispatch-Framed umount_nginx = search site_rules
  dispatch-Framed (other_action name) = search site_rules
