-- ===== src/Frame/Services.antt =====
-- The rows of the tasks under the services of BridgX, the load balancer and the node commands.
use schedulx.Prelude.{ℕ, List, [], ◌∷◌, Option, none, some, String}
use schedulx.Effect.{Result, ok, err, record_not_found}
use schedulx.Effect.Keeps.{Keeps}
use schedulx.Types.{Task, InstanceInfo, InstanceAuth, InstanceGroup, InstanceStatus, Instance}
use schedulx.Env.{Env, ParamsMount, ParamsServiceEnv}
use schedulx.World.{Site}
use schedulx.Bridgx
use schedulx.Bridgx.{BridgxReq, BridgxResp, BridgxAct}
use schedulx.Tasks
use schedulx.Mount
use schedulx.NodeAct
use schedulx.Frame.{Framed}
use schedulx.Frame.Parts.{site_rules, wait-Framed, base_async-Framed, service_async-Framed}
use schedulx.Frame.Polling.{poll_until_done-Framed, collect-Framed}

module _ (e : Env) (n : ℕ) (before : List Task) where
  abbrev P : Site e → Type 0
  P = Framed e n before

  expand-Framed : (c : String) (k : ℕ) → Keeps P (Bridgx.expand_action e c k)
  unfolding Bridgx.expand_action
  expand-Framed c k = search site_rules

  task_rate-Framed : (t : ℕ) → Keeps P (Bridgx.task_rate e t)
  unfolding Bridgx.task_rate
  task_rate-Framed t = search site_rules

  poll_expand-Framed : (t : ℕ) → Keeps P (Bridgx.poll_query_expand_action e t)
  unfolding Bridgx.poll_query_expand_action
  poll_expand-Framed t =
      search (site_rules, wait-Framed, poll_until_done-Framed, task_rate-Framed, collect-Framed)

  shrink-Framed : (c : String) (g : Option InstanceGroup) → Keeps P (Bridgx.shrink_action e c g)
  unfolding Bridgx.shrink_action
  shrink-Framed c none = search site_rules
  shrink-Framed c (some g) = search site_rules

  mark_deleted-Framed : (g : Option InstanceGroup) → Keeps P (Bridgx.mark_deleted e g)
  unfolding Bridgx.mark_deleted
  mark_deleted-Framed none = search site_rules
  mark_deleted-Framed (some g) = search site_rules

  poll_shrink-Framed :
      (t : ℕ) (g : Option InstanceGroup) → Keeps P (Bridgx.poll_query_shrink_action e t g)
  unfolding Bridgx.poll_query_shrink_action
  poll_shrink-Framed t g =
      search
        (site_rules, wait-Framed, poll_until_done-Framed, task_rate-Framed, mark_deleted-Framed)

  pub get_cluster-Framed : (c : String) → Keeps P (Bridgx.get_cluster_action e c)
  unfolding Bridgx.get_cluster_action
  get_cluster-Framed c = search site_rules

  pub cluster_instances-Framed : (c : String) → Keeps P (Bridgx.cluster_instances e c)
  unfolding Bridgx.cluster_instances
  cluster_instances-Framed c = search (site_rules, collect-Framed)

  pub bridgx-Framed : (req : BridgxReq) (act : BridgxAct) → Keeps P (Bridgx.exec_act e req act)
  unfolding Bridgx.exec_act
  bridgx-Framed req Bridgx.expand = expand-Framed _ _
  bridgx-Framed req Bridgx.pool_query_expand = poll_expand-Framed _
  bridgx-Framed req Bridgx.shrink = shrink-Framed _ _
  bridgx-Framed req Bridgx.pool_query_shrink = poll_shrink-Framed _ _
  bridgx-Framed req Bridgx.get_cluster = get_cluster-Framed _

  found_time-Framed : (l : List Instance) → Keeps P (Tasks.found_time e l)
  unfolding Tasks.found_time
  found_time-Framed [] = search site_rules
  found_time-Framed (r ∷ l) = search site_rules

  described-Framed : (k : ℕ) (c : ℕ × ℕ) → Keeps P (Tasks.described e k c)
  unfolding Tasks.described
  described-Framed k (a, b) = search site_rules

  describe-Framed : (t : ℕ) (st : InstanceStatus) → Keeps P (Tasks.describe e t st)
  unfolding Tasks.describe
  describe-Framed t st = search (site_rules, found_time-Framed, described-Framed)

  instances-Framed : (t : ℕ) (st : InstanceStatus) (p k : ℕ) → Keeps P (Tasks.instances e t st p k)
  unfolding Tasks.instances
  instances-Framed t st p k = search site_rules

  mount-Framed : (t : ℕ) (l : List InstanceInfo) (v : String) → Keeps P (Mount.mount e t l v)
  unfolding Mount.mount
  mount-Framed t l v = search site_rules

  umount_list-Framed : (v : String) (a : ℕ × List InstanceInfo) → Keeps P (Mount.umount_list e v a)
  unfolding Mount.umount_list
  umount_list-Framed v (t, l) = search site_rules

  umount_found-Framed :
      (v : String) (r : Result (ℕ × List InstanceInfo)) → Keeps P (Mount.umount_found e v r)
  unfolding Mount.umount_found
  umount_found-Framed v (ok a) = umount_list-Framed v a
  umount_found-Framed v (err record_not_found) = search site_rules
  umount_found-Framed v (err x) = search site_rules

  umount-Framed : (c k : ℕ) (v : String) → Keeps P (Mount.umount e c k v)
  unfolding Mount.umount
  umount-Framed c k v = search (site_rules, umount_found-Framed)

  pub init_base-Framed :
      (g : Option InstanceGroup) (auth : Option InstanceAuth) (c : ℕ)
      → Keeps P (NodeAct.init_base_action e g auth c)
  unfolding NodeAct.init_base_action
  init_base-Framed none auth c = search site_rules
  init_base-Framed (some g) auth c = search (site_rules, base_async-Framed)

  pub init_service-Framed :
      (g : Option InstanceGroup) (auth : Option InstanceAuth) (p : ParamsServiceEnv) (cmd : String)
      (c : ℕ)
      → Keeps P (NodeAct.init_service_action e g auth p cmd c)
  unfolding NodeAct.init_service_action
  init_service-Framed none auth p cmd c = search site_rules
  init_service-Framed (some g) auth p cmd c = search (site_rules, service_async-Framed)

  pub mount_inst-Framed :
      (g : Option InstanceGroup) (info : ParamsMount) → Keeps P (NodeAct.mount_inst_action e g info)
  unfolding NodeAct.mount_inst_action
  mount_inst-Framed none info = search site_rules
  mount_inst-Framed (some g) info = search (site_rules, mount-Framed)

  pub umount_inst-Framed :
      (c k : ℕ) (info : ParamsMount) → Keeps P (NodeAct.umount_inst_action e c k info)
  unfolding NodeAct.umount_inst_action
  umount_inst-Framed c k info = search (site_rules, umount-Framed)

  node_rate-Framed : (t : ℕ) (st : InstanceStatus) → Keeps P (NodeAct.node_rate e t st)
  unfolding NodeAct.node_rate
  node_rate-Framed t st = search (site_rules, describe-Framed)

  pool_query-Framed : (t : ℕ) (st : InstanceStatus) → Keeps P (NodeAct.pool_query_task e t st)
  unfolding NodeAct.pool_query_task
  pool_query-Framed t st =
      search
        (
          site_rules, wait-Framed, poll_until_done-Framed, node_rate-Framed, collect-Framed,
          instances-Framed,
        )
        depth 9

  pub poll_base-Framed : (t : ℕ) → Keeps P (NodeAct.poll_query_base_node e t)
  unfolding NodeAct.poll_query_base_node
  poll_base-Framed t = pool_query-Framed t _

  pub poll_service-Framed : (t : ℕ) → Keeps P (NodeAct.pool_query_service_node e t)
  unfolding NodeAct.pool_query_service_node
  poll_service-Framed t = pool_query-Framed t _
