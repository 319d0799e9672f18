-- ===== src/Repo/Instances.antt =====
-- repository/instancerepo.go: `instanceRepo`. An empty status in a query is `none`.
use text.Mathlib.Text.{◌==◌ as str_eq}
use schedulx.Prelude.{
  ℕ, String, Bool, true, false, not, ◌==◌, ◌&&◌, ◌||◌, if◌then◌else◌, List, [], ◌∷◌, map, Option,
  none, some, length,
}
use schedulx.Effect.{record_not_found, rows_affected_invalid, Exec, pure, raise, ◌>>=◌, ◌>>◌}
use schedulx.Types.{
  Instance, InstanceInfo, InstanceStatus, status_init, base, download, before_deploy, deploy,
  after_deploy, svc, alb, unalb, failed, deleted,
}
use schedulx.Db
use schedulx.Env.{Env}
use schedulx.Tool.Text.{sub_str}

abbrev pub same_instance_status : InstanceStatus → InstanceStatus → Bool
same_instance_status status_init status_init = true
same_instance_status base base = true
same_instance_status download download = true
same_instance_status before_deploy before_deploy = true
same_instance_status deploy deploy = true
same_instance_status after_deploy after_deploy = true
same_instance_status svc svc = true
same_instance_status alb alb = true
same_instance_status unalb unalb = true
same_instance_status failed failed = true
same_instance_status deleted deleted = true
same_instance_status _ _ = false

-- `instance_status = ?`, left out for an empty status
abbrev pub status_matches : Option InstanceStatus → InstanceStatus → Bool
status_matches none s = true
status_matches (some t) s = same_instance_status s t

abbrev pub text_in : List String → String → Bool
text_in [] s = false
text_in (t ∷ l) s = str_eq t s || text_in l s

-- The fields of a stored instance that the services hand on.
abbrev pub info_of : Instance → InstanceInfo
info_of r = record { ip_inner = r.ip_inner; ip_outer = r.ip_outer; instance_id = r.instance_id }

unfoldable pub set_instance_status : InstanceStatus → Instance → Instance
set_instance_status status r = record r { instance_status = status }

-- A row of an instance that a task has just met.
unfoldable pub new_instance : ℕ → ℕ → InstanceInfo → Instance
new_instance task_id service_cluster_id ins = record {
  id = 0;
  task_id = task_id;
  instance_id = ins.instance_id;
  service_cluster_id = service_cluster_id;
  instance_status = status_init;
  ip_inner = ins.ip_inner;
  ip_outer = ins.ip_outer;
  msg = "";
}

-- The loop that skips the instances whose id is in `existInstance`.
unfoldable pub missing : List String → List InstanceInfo → List InstanceInfo
missing exist [] = []
missing exist (ins ∷ l) =
    if text_in exist ins.instance_id then missing exist l else ins ∷ missing exist l

-- A row of which only `ip_inner`, `ip_outer` and `instance_id` were selected: the numbers that were
-- not selected are the zeros of a new structure.
unfoldable pub scanned : Instance → Instance
scanned r = record r { id = 0; task_id = 0; service_cluster_id = 0; msg = "" }

-- `taskId` after the loop of `QueryInstsToUmount`: that of the last structure.
unfoldable pub last_task_id : ℕ → List Instance → ℕ
last_task_id n [] = n
last_task_id n (r ∷ l) = last_task_id r.task_id l

module _ (e : Env) where
  unfoldable pub batch_update_status : List String → ℕ → InstanceStatus → Exec e.instances.Store ℕ
  batch_update_status ips task_id status =
      Db.updates e.instances (λ r. r.task_id == task_id && text_in ips r.ip_inner)
        (set_instance_status status)

  unfoldable pub batch_update_status_by_ids :
      List String → InstanceStatus → Exec e.instances.Store ℕ
  batch_update_status_by_ids ids status =
      Db.updates e.instances (λ r. text_in ids r.instance_id) (set_instance_status status)

  unfoldable pub up_insert_instance_batch :
      List InstanceInfo → ℕ → ℕ → Exec e.instances.Store (Unit {0})
  up_insert_instance_batch instances task_id service_cluster_id = do
    instance_list ← Db.query_all e.instances (λ r. r.task_id == task_id)
    let exist = map (λ (r : Instance). r.instance_id) instance_list
    Db.batch_create e.instances
        (map (new_instance task_id service_cluster_id) (missing exist instances))
    pure tt

  unfoldable pub up_insert_instance_batch_by_cluster :
      List InstanceInfo → ℕ → ℕ → Exec e.instances.Store (Unit {0})
  up_insert_instance_batch_by_cluster instances task_id service_cluster_id = do
    Db.updates e.instances (λ r. r.service_cluster_id == service_cluster_id)
        (set_instance_status deleted)
    Db.batch_create e.instances (map (new_instance task_id service_cluster_id) instances)
    pure tt

  unfoldable pub update_inst :
      ℕ → String → InstanceStatus → String → Exec e.instances.Store (Unit {0})
  update_inst task_id inst_id status msg = do
    let where_row = λ (r : Instance). r.task_id == task_id && str_eq r.instance_id inst_id
    Db.query_first e.instances where_row
    n ←
        Db.updates e.instances where_row
          (λ r. record r { instance_status = status; msg = sub_str msg 100 })
    if n == 1 then pure tt else raise rows_affected_invalid

  unfoldable pub insts_query_by_task_id :
      ℕ → Option InstanceStatus → Exec e.instances.Store (List Instance)
  insts_query_by_task_id task_id status =
      Db.query_all e.instances
        (λ r. r.task_id == task_id && status_matches status r.instance_status)

  unfoldable pub insts_query_cnt_limit :
      ℕ → Option InstanceStatus → ℕ → Exec e.instances.Store (List Instance)
  insts_query_cnt_limit service_cluster_id status limit_cnt =
      Db.query_limit e.instances
        (λ r. r.service_cluster_id == service_cluster_id && status_matches status r.instance_status)
        limit_cnt

  unfoldable pub query_insts_to_umount :
      ℕ → Option InstanceStatus → ℕ → Exec e.instances.Store (ℕ × List InstanceInfo)
  unfolding insts_query_cnt_limit scanned last_task_id
  query_insts_to_umount service_cluster_id status limit = do
    insts ← insts_query_cnt_limit service_cluster_id status limit
    if length insts == 0
        then raise record_not_found
        else pure (last_task_id 0 (map scanned insts), map info_of (map scanned insts))

  unfoldable pub insts_query_by_page :
      ℕ → Option InstanceStatus → ℕ → ℕ → Exec e.instances.Store (List Instance × ℕ)
  insts_query_by_page task_id status page_size page_number =
      Db.query e.instances (λ r. r.task_id == task_id && status_matches status r.instance_status)
        page_number page_size

  -- `Find` runs the statement, so the `Order` and the `Limit` that follow it come too late.
  unfoldable pub not_deleted_insts_with_limit : ℕ → ℕ → Exec e.instances.Store (List Instance)
  not_deleted_insts_with_limit service_cluster_id limit = Db.query_all e.instances (λ r.
      r.service_cluster_id == service_cluster_id
      && not (same_instance_status r.instance_status deleted))

  unfoldable pub get_instance_by_ip_inner : String → Exec e.instances.Store Instance
  get_instance_by_ip_inner ip =
      Db.query_first e.instances
        (λ r. str_eq r.ip_inner ip && not (same_instance_status r.instance_status deleted))
