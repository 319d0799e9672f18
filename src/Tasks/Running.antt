-- ===== src/Tasks/Running.antt =====
-- `HasRunningTask` and `GetRunningTask` of service/tasksvc.go.
use Prim.Native.String.{◌++◌ as join}
use schedulx.Prelude.{ℕ, ◌==◌, ◌&&◌, ltb, String, Bool, if◌then◌else◌, List, [], ◌∷◌, map}
use schedulx.Effect.{Error, new_error, Result, ok, err, Exec, pure, raise, ◌>>=◌, attempt}
use schedulx.Types.{Task, TaskStatus, running, rolling_back, ScheduleTemplate, ServiceCluster}
use schedulx.Db
use schedulx.Env.{Env}
use schedulx.Tool.Text.{decimal}
use schedulx.World.{World, on_site, on_tasks}
use schedulx.Repo.Tasks.{id_in, status_in, count_by_cond}
use schedulx.Repo.Templates.{get_all_tmpls_by_svc_cluster_id}
use schedulx.Repo.Services.{get_service_clusters, get_service_cluster}

-- `TaskDetail`, without the time
pub record TaskDetail : Type 0 where
  pub service_name : String
  pub cluster_name : String
  pub bridgx_cluster_name : String
  pub deploy_file_url : String
  pub operator : String
  pub running_task_id : ℕ

abbrev pub unfinished : List TaskStatus
unfinished = rolling_back ∷ running ∷ TaskStatus.init ∷ []

-- The ids of rows, as the text of an error shows them.
unfoldable pub spaced : List ℕ → String
spaced [] = ""
spaced (n ∷ []) = decimal n
spaced (n ∷ m ∷ l) = join (decimal n) (join " " (spaced (m ∷ l)))

-- `%v` of a slice
abbrev pub show_ids : List ℕ → String
show_ids l = join "[" (join (spaced l) "]")

module _ {S A : Type 0} where
  -- `if err != nil || len(rows) == 0`: another error is answered.
  unfoldable pub some_rows : Error → Result (List A) → Exec S (List A)
  some_rows x (ok []) = raise x
  some_rows x (ok (r ∷ l)) = pure (r ∷ l)
  some_rows x (err y) = raise x

module _ (e : Env) where
  unfoldable pub has_running_task : String → String → Exec (World e) Bool
  unfolding some_rows get_service_clusters get_all_tmpls_by_svc_cluster_id count_by_cond
  has_running_task service_name cluster_name = do
    found ← attempt (get_service_clusters e service_name cluster_name)
    clusters ←
        some_rows
          (new_error (
            join "cluster not found, service:"
              (join service_name (join ", cluster:" cluster_name))))
          found
    let cluster_ids = map (λ (r : ServiceCluster). r.id) clusters
    held ← attempt (get_all_tmpls_by_svc_cluster_id e cluster_ids)
    tmpls ←
        some_rows (new_error (join "templates not found, cluster_ids:" (show_ids cluster_ids))) held
    n ← on_site (count_by_cond e (map (λ (r : ScheduleTemplate). r.id) tmpls) unfinished)
    pure (ltb 0 n)

  -- The task that is asked for, or the last of a template that is not finished.
  unfoldable pub wanted : ℕ → List ℕ → Task → Bool
  wanted task_id tmpl_ids r =
      if task_id == 0
      then id_in tmpl_ids r.sched_tmpl_id && status_in unfinished r.task_status
      else r.id == task_id

  -- An unreadable text of the task leaves the address empty.
  unfoldable pub file_url : Task → String
  file_url r = elim (e.task_info_json.decode r.task_info) [ ok url ↦ url | err x ↦ "" ]

  -- The error of the query is dropped: the structure is then as it was, with the id 0.
  unfoldable pub task_detail : ServiceCluster → Result Task → TaskDetail
  unfolding file_url
  task_detail cluster (ok r) = record {
    service_name = cluster.service_name;
    cluster_name = cluster.cluster_name;
    bridgx_cluster_name = cluster.bridgx_cluster;
    deploy_file_url = file_url r;
    operator = r.operator;
    running_task_id = r.id;
  }
  task_detail cluster (err x) = record {
    service_name = cluster.service_name;
    cluster_name = cluster.cluster_name;
    bridgx_cluster_name = cluster.bridgx_cluster;
    deploy_file_url = "";
    operator = "";
    running_task_id = 0;
  }

  unfoldable pub get_running_task : ℕ → ℕ → Exec (World e) TaskDetail
  unfolding some_rows wanted task_detail get_service_cluster get_all_tmpls_by_svc_cluster_id
  get_running_task cluster_id task_id = do
    cluster ← get_service_cluster e cluster_id
    held ← attempt (get_all_tmpls_by_svc_cluster_id e (cluster_id ∷ []))
    tmpls ←
        some_rows (new_error (join "templates not found, cluster_ids:" (decimal cluster_id))) held
    task ← attempt (
        on_site (
          on_tasks
            (Db.query_last e.tasks (wanted task_id (map (λ (r : ScheduleTemplate). r.id) tmpls)))))
    pure (task_detail cluster task)
