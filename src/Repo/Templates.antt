-- ===== src/Repo/Templates.antt =====
-- repository/scheduletemplaterepo.go: the queries of the services, the list of the templates for
-- deployments, and the deletion of templates.
use text.Mathlib.Text.{◌==◌ as str_eq}
use schedulx.Prelude.{ℕ, ◌==◌, ◌&&◌, String, if◌then◌else◌, List, [], ◌∷◌, ◌++◌, map, true, Bool}
use schedulx.Effect.{
  record_not_found, new_error, Result, ok, err, Exec, pure, raise, ◌>>=◌, ◌>>◌, attempt,
}
use schedulx.Types.{ScheduleTemplate, ServiceCluster, type_deploy}
use schedulx.Db
use schedulx.Env.{Env}
use schedulx.World.{World, on_site, on_clusters, on_templates}
use schedulx.Repo.Tasks.{id_in}
use schedulx.Schedule.Start.{same_type}
use schedulx.Template.Tables.{transaction, get_sched_tmpl}

-- `DeployTemplate`
pub record DeployTemplate : Type 0 where
  pub tmpl_deploy_id : ℕ
  pub tmpl_deploy_name : String
  pub tmpl_desc : String
  pub inst_cluster_name : String
  pub deploy_mode : String
  pub deploy_resource_type : String

unfoldable pub get_resource_type : String → String
get_resource_type deploy_mode = if str_eq deploy_mode "k8s" then "instance_group" else "cluster"

unfoldable pub deploy_template : ScheduleTemplate → DeployTemplate
unfolding get_resource_type
deploy_template r = record {
  tmpl_deploy_id = r.id;
  tmpl_deploy_name = r.tmpl_name;
  tmpl_desc = r.description;
  inst_cluster_name = r.bridgx_clusname;
  deploy_mode = r.deploy_mode;
  deploy_resource_type = get_resource_type r.deploy_mode;
}

-- The rows that a failed query leaves: none.
abbrev pub or_none : {A : Type 0} → Result (List A) → List A
or_none (ok l) = l
or_none (err x) = []

abbrev pub or_nothing : {A : Type 0} → Result (List A × ℕ) → List A × ℕ
or_nothing (ok p) = p
or_nothing (err x) = ([], 0)

module _ (e : Env) where
  unfoldable pub get_all_tmpls_by_svc_cluster_id : List ℕ → Exec (World e) (List ScheduleTemplate)
  get_all_tmpls_by_svc_cluster_id cluster_ids =
      on_templates (
        Db.query_all e.templates (λ r. id_in cluster_ids r.service_cluster_id && r.is_deleted == 0))

  -- The template that the column of another names is read into the structure of the other one, whose
  -- id gorm adds to the condition.
  unfoldable pub reverse_of : ScheduleTemplate → Exec (World e) ScheduleTemplate
  reverse_of r =
      if r.reverse_sched_tmpl_id == 0
      then raise (new_error "reverse_sched_tmpl_id not found")
      else on_templates (
          Db.query_first e.templates
            (λ q. (q.id == r.reverse_sched_tmpl_id && q.id == r.id) && q.is_deleted == 0))

  unfoldable pub get_sched_reverse_tmpl : ℕ → Exec (World e) ScheduleTemplate
  unfolding get_sched_tmpl reverse_of
  get_sched_reverse_tmpl n = get_sched_tmpl e n >>= reverse_of

  unfoldable pub get_sched_reverse_tmpl_by_svc_cluster_id : ℕ → Exec (World e) ScheduleTemplate
  unfolding reverse_of
  get_sched_reverse_tmpl_by_svc_cluster_id n =
      on_templates
        (Db.query_first e.templates (λ r. r.service_cluster_id == n && r.is_deleted == 0))
      >>= reverse_of

  -- The error of the query is dropped, and its count is 0 then.
  unfoldable pub get_deploy_template_list :
      String → ℕ → ℕ → ℕ → Exec (World e) (List DeployTemplate × ℕ)
  unfolding deploy_template
  get_deploy_template_list service_name page page_size cluster_id = do
    found ← attempt (
        on_templates (
          Db.query e.templates
            (λ r.
              str_eq r.service_name service_name
              && r.service_cluster_id == cluster_id
              && same_type r.schedule_type type_deploy
              && r.is_deleted == 0)
            page page_size))
    let (rows, count) = or_nothing found
    if count == 0 then raise record_not_found else pure (map deploy_template rows, count)

  abbrev pub clear_cluster : ServiceCluster → ServiceCluster
  clear_cluster r = record r { bridgx_cluster = "" }

  abbrev pub mark_tmpl : ScheduleTemplate → ScheduleTemplate
  mark_tmpl r = record r { is_deleted = 1 }

  -- gorm refuses a deletion without a condition.
  unfoldable pub delete_tmpls : List ℕ → Exec (World e) ℕ
  delete_tmpls [] = raise (new_error "WHERE conditions required")
  delete_tmpls (n ∷ ids) =
      on_templates
        (Db.updates e.templates (λ r. id_in (n ∷ ids) r.id && r.is_deleted == 0) mark_tmpl)

  -- The condition of `Gets`: without an id gorm leaves it out.
  abbrev pub gets_cond : List ℕ → ℕ → Bool
  gets_cond [] n = true
  gets_cond (m ∷ ids) n = id_in (m ∷ ids) n

  -- `Delete`: the templates, those that reverse them, and the names of their clusters in BridgX. The
  -- error of the first query is dropped.
  unfoldable pub delete : List ℕ → Exec (World e) ℕ
  unfolding transaction delete_tmpls
  delete tmpl_ids = do
    found ← attempt (
        on_templates (Db.query_all e.templates (λ r. gets_cond tmpl_ids r.id && r.is_deleted == 0)))
    let rows = or_none found
    transaction do
      n ← delete_tmpls (tmpl_ids ++ map (λ r. r.reverse_sched_tmpl_id) rows)
      on_site (
          on_clusters (
            Db.updates e.clusters (λ r. id_in (map (λ q. q.service_cluster_id) rows) r.id)
              clear_cluster))
      pure n
