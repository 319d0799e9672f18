-- ===== src/Template/Update.antt =====
-- `UpdateAction`, `UpdateInstanceTemplate` and `UpdateContainerTemplate` of service/templatesvc.go, and
-- `Delete` of a template.
use text.Mathlib.Text.{◌==◌ as str_eq}
use schedulx.Prelude.{ℕ, String, if◌then◌else◌, [], some, none, ◌==◌}
use schedulx.Effect.{
  Result, ok, err, message, Exec, pure, raise, ◌>>=◌, ◌>>◌, attempt, ignore, new_error,
}
use schedulx.Types.{ScheduleTemplate, ServiceCluster}
use schedulx.Db
use schedulx.Env.{Env}
use schedulx.Tool.Text.{contains}
use schedulx.World.{World, on_site, on_clusters}
use schedulx.Schedule.Run.{not_nil}
use schedulx.Template.Request.{
  TmpInfo, TmplUpdateReq, TmplExpandResp, ExpandStep, step_tmpl_info, step_base_env,
  step_service_env, step_mount, expand_steps,
}
use schedulx.Template.Tables.{
  transaction, settle, single_row, update_tmpl, get_sched_tmpl, delete_by_tmpl_expand_id,
}
use schedulx.Template.Steps.{Locals, reverse_name, later_step, for_steps, write_groups}
use schedulx.Template.Create.{instance_body}

-- `TemplateSvcResp`, in the two forms that an update answers with.
pub data UpdateResp : Type 0 where
  created : TmplExpandResp → UpdateResp
  updated : ℕ → UpdateResp

module _ (e : Env) where
  unfoldable pub update_tmpl_info : ℕ → TmpInfo → Exec (World e) (Unit {0})
  unfolding update_tmpl single_row
  update_tmpl_info n args =
      update_tmpl e n (λ r. record r {
        tmpl_name = args.tmpl_name;
        bridgx_clusname = args.bridgx_clusname;
        description = args.describe;
      })
      >>= single_row e

  unfoldable pub update_reverse_tmpl_info : ℕ → TmpInfo → Exec (World e) (Unit {0})
  unfolding update_tmpl single_row
  update_reverse_tmpl_info n args =
      update_tmpl e n (λ r. record r {
        tmpl_name = reverse_name args.tmpl_name;
        bridgx_clusname = args.bridgx_clusname;
      })
      >>= single_row e

  -- `err != nil && !strings.Contains(err.Error(), "db update rows affected invalid")`: a template that
  -- has the values already is no error.
  unfoldable pub unless_unchanged : Result (Unit {0}) → Exec (World e) (Unit {0})
  unfolding message
  unless_unchanged (ok u) = pure tt
  unless_unchanged (err x) =
      if contains (message x) "db update rows affected invalid" then pure tt else raise x

  -- The first step: both templates are renamed, and their instructions marked as deleted.
  unfoldable pub renew_tmpl : TmplUpdateReq → ScheduleTemplate → Exec (World e) (Unit {0})
  unfolding not_nil unless_unchanged update_tmpl_info update_reverse_tmpl_info
      delete_by_tmpl_expand_id
  renew_tmpl req tmpl = do
    info ← not_nil req.parts.tmpl_info
    r ← attempt (update_tmpl_info req.tmpl_expand_id info)
    unless_unchanged r
    k ← attempt (update_reverse_tmpl_info tmpl.reverse_sched_tmpl_id info)
    unless_unchanged k
    ignore (delete_by_tmpl_expand_id e tmpl.id)
    ignore (delete_by_tmpl_expand_id e tmpl.reverse_sched_tmpl_id)

  unfoldable pub update_step :
      TmplUpdateReq → ScheduleTemplate → String → ExpandStep → Locals → Exec (World e) Locals
  unfolding renew_tmpl later_step
  update_step req tmpl service_name step_tmpl_info v =
      renew_tmpl req tmpl >> later_step e req.parts service_name step_tmpl_info v
  update_step req tmpl service_name step_base_env v =
      later_step e req.parts service_name step_base_env v
  update_step req tmpl service_name step_service_env v =
      later_step e req.parts service_name step_service_env v
  update_step req tmpl service_name step_mount v = later_step e req.parts service_name step_mount v

  -- The cluster is written where it has another name.
  unfoldable pub rebind_cluster : TmpInfo → ServiceCluster → Exec (World e) (Unit {0})
  rebind_cluster info cluster =
      if str_eq cluster.bridgx_cluster info.bridgx_clusname
      then pure tt
      else (on_site (
            on_clusters (
              Db.updates_by_id e.clusters info.service_cluster_id
                (λ r. record r { bridgx_cluster = info.bridgx_clusname })))
          >> pure tt)

  unfoldable pub update_container_template : TmplUpdateReq → Exec (World e) UpdateResp
  unfolding transaction not_nil rebind_cluster get_sched_tmpl for_steps update_step write_groups
  update_container_template req = transaction do
    info ← not_nil req.parts.tmpl_info
    cluster ← on_site (on_clusters (Db.get e.clusters info.service_cluster_id))
    rebind_cluster info cluster
    tmpl ← get_sched_tmpl e req.tmpl_expand_id
    v ←
        for_steps e (update_step req tmpl cluster.service_name) req.parts.end_step expand_steps
          (record {
            tmpls = some (tmpl.id, tmpl.reverse_sched_tmpl_id);
            group = [];
            rev_group = [];
          })
    write_groups e v
    pure (updated tmpl.id)

  -- The deletion is soft. gorm refuses a deletion without a condition, which the id 0 is.
  unfoldable pub delete_tmpl : ℕ → Exec (World e) ℕ
  unfolding update_tmpl
  delete_tmpl n =
      if n == 0
      then raise (new_error "WHERE conditions required")
      else update_tmpl e n (λ r. record r { is_deleted = 1 })

  -- A new template is made in the same transaction, which the creation ends.
  unfoldable pub update_instance_template : TmplUpdateReq → Exec (World e) UpdateResp
  unfolding transaction delete_tmpl instance_body settle
  update_instance_template req = do
    resp ← transaction do
      delete_tmpl req.tmpl_expand_id
      instance_body e
          (record req.parts { end_step = ""; base_env = none; service_env = none; mount = none })
    r ← settle resp
    pure (created r)

  unfoldable pub update_action : TmplUpdateReq → Exec (World e) UpdateResp
  unfolding not_nil update_instance_template update_container_template
  update_action req = do
    info ← not_nil req.parts.tmpl_info
    if str_eq info.deploy_mode "instance"
        then update_instance_template req
        else update_container_template req
